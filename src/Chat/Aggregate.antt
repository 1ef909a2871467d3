-- ===== src/Chat/Aggregate.antt =====
-- The message aggregator of internal/api/ws_chat_aggregate.go and its queue (ws_chat_queue.go). A
-- system context, a `map[string]any`, is a value of a parameter type X. A buffer that add, flush or
-- closeAll took out of the map is in flight until its flushBuffer, which runs outside the lock, has
-- come to its end. Timers are not part of the state: a flush may happen at any time. The queue is the
-- list of the turns in the order of their enqueue calls.
use nukara.Base.{
  ℕ, zero, suc, String, Option, none, some, if◌then◌else◌, leb, pos, trim, is_blank, ◌<>◌, Map, get,
  put, delete, values, empty_map, List, [], ◌∷◌, ◌++◌, length,
}
use nukara.Store.Types.{Conversation, Bot}
use nukara.Store.Notifications.{itoa}

abbrev pub max_aggregate_messages : ℕ
max_aggregate_messages = 10

pub record AggregateInput (X : Type 0) : Type 0 where
  pub user_id : String
  pub conversation : Conversation
  pub bot : Bot
  pub prompt : String
  pub user_message_id : String
  pub system_context : X

pub record AggregateBuffer (X : Type 0) : Type 0 where
  pub user_id : String
  pub conversation : Conversation
  pub bot : Bot
  pub prompts : List String
  pub user_message_ids : List String
  pub system_context : X

pub record QueuedTurn (X : Type 0) : Type 0 where
  pub user_id : String
  pub conversation : Conversation
  pub bot : Bot
  pub aggregated_text : String
  pub user_message_ids : List String
  pub system_context : X

pub record MessageAggregator (X : Type 0) : Type 0 where
  pub buffers : Map (AggregateBuffer X)
  pub in_flight : List (AggregateBuffer X)
  pub queue : List (QueuedTurn X)

-- The lines "1. …", "2. …" of the loop, from number `n` on.
unfoldable pub numbered : ℕ → List String → String
numbered n [] = ""
numbered n (prompt ∷ prompts) =
    itoa (pos n) <> (". " <> (trim prompt <> ("\n" <> numbered (suc n) prompts)))

unfoldable pub format_aggregated_prompt : List String → String
unfolding numbered
format_aggregated_prompt [] = ""
format_aggregated_prompt (prompt ∷ []) = trim prompt
format_aggregated_prompt (p ∷ q ∷ rest) =
    trim (
      "[用户连续发送了" <> (itoa (pos (length (p ∷ q ∷ rest))) <> ("条消息]\n" <> numbered 1 (p ∷ q ∷ rest))))

unfoldable pub remove_nth {ℓ} : {A : Type ℓ} → ℕ → List A → Option (A × List A)
remove_nth n [] = none
remove_nth zero (x ∷ xs) = some (x, xs)
remove_nth (suc n) (x ∷ xs) = elim (remove_nth n xs) [
  | none ↦ none
  | some (y, ys) ↦ some (y, x ∷ ys)
]

module _ {X : Type 0} where
  unfoldable pub new_message_aggregator : MessageAggregator X
  new_message_aggregator = record { buffers = empty_map; in_flight = []; queue = [] }

  abbrev pub grown : AggregateBuffer X → AggregateInput X → AggregateBuffer X
  grown buf input = record buf {
    prompts = buf.prompts ++ input.prompt ∷ [];
    user_message_ids = buf.user_message_ids ++ input.user_message_id ∷ [];
    system_context = input.system_context;
  }

  abbrev pub new_buffer : AggregateInput X → AggregateBuffer X
  new_buffer input = record {
    user_id = input.user_id;
    conversation = input.conversation;
    bot = input.bot;
    prompts = input.prompt ∷ [];
    user_message_ids = input.user_message_id ∷ [];
    system_context = input.system_context;
  }

  -- What add does with the buffer of the conversation, if there is one.
  unfoldable pub add_to :
      MessageAggregator X → AggregateInput X → Option (AggregateBuffer X) → MessageAggregator X
  add_to ma input none = record ma {
    buffers = put ma.buffers input.conversation.id (new_buffer input);
  }
  add_to ma input (some buf) =
      let more = grown buf input in
      if leb max_aggregate_messages (length more.prompts)
      then record ma {
        buffers = delete ma.buffers input.conversation.id;
        in_flight = more ∷ ma.in_flight;
      }
      else record ma { buffers = put ma.buffers input.conversation.id more }

  unfoldable pub add : MessageAggregator X → AggregateInput X → MessageAggregator X
  unfolding add_to
  add ma input = add_to ma input (get ma.buffers input.conversation.id)

  -- flush up to its call of flushBuffer.
  unfoldable pub flush : MessageAggregator X → String → MessageAggregator X
  flush ma conversation_id = elim (get ma.buffers conversation_id) [
    | none ↦ ma
    | some buf ↦ record ma {
      buffers = delete ma.buffers conversation_id;
      in_flight = buf ∷ ma.in_flight;
    }
  ]

  -- closeAll up to its calls of flushBuffer.
  unfoldable pub close_all : MessageAggregator X → MessageAggregator X
  close_all ma = record ma { buffers = empty_map; in_flight = values ma.buffers ++ ma.in_flight }

  abbrev pub turn_of : AggregateBuffer X → QueuedTurn X
  turn_of buf = record {
    user_id = buf.user_id;
    conversation = buf.conversation;
    bot = buf.bot;
    aggregated_text = format_aggregated_prompt buf.prompts;
    user_message_ids = buf.user_message_ids;
    system_context = buf.system_context;
  }

  -- flushBuffer with the enqueue call in it.
  unfoldable pub flush_buffer : List (QueuedTurn X) → AggregateBuffer X → List (QueuedTurn X)
  unfolding format_aggregated_prompt
  flush_buffer queue buf =
      if is_blank (format_aggregated_prompt buf.prompts) then queue else queue ++ turn_of buf ∷ []

  -- The n-th buffer in flight comes to the end of its flushBuffer.
  unfoldable pub deliver : MessageAggregator X → ℕ → MessageAggregator X
  unfolding remove_nth flush_buffer
  deliver ma n = elim (remove_nth n ma.in_flight) [
    | none ↦ ma
    | some (buf, rest) ↦ record ma { in_flight = rest; queue = flush_buffer ma.queue buf }
  ]
