-- ===== src/Chat/Turn.antt =====
-- What a chat message does to the store: processChatMessage of internal/api/chat_flow.go with the
-- conversations of internal/store/store.go.
use nukara.Base.{
  String, ◌==◌, Option, none, some, ◌≡◌, refl, sym, ap, ◌∙◌, subst, arith, pos, List, [], ◌∷◌, ◌++◌,
  trim, is_blank, if◌then◌else◌, get, put, get_or, get_or-found, get-put_self, Option-cases, inl,
  inr, Bool-cases, eq_iff,
}
use nukara.Store.Types.{Time, Bot, Conversation, Message, MessageContent}
use nukara.Store.State.{Store}
use nukara.Store.Bots.{get_bot}
use nukara.Store.Chats.{
  get_conversation, list_messages, last_messages, save_message, stamped, bumped, owned_conversation,
}
use nukara.Store.Chats.Messages.{save-stores, with_message, list_owned, owned}
use nukara.Store.Presence.{set_last_user_message_at}
use nukara.Store.Activity.{save_bot_status, get_user_status, list_directives}
use nukara.Chat.Content.{normalize_message_content}
use nukara.Chat.Flow.{
  Call, ChatResult, ChatError, ChatMessageRequest, failed, done, Reply, finish_chat, answer_chat,
  send_chat, process_chat_message, status_string, user_message_of, bot_message_of, reply_or_default,
}

set_last-chats :
    (s : Store) (u : String) (at : Time)
    → let t = set_last_user_message_at s u at in
      (t.conversations_by_id ≡ s.conversations_by_id) × (t.messages_by_conv ≡ s.messages_by_conv)
unfolding set_last_user_message_at
set_last-chats s u at = ground arith

-- A turn was taken: the result is a success; its messages are one of the user with this content and one
-- of the bot, both of the conversation and with their times; and the conversation now ends with them.
abbrev pub IsTaken :
    Store → String → Conversation → Call → MessageContent → Store × ChatResult → Type 0
IsTaken s u conv call content (t, failed e) = ⊥
IsTaken s u conv call content (t, done r) =
    (r.user_message.sender_type ≡ "user")
    × (r.user_message.content ≡ content)
    × (r.user_message.conversation_id ≡ conv.id)
    × (r.user_message.created_at ≡ call.user_at)
    × (r.user_message.id ≡ call.user_id)
    × (r.bot_message.sender_type ≡ "bot")
    × (r.bot_message.conversation_id ≡ conv.id)
    × (r.bot_message.created_at ≡ call.bot_at)
    × (r.bot_message.id ≡ call.bot_id)
    × (list_messages t u conv.id (pos 0)
        ≡ some (get_or s.messages_by_conv conv.id [] ++ r.user_message ∷ [] ++ r.bot_message ∷ []))

-- The end of the turn, behind messages `old`
Ends : Call → String → Conversation → Message → List Message → Store × ChatResult → Type 0
Ends call u conv user_message old (t, failed e) = ⊥
Ends call u conv user_message old (t, done r) =
    (r.user_message ≡ user_message)
    × (r.bot_message.sender_type ≡ "bot")
    × (r.bot_message.conversation_id ≡ conv.id)
    × (r.bot_message.created_at ≡ call.bot_at)
    × (r.bot_message.id ≡ call.bot_id)
    × (list_messages t u conv.id (pos 0) ≡ some (old ++ r.bot_message ∷ []))

unnamed : (id : String) → (if is_blank "" then id else "") ≡ id
unfolding trim
unnamed id = refl

-- Saving the bot's message in a conversation `c` of the user under the identifier of `conv`
finish_chat-Ends :
    (call : Call) (t : Store) (u : String) (conv c : Conversation) (bot : Bot)
    (user_message : Message) (reply : Reply)
    → get t.conversations_by_id conv.id ≡ some c
    → c.user_id ≡ u
    → Ends call u conv user_message (get_or t.messages_by_conv conv.id []) (
        finish_chat call u conv bot user_message reply
          (save_message t call.bot_at call.bot_id u (bot_message_of conv reply)))
unfolding Ends finish_chat stamped bumped save_bot_status last_messages
finish_chat-Ends call t u conv c bot user_message reply found same =
    let m = bot_message_of conv reply in
    let saved = stamped call.bot_at call.bot_id m in
    let T = with_message t conv.id saved c in
    let messages = get_or t.messages_by_conv conv.id [] ++ saved ∷ [] in
    let shown = save_bot_status T call.shown_at u bot.id reply.status_emoji reply.status_text in
    subst
      (λ q.
        Ends call u conv user_message (get_or t.messages_by_conv conv.id [])
          (finish_chat call u conv bot user_message reply q))
      (sym (save-stores t call.bot_at call.bot_id u m c found same))
      (
        refl,
        refl,
        refl,
        refl,
        unnamed call.bot_id,
        list_owned shown u conv.id (bumped saved c) (pos 0)
              (get-put_self t.conversations_by_id conv.id (bumped saved c)) same
            ∙ ap some (
                get_or-found (put t.messages_by_conv conv.id messages) conv.id [] messages
                  (get-put_self t.messages_by_conv conv.id messages)),
      )

send_chat-IsTaken :
    (call : Call) (s : Store) (u : String) (conv : Conversation) (bot : Bot)
    (content : MessageContent) (prompt : String)
    → get s.conversations_by_id conv.id ≡ some conv
    → conv.user_id ≡ u
    → IsTaken s u conv call content (send_chat call s u conv bot (some (content, prompt)))
unfolding send_chat answer_chat Ends bumped stamped
send_chat-IsTaken call s u conv bot content prompt found same =
    let m = user_message_of conv content in
    let saved = stamped call.user_at call.user_id m in
    let T = with_message s conv.id saved conv in
    let t = set_last_user_message_at T u saved.created_at in
    let keeps = set_last-chats T u saved.created_at in
    let messages = get_or s.messages_by_conv conv.id [] ++ saved ∷ [] in
    let status = status_string (get_user_status t u) in
    let asked = call.runtime bot conv (list_directives t u bot.id "active") status prompt in
    let held : get_or t.messages_by_conv conv.id [] ≡ messages =
      ap (λ x. get_or x conv.id []) keeps.1
      ∙ get_or-found (put s.messages_by_conv conv.id messages) conv.id [] messages
          (get-put_self s.messages_by_conv conv.id messages) in
    let there : get t.conversations_by_id conv.id ≡ some (bumped saved conv) =
      ap (λ x. get x conv.id) keeps.0
      ∙ get-put_self s.conversations_by_id conv.id (bumped saved conv) in
    let ends =
      finish_chat-Ends call t u conv (bumped saved conv) bot saved (reply_or_default bot asked)
        there same in
    subst (λ q. IsTaken s u conv call content (answer_chat call u conv bot prompt q))
      (sym (save-stores s call.user_at call.user_id u m conv found same))
      (taken
        (finish_chat call u conv bot saved (reply_or_default bot asked) (
          save_message t call.bot_at call.bot_id u
            (bot_message_of conv (reply_or_default bot asked))))
        (rw held at ends))
  where
    taken :
        (p : Store × ChatResult)
        → Ends call u conv
            (stamped call.user_at call.user_id (user_message_of conv content))
            (get_or s.messages_by_conv conv.id []
              ++ stamped call.user_at call.user_id (user_message_of conv content) ∷ [])
            p
        → IsTaken s u conv call content p
    taken (t, failed e) bad = bad
    taken (t, done r) (a, bot_says, bot_in, bot_time, bot_named, listed) = (
      ap (λ (m : Message). m.sender_type) a,
      ap (λ (m : Message). m.content) a,
      ap (λ (m : Message). m.conversation_id) a,
      ap (λ (m : Message). m.created_at) a,
      ap (λ (m : Message). m.id) a ∙ unnamed call.user_id,
      bot_says,
      bot_in,
      bot_time,
      bot_named,
      listed
          ∙ ap (λ x. some (get_or s.messages_by_conv conv.id [] ++ x ∷ [] ++ r.bot_message ∷ []))
              (sym a),
    )

-- A message with valid content, in a conversation of the user with a bot of the user, is answered,
-- whatever the language model does: the call succeeds, and the conversation lists the messages from
-- before, then a message of the user with the normalised content, then a message of the bot, both
-- with the identifier of the conversation and with an identifier and a time of their own.
pub process_chat_message-IsTaken :
    (call : Call) (s : Store) (u : String) (req : ChatMessageRequest) (conv : Conversation)
    (bot : Bot) (content : MessageContent) (prompt : String)
    → trim req.conversation_id ≡ conv.id
    → get s.conversations_by_id conv.id ≡ some conv
    → conv.user_id ≡ u
    → get_bot s u conv.bot_id ≡ some bot
    → normalize_message_content req.content ≡ some (content, prompt)
    → IsTaken s u conv call content (process_chat_message call s u req)
unfolding process_chat_message get_conversation
process_chat_message-IsTaken call s u req conv bot content prompt named found same has_bot valid =
    rw (process_chat_message, named, owned s u conv.id conv found same, has_bot, valid)
      (send_chat-IsTaken call s u conv bot content prompt found same)

none_is_not : (c : Conversation) → none ≡ some c → ⊥
none_is_not c e = ground arith

owned_inv :
    (u : String) (o : Option Conversation) (conv : Conversation)
    → owned_conversation u o ≡ some conv
    → (o ≡ some conv) × (conv.user_id ≡ u)
owned_inv u none conv e = ground arith
owned_inv u (some c) conv e = elim (Bool-cases (c.user_id == u)) [
  | inl a ↦
      let same : some c ≡ some conv = rw a at e in
      (same, subst (owner u) same ((eq_iff c.user_id u).0 a))
  | inr a ↦ absurd (none_is_not conv (rw a at e))
]
  where
    owner : String → Option Conversation → Type 0
    owner u none = Unit
    owner u (some x) = x.user_id ≡ u

-- The guards of processChatMessage, as one case each
Refused : Store → Store × ChatResult → Type 0
Refused s (t, failed e) = t ≡ s
Refused s (t, done r) = Unit

process_chat_message-Refused :
    (call : Call) (s : Store) (u : String) (req : ChatMessageRequest)
    → ((id : String) (c : Conversation) → get s.conversations_by_id id ≡ some c → c.id ≡ id)
    → Refused s (process_chat_message call s u req)
unfolding process_chat_message Refused get_conversation
process_chat_message-Refused call s u req filed =
    let id = trim req.conversation_id in
    elim (Option-cases (get_conversation s u id)) [
      | inl e ↦ rw (process_chat_message, e) refl
      | inr (conv, e) ↦ elim (Option-cases (get_bot s u conv.bot_id)) [
        | inl f ↦ rw (process_chat_message, e, f) refl
        | inr (bot, f) ↦ elim (Option-cases (normalize_message_content req.content)) [
          | inl g ↦ rw (process_chat_message, e, f, g) refl
          | inr ((content, prompt), g) ↦
              let (found, same) = owned_inv u (get s.conversations_by_id id) conv e in
              let found' : get s.conversations_by_id conv.id ≡ some conv =
                ap (get s.conversations_by_id) (filed id conv found) ∙ found in
              rw (process_chat_message, e, f, g)
                (IsTaken-Refused content conv (send_chat call s u conv bot (some (content, prompt)))
                  (send_chat-IsTaken call s u conv bot content prompt found' same))
        ]
      ]
    ]
  where
    IsTaken-Refused :
        (content : MessageContent) (conv : Conversation) (p : Store × ChatResult)
        → IsTaken s u conv call content p
        → Refused s p
    IsTaken-Refused content conv (t, failed e) bad = absurd bad
    IsTaken-Refused content conv (t, done r) h = tt

-- A message that is refused leaves the store as it was, where conversations are filed under their
-- identifiers.
pub process_chat_message-failed :
    (call : Call) (s t : Store) (u : String) (req : ChatMessageRequest) (e : ChatError)
    → ((id : String) (c : Conversation) → get s.conversations_by_id id ≡ some c → c.id ≡ id)
    → process_chat_message call s u req ≡ (t, failed e)
    → t ≡ s
unfolding Refused
process_chat_message-failed call s t u req e filed h =
    subst (Refused s) h (process_chat_message-Refused call s u req filed)
