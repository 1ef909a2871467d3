-- ===== src/Tests/Flows.antt =====
-- The theorems on chat messages and the emotion buffer at one conversation.
use nukara.Base.{
  String, ◌==◌, Option, none, some, ◌≡◌, refl, subst, arith, List, [], ◌∷◌, ◌++◌, keep, length, All,
  ◌<◌, empty_map, get, put, get-put, get-put_self, get-empty, Bool-cases, inl, inr, eq_iff, trim,
}
use nukara.Store.Types.{Conversation, Directive, Bot}
use nukara.Store.Persona.{sync_legacy_persona_fields}
use nukara.Store.State.{Store, new_store}
use nukara.Store.Bots.{get_bot}
use nukara.Store.Chats.{get_conversation}
use nukara.Store.Activity.{get_emotion_buffer}
use nukara.Chat.Content.{bare, normalize_message_content}
use nukara.Chat.Flow.{Call, ChatMessageRequest, process_chat_message, invalid_content}
use nukara.Chat.Turn.{IsTaken, process_chat_message-IsTaken, process_chat_message-failed}
use nukara.Chat.Emotion.{buffer_all, buffer_all-keeps, concat, says, emotion_buffer_threshold}
use nukara.Tests.Samples.{base, conv, mia}

abbrev ready : Store
ready = record base {
  bots_by_id = put empty_map "b1" mia;
  conversations_by_id = put empty_map "c1" conv;
}

abbrev call : Call
call = record {
  user_at = 10;
  user_id = "m1";
  bot_at = 12;
  bot_id = "m2";
  shown_at = 13;
  runtime = λ (b : Bot) (c : Conversation) (ds : List Directive) status prompt.
      some (record { text = "hi you"; emotion = "happy"; status_emoji = "x"; status_text = "ok" });
}

abbrev hi : ChatMessageRequest
hi = record {
  conversation_id = " c1";
  client_message_id = "";
  content = record (bare "") { text = " hi " };
}

abbrev blank : ChatMessageRequest
blank = record hi { content = bare "text" }

process_chat_message-IsTaken_example :
    IsTaken ready "u" conv call
      (record (bare "text") { text = "hi" })
      (process_chat_message call ready "u" hi)
unfolding trim get_bot normalize_message_content get put empty_map
process_chat_message-IsTaken_example =
    process_chat_message-IsTaken call ready "u" hi conv (sync_legacy_persona_fields mia)
      (record (bare "text") { text = "hi" }) "hi" refl (get-put_self empty_map "c1" conv) refl refl
      refl

none_is_not : (c : Conversation) → none ≡ some c → ⊥
none_is_not c e = ground arith

ready-filed :
    (id : String) (c : Conversation) → get ready.conversations_by_id id ≡ some c → c.id ≡ id
ready-filed id c e = elim (Bool-cases ("c1" == id)) [
  | inl same ↦
      subst (owner id) (rw (get-put empty_map "c1" id conv, same) at e) ((eq_iff "c1" id).0 same)
  | inr other ↦
      absurd (none_is_not c (rw (get-put empty_map "c1" id conv, other, get-empty id) at e))
]
  where
    owner : String → Option Conversation → Type 0
    owner id none = Unit
    owner id (some x) = x.id ≡ id

process_chat_message-failed_example : ready ≡ ready
unfolding process_chat_message trim get_bot get_conversation normalize_message_content get put
    empty_map
process_chat_message-failed_example =
    process_chat_message-failed call ready ready "u" blank invalid_content ready-filed refl

abbrev texts : List String
texts = "a" ∷ " " ∷ "b" ∷ "c" ∷ "d" ∷ "e" ∷ "f" ∷ []

buffer_all-keeps_example :
    let (t, batches) = buffer_all base "u" "b1" texts in
    (length (get_emotion_buffer t "u" "b1") < emotion_buffer_threshold)
    × All (λ batch. length batch ≡ emotion_buffer_threshold) batches
    × (concat batches ++ get_emotion_buffer t "u" "b1"
        ≡ get_emotion_buffer base "u" "b1" ++ keep says texts)
unfolding get_emotion_buffer new_store get
buffer_all-keeps_example = buffer_all-keeps "u" "b1" base texts (omega arith)
