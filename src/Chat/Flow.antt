-- ===== src/Chat/Flow.antt =====
-- processChatMessage of internal/api/chat_flow.go over the store, with the work that it leaves to a
-- goroutine. The language model, the agent and ValidateDirective are arguments.
use nukara.Base.{
  String, Bool, false, not, ◌==◌, ◌||◌, ◌&&◌, Option, none, some, if◌then◌else◌, ltb, ℤ, pos, List,
  [], ◌∷◌, map, length, trim, ◌<>◌,
}
use nukara.Store.Types.{Time, Bot, Conversation, Message, MessageContent, Directive, UserStatus}
use nukara.Store.State.{Store}
use nukara.Store.Bots.{get_bot}
use nukara.Store.Chats.{get_conversation, save_message}
use nukara.Store.Presence.{set_last_user_message_at}
use nukara.Store.Activity.{
  save_bot_status, get_user_status, list_directives, save_directive, revoke_directive,
  increment_turn_count,
}
use nukara.Chat.Status.{emotion_default_emoji}
use nukara.Chat.Content.{bare, normalize_message_content}

pub data ChatError : Type 0 where
  invalid_content : ChatError
  conversation_not_found : ChatError
  bot_not_found : ChatError

pub record ChatMessageRequest : Type 0 where
  pub conversation_id : String
  pub client_message_id : String
  pub content : MessageContent

pub record ChatMessageResult : Type 0 where
  pub conversation : Conversation
  pub bot : Bot
  pub user_message : Message
  pub bot_message : Message
  pub status_emoji : String
  pub status_text : String

pub data ChatResult : Type 0 where
  failed : ChatError → ChatResult
  done : ChatMessageResult → ChatResult

pub record Reply : Type 0 where
  pub text : String
  pub emotion : String
  pub status_emoji : String
  pub status_text : String

-- The readings of the clock, the new identifiers, and what the language model answers to a prompt for
-- a bot with its active directives and the status of the user (`none` for an error).
pub record Call : Type 0 where
  pub user_at : Time
  pub user_id : String
  pub bot_at : Time
  pub bot_id : String
  pub shown_at : Time
  pub runtime : Bot → Conversation → List Directive → String → String → Option Reply

abbrev pub user_message_of : Conversation → MessageContent → Message
user_message_of conv content = record {
  id = "";
  conversation_id = conv.id;
  sender_type = "user";
  content_type = content.content_type;
  content = content;
  is_proactive = false;
  emotion_tag = "";
  reply_group_id = "";
  sequence = pos 0;
  created_at = 0;
}

abbrev pub bot_message_of : Conversation → Reply → Message
bot_message_of conv reply = record {
  id = "";
  conversation_id = conv.id;
  sender_type = "bot";
  content_type = "text";
  content = record (bare "text") { text = reply.text };
  is_proactive = false;
  emotion_tag = reply.emotion;
  reply_group_id = "";
  sequence = pos 0;
  created_at = 0;
}

-- The reply, with the one for an error of the language model.
unfoldable pub reply_or_default : Bot → Option Reply → Reply
unfolding emotion_default_emoji
reply_or_default bot none = record {
  text = bot.name <> "：我记住了你说的。要不要继续聊聊？";
  emotion = "gentle";
  status_emoji = emotion_default_emoji "gentle";
  status_text = "聊天中";
}
reply_or_default bot (some reply) = reply

abbrev pub status_string : Option UserStatus → String
status_string none = ""
status_string (some st) =
    if st.emoji == "" && st.text == "" then "" else st.emoji <> (" " <> st.text)

-- Behind the bot's SaveMessage
unfoldable pub finish_chat :
    Call
    → String
    → Conversation
    → Bot
    → Message
    → Reply
    → Store × Option Message
    → Store × ChatResult
unfolding save_bot_status
finish_chat call user_id conv bot user_message reply (s, none) = (s, failed conversation_not_found)
finish_chat call user_id conv bot user_message reply (s, some bot_message) = (
  save_bot_status s call.shown_at user_id bot.id reply.status_emoji reply.status_text,
  done (record {
    conversation = conv;
    bot = bot;
    user_message = user_message;
    bot_message = bot_message;
    status_emoji = reply.status_emoji;
    status_text = reply.status_text;
  }),
)

-- Behind the user's SaveMessage
unfoldable pub answer_chat :
    Call → String → Conversation → Bot → String → Store × Option Message → Store × ChatResult
unfolding finish_chat reply_or_default
answer_chat call user_id conv bot prompt (s, none) = (s, failed conversation_not_found)
answer_chat call user_id conv bot prompt (s, some user_message) =
    let t = set_last_user_message_at s user_id user_message.created_at in
    let directives = list_directives t user_id bot.id "active" in
    let status = status_string (get_user_status t user_id) in
    let reply = reply_or_default bot (call.runtime bot conv directives status prompt) in
    finish_chat call user_id conv bot user_message reply
      (save_message t call.bot_at call.bot_id user_id (bot_message_of conv reply))

unfoldable pub send_chat :
    Call
    → Store
    → String
    → Conversation
    → Bot
    → Option (MessageContent × String)
    → Store × ChatResult
unfolding answer_chat
send_chat call s user_id conv bot none = (s, failed invalid_content)
send_chat call s user_id conv bot (some (content, prompt)) =
    answer_chat call user_id conv bot prompt
      (save_message s call.user_at call.user_id user_id (user_message_of conv content))

unfoldable pub process_chat_message :
    Call → Store → String → ChatMessageRequest → Store × ChatResult
unfolding send_chat
process_chat_message call s user_id req =
    elim (get_conversation s user_id (trim req.conversation_id)) [
      | none ↦ (s, failed conversation_not_found)
      | some conv ↦ elim (get_bot s user_id conv.bot_id) [
        | none ↦ (s, failed bot_not_found)
        | some bot ↦ send_chat call s user_id conv bot (normalize_message_content req.content)
      ]
    ]

-- What the agent extracted from a turn.
pub record Extracted : Type 0 where
  pub action : String
  pub content : String
  pub category : String
  pub saved_at : Time
  pub id : String

abbrev directive_of : String → String → String → Extracted → Directive
directive_of user_id bot_id prompt e = record {
  id = "";
  user_id = user_id;
  bot_id = bot_id;
  content = e.content;
  category = e.category;
  source = "conversation";
  status = "active";
  original_message = prompt;
  created_at = 0;
  updated_at = 0;
}

-- The loop over `existing` for REVOKE
unfoldable pub revoke_all : Store → Time → String → String → String → List Directive → Store
unfolding revoke_directive
revoke_all s now user_id bot_id content [] = s
revoke_all s now user_id bot_id content (d ∷ ds) =
    let revoked = (revoke_directive s now user_id bot_id d.id).0 in
    let s' = if d.content == content then revoked else s in
    revoke_all s' now user_id bot_id content ds

-- One round of the loop over the extracted directives
unfoldable pub apply_extracted :
    (String → Bool) → Store → String → String → String → List Directive → Extracted → Store
unfolding revoke_all save_directive
apply_extracted is_valid s user_id bot_id prompt existing e =
    let saved = (save_directive s e.saved_at e.id (directive_of user_id bot_id prompt e)).0 in
    if not (is_valid e.content)
    then s
    else if e.action == "ADD" || e.action == "UPDATE"
    then (if ltb (length existing) 20 then saved else s)
    else if e.action == "REVOKE"
    then revoke_all s e.saved_at user_id bot_id e.content existing
    else s

unfoldable pub apply_all_extracted :
    (String → Bool) → Store → String → String → String → List Directive → List Extracted → Store
unfolding apply_extracted
apply_all_extracted is_valid s user_id bot_id prompt existing [] = s
apply_all_extracted is_valid s user_id bot_id prompt existing (e ∷ es) =
    apply_all_extracted is_valid (apply_extracted is_valid s user_id bot_id prompt existing e)
      user_id bot_id prompt existing es

-- The goroutine, where there is an agent: the store and the new number of turns. `extract` is
-- ExtractMemory, given the contents of the directives.
unfoldable pub remember_turn :
    (List String → List Extracted)
    → (String → Bool)
    → Store
    → Time
    → String
    → String
    → String
    → Store × ℤ
unfolding apply_all_extracted
remember_turn extract is_valid s now user_id bot_id prompt =
    let existing = list_directives s user_id bot_id "active" in
    let extracted = extract (map (λ (d : Directive). d.content) existing) in
    increment_turn_count (apply_all_extracted is_valid s user_id bot_id prompt existing extracted)
      now user_id bot_id
