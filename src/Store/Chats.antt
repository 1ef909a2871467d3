-- ===== src/Store/Chats.antt =====
-- Conversations and messages of internal/store/store.go. `id` is the text that NewID would return.
pub mod Messages
pub mod Others
pub mod Unread
pub mod Ensure
use nukara.Base.{
  ℕ, zero, suc, ◌-◌, String, Bool, true, false, ◌==◌, Option, none, some, if◌then◌else◌, leb, ℤ,
  pos, negsuc, inc, is_blank, Map, get, put, get_or, List, [], ◌∷◌, ◌++◌, map, sort_by, length,
  drop, ◌<>◌,
}
use nukara.Store.Types.{Time, after, Conversation, Message}
use nukara.Store.State.{Store}
use nukara.Store.Bots.{new_conversation}

-- `Conversation{}`
abbrev pub zero_conversation : Conversation
zero_conversation = new_conversation 0 "" "" "" "" "" ""

abbrev pub conversation_at : Store → String → Conversation
conversation_at s id = get_or s.conversations_by_id id zero_conversation

unfoldable pub list_conversations : Store → String → List Conversation
list_conversations s user_id =
    sort_by (λ a b. after a.last_message_at b.last_message_at)
      (map (conversation_at s) (get_or s.conversations_by_user user_id []))

-- The loop of FindConversationByBot and EnsureConversation.
unfoldable pub first_by_bot : Store → String → List String → Option Conversation
first_by_bot s bot_id [] = none
first_by_bot s bot_id (id ∷ ids) =
    let conv = conversation_at s id in
    let rest = first_by_bot s bot_id ids in if conv.bot_id == bot_id then some conv else rest

unfoldable pub find_conversation_by_bot : Store → String → String → Option Conversation
unfolding first_by_bot
find_conversation_by_bot s user_id bot_id =
    first_by_bot s bot_id (get_or s.conversations_by_user user_id [])

unfoldable pub add_conversation : Store → String → Conversation → Store
add_conversation s user_id conv = record s {
  conversations_by_id = put s.conversations_by_id conv.id conv;
  conversations_by_user =
      put s.conversations_by_user user_id
        (get_or s.conversations_by_user user_id [] ++ conv.id ∷ []);
}

unfoldable pub ensure_conversation :
    Store → Time → String → String → String → String → String → String → Store × Conversation
unfolding add_conversation first_by_bot
ensure_conversation s now id user_id bot_id bot_name bot_avatar bot_avatar_base64 =
    let conv = new_conversation now id user_id bot_id bot_name bot_avatar bot_avatar_base64 in
    elim (first_by_bot s bot_id (get_or s.conversations_by_user user_id [])) [
      | some found ↦ (s, found)
      | none ↦ (add_conversation s user_id conv, conv)
    ]

-- `conv, ok := s.conversationsByID[id]; if !ok || conv.UserID != userID { … }`
abbrev pub owned_conversation : String → Option Conversation → Option Conversation
owned_conversation user_id none = none
owned_conversation user_id (some conv) = if conv.user_id == user_id then some conv else none

unfoldable pub get_conversation : Store → String → String → Option Conversation
get_conversation s user_id conversation_id =
    owned_conversation user_id (get s.conversations_by_id conversation_id)

-- `if limit <= 0 || len(messages) <= limit { all } else { messages[len(messages)-limit:] }`
unfoldable pub last_messages : ℤ → List Message → List Message
last_messages (pos zero) messages = messages
last_messages (pos (suc n)) messages =
    if leb (length messages) (suc n) then messages else drop (length messages - suc n) messages
last_messages (negsuc n) messages = messages

unfoldable pub list_messages : Store → String → String → ℤ → Option (List Message)
unfolding last_messages
list_messages s user_id conversation_id limit =
    elim (owned_conversation user_id (get s.conversations_by_id conversation_id)) [
      | none ↦ none
      | some conv ↦ some (last_messages limit (get_or s.messages_by_conv conversation_id []))
    ]

unfoldable pub mark_conversation_read : Store → String → String → Store × Bool
mark_conversation_read s user_id conversation_id =
    elim (owned_conversation user_id (get s.conversations_by_id conversation_id)) [
      | none ↦ (s, false)
      | some conv ↦ (
        record s {
          conversations_by_id =
              put s.conversations_by_id conversation_id (record conv { unread_count = pos 0 });
        },
        true,
      )
    ]

unfoldable pub preview_text : Message → String
preview_text msg =
    if msg.content.content_type == "image"
    then "[图片]"
    else if msg.content.content_type == "location"
    then (if msg.content.name == "" then "📍位置" else "📍" <> msg.content.name)
    else msg.content.text

-- The message as it is stored.
unfoldable pub stamped : Time → String → Message → Message
stamped now id message = record message {
  id = if is_blank message.id then id else message.id;
  created_at = now;
  content_type =
      if message.content_type == "" then message.content.content_type else message.content_type;
}

-- The conversation after the stored message.
unfoldable pub bumped : Message → Conversation → Conversation
bumped message conv = record conv {
  last_message = preview_text message;
  last_message_at = message.created_at;
  is_proactive_message = message.is_proactive;
  unread_count = if message.sender_type == "bot" then inc conv.unread_count else conv.unread_count;
}

unfoldable pub save_message : Store → Time → String → String → Message → Store × Option Message
unfolding stamped bumped
save_message s now id user_id message =
    let saved = stamped now id message in
    let conv_id = message.conversation_id in
    elim (owned_conversation user_id (get s.conversations_by_id conv_id)) [
      | none ↦ (s, none)
      | some conv ↦ (
        record s {
          messages_by_conv =
              put s.messages_by_conv conv_id (get_or s.messages_by_conv conv_id [] ++ saved ∷ []);
          conversations_by_id = put s.conversations_by_id conv_id (bumped saved conv);
        },
        some saved,
      )
    ]
