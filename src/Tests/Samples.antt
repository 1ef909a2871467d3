-- ===== src/Tests/Samples.antt =====
-- The stores, messages and bots that the tests share.
use nukara.Base.{false, none, some, ◌≡◌, pos, empty_map, get, put, get-put_self, get-empty}
use nukara.Store.Types.{Conversation, Message, Bot}
use nukara.Store.State.{Store, new_store}
use nukara.Store.Bots.{Fresh, new_conversation, zero_bot}

abbrev pub base : Store
base = new_store 1 2

abbrev pub conv : Conversation
conv = new_conversation 3 "c1" "u" "b1" "Mia" "" ""

abbrev pub chats : Store
chats = record base { conversations_by_id = put empty_map "c1" conv }

pub chats_found : get chats.conversations_by_id "c1" ≡ some conv
chats_found = get-put_self empty_map "c1" conv

abbrev pub hello : Message
hello = record {
  id = "";
  conversation_id = "c1";
  sender_type = "bot";
  content_type = "";
  content = record {
    content_type = "text";
    text = "hello";
    image_base64 = "";
    latitude = none;
    longitude = none;
    name = "";
  };
  is_proactive = false;
  emotion_tag = "";
  reply_group_id = "";
  sequence = pos 0;
  created_at = 0;
}

abbrev pub mia : Bot
mia = record zero_bot { id = "b1"; user_id = "u"; name = "Mia"; persona_version = pos 3 }

abbrev pub bots : Store
bots = record base { bots_by_id = put empty_map "b1" mia }

pub bots_found : get bots.bots_by_id "b1" ≡ some mia
bots_found = get-put_self empty_map "b1" mia

abbrev pub fresh : Fresh
fresh = record { bot_id = "b1"; conv_id = "c1"; created = 4; state_at = 5; conv_at = 6 }

pub no_bots : get base.bots_by_id "b1" ≡ none
unfolding new_store
no_bots = get-empty "b1"

pub no_conversations : get base.conversations_by_id "c1" ≡ none
unfolding new_store
no_conversations = get-empty "c1"
