-- ===== src/Scheduler/Send.antt =====
-- lastUserText, sendProactiveMessage and the rounds of internal/api/scheduler.go.
use nukara.Base.{
  ltb, String, Bool, true, false, ◌==◌, Option, none, some, if◌then◌else◌, ℤ, pos, List, [], ◌∷◌,
  trim, is_blank, ◌<>◌,
}
use nukara.Store.Types.{Time, is_zero, Bot, Conversation, Message, ProactiveLog}
use nukara.Store.State.{Store}
use nukara.Store.Accounts.{get_device_token}
use nukara.Store.Chats.{list_messages, save_message}
use nukara.Store.Activity.{
  add_proactive_log, get_emotion_context, save_bot_status, list_all_user_ids,
}
use nukara.Store.Presence.{get_last_user_message_at}
use nukara.Chat.Status.{select_bot_status}
use nukara.Scheduler.Process.{Round, ProactiveRequest, Due, due}

-- The text that stands for a message of the user; "" if there is none.
abbrev user_text : Message → String
user_text m =
    let text = trim m.content.text in
    if text == ""
    then (if m.content.content_type == "image"
        then "[图片]"
        else if m.content.content_type == "location"
        then (if is_blank m.content.name then "📍位置" else "📍" <> trim m.content.name)
        else "")
    else text

abbrev newest_text : List Message → Option String
newest_text [] = none
newest_text (m ∷ ms) = elim (newest_text ms) [
  | some text ↦ some text
  | none ↦
      if m.sender_type == "user"
      then (if user_text m == "" then none else some (user_text m))
      else none
]

unfoldable pub last_user_text : Store → String → String → ℤ → Option String
last_user_text s user_id conversation_id limit =
    elim (list_messages s user_id conversation_id limit) [
      | none ↦ none
      | some messages ↦ newest_text messages
    ]

abbrev non_zero : Option Time → Option Time
non_zero none = none
non_zero (some t) = if is_zero t then none else some t

unfoldable pub request_of :
    Store → String → Bot → Conversation → String → Option Time → ProactiveRequest
unfolding last_user_text
request_of s user_id bot conv trigger last = record {
  user_id = user_id;
  bot = bot;
  conversation_id = conv.id;
  trigger_type = trigger;
  emotion = elim (get_emotion_context s user_id bot.id) [
    | none ↦ none
    | some ctx ↦ some (ctx.emotion_trend, ctx.last_tone)
  ];
  last_user_message_at = non_zero last;
  last_user_message = last_user_text s user_id conv.id (pos 30);
}

-- The text and its emotion, with the text for an error of the language model.
abbrev pub said : Bot → Option (String × String) → String × String
said bot none = (bot.name <> "：刚想到你了，最近怎么样？", "gentle")
said bot (some reply) = reply

abbrev pub proactive_message : Conversation → String → String → Message
proactive_message conv text emotion = record {
  id = "";
  conversation_id = conv.id;
  sender_type = "bot";
  content_type = "text";
  content = record {
    content_type = "text";
    text = text;
    image_base64 = "";
    latitude = none;
    longitude = none;
    name = "";
  };
  is_proactive = true;
  emotion_tag = emotion;
  reply_group_id = "";
  sequence = pos 0;
  created_at = 0;
}

-- Whether the push service took the message, where the hub reached no session.
unfoldable pub sent_apns : Round → Store → String → Bot → Conversation → String → Bool → Bool
sent_apns r s user_id bot conv text by_ws =
    if by_ws then false else elim (get_device_token s user_id) [
      | none ↦ false
      | some device ↦ r.push device.token bot.name text conv.id
    ]

abbrev pub log_of : String → Bot → Conversation → String → String → Bool → Bool → ProactiveLog
log_of user_id bot conv trigger text by_ws by_apns = record {
  id = "";
  user_id = user_id;
  conversation_id = conv.id;
  bot_id = bot.id;
  trigger_type = trigger;
  message = text;
  sent_by_ws = by_ws;
  sent_by_apns = by_apns;
  created_at = 0;
}

-- sendProactiveMessage behind SaveMessage
unfoldable pub send_saved :
    Round → Store × Option Message → String → Bot → Conversation → String → String → String → Store
unfolding sent_apns
send_saved r (s, none) user_id bot conv trigger text emotion = s
send_saved r (s, some stored) user_id bot conv trigger text emotion =
    let status = select_bot_status r.hash emotion conv.id in
    let t = save_bot_status s r.shown_at user_id bot.id status.emoji status.text in
    let by_ws = ltb 0 (r.publish stored) in
    let by_apns = sent_apns r t user_id bot conv text by_ws in
    (add_proactive_log t r.logged_at r.log_id
      (log_of user_id bot conv trigger text by_ws by_apns)).0

unfoldable pub send_text :
    Round → Store → String → Bot → Conversation → String → String × String → Store
unfolding send_saved
send_text r s user_id bot conv trigger (text, emotion) =
    if is_blank text
    then s
    else send_saved r
        (save_message s r.saved_at r.message_id user_id (proactive_message conv text emotion))
        user_id bot conv trigger text emotion

unfoldable pub send_proactive_message : Round → Store → String → Bot → Conversation → String → Store
unfolding send_text request_of
send_proactive_message r s user_id bot conv trigger =
    let (s1, last) = get_last_user_message_at s r.asked_at user_id in
    let reply = r.runtime (request_of s1 user_id bot conv trigger last) in
    send_text r s1 user_id bot conv trigger (said bot reply)

unfoldable pub send_due : Round → String → Store × Option Due → Store
unfolding send_proactive_message
send_due r user_id (s, none) = s
send_due r user_id (s, some d) = send_proactive_message r s user_id d.bot d.conversation d.trigger

unfoldable pub process_user : Round → Store → Time → String → Store
unfolding send_due
process_user r s now user_id = send_due r user_id (due r s now user_id)

-- The loop of `tick` over the users
unfoldable pub process_users : (String → Round) → Store → Time → List String → Store
unfolding process_user
process_users rounds s now [] = s
process_users rounds s now (user_id ∷ user_ids) =
    process_users rounds (process_user (rounds user_id) s now user_id) now user_ids

unfoldable pub tick : (String → Round) → Store → Time → Store
unfolding process_users
tick rounds s now = process_users rounds s now (list_all_user_ids s)
