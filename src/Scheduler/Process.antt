-- ===== src/Scheduler/Process.antt =====
-- processUser, lastUserText and sendProactiveMessage of internal/api/scheduler.go over the store.
-- The clock, the language model, the hub, the push service and the hash are arguments.
use nukara.Base.{
  ℕ, suc, ◌-◌, ◌^◌, String, Bool, false, ◌&&◌, not, ◌==◌, Option, none, some, if◌then◌else◌, leb, ℤ,
  pos, ltb_int, times, List, [], ◌∷◌, any, trim,
}
use nukara.Store.Types.{Time, Bot, Conversation, Message, ProactiveLog, NotificationSettings}
use nukara.Store.State.{Store}
use nukara.Store.Accounts.{get_notification_settings}
use nukara.Store.Bots.{get_bot}
use nukara.Store.Chats.{list_conversations, list_messages}
use nukara.Store.Activity.{list_proactive_logs, get_emotion_context}
use nukara.Store.Presence.{is_user_ws_online, get_last_user_message_at}
use nukara.Scheduler.Clock.{time_sub, is_dnd}
use nukara.Scheduler.Locale.{infer_locale_rule}
use nukara.Scheduler.Triggers.{
  ProactiveConfig, Moment, get_proactive_cooldown, inactivity_threshold, get_proactive_config,
  detect_trigger, should_block_trigger_for_presence, per_trigger_cooldown,
}

-- What the text of a proactive message is asked for.
pub record ProactiveRequest : Type 0 where
  pub user_id : String
  pub bot : Bot
  pub conversation_id : String
  pub trigger_type : String
  pub emotion : Option (String × String)
  pub last_user_message_at : Option Time
  pub last_user_message : Option String

-- The surroundings of one round: the environment variables and the configuration row, the clock of a
-- time zone, the draws, the further readings of the clock and the new identifiers, and the outcomes of
-- the language model (text and emotion; `none` for an error), the hub and the push service.
pub record Round : Type 0 where
  pub cooldown_override : Option ℤ
  pub threshold_override : Option ℤ
  pub config_row : Option ProactiveConfig
  pub local_clock : String → Time → ℕ × ℕ
  pub draws_moment : Bool
  pub draws_fact : Bool
  pub draws_emotion : Bool
  pub online_at : Time
  pub seen_at : Time
  pub asked_at : Time
  pub saved_at : Time
  pub shown_at : Time
  pub logged_at : Time
  pub message_id : String
  pub log_id : String
  pub runtime : ProactiveRequest → Option (String × String)
  pub publish : Message → ℕ
  pub push : String → String → String → String → Bool
  pub hash : String → ℕ

-- `len(recentLogs) > 0 && now.Sub(recentLogs[0].CreatedAt) < d`
unfoldable pub within : ℤ → Time → List ProactiveLog → Bool
within d now [] = false
within d now (entry ∷ entries) = ltb_int (time_sub now entry.created_at) d

-- The loop over `msgs`, up to the first message of the user
unfoldable pub unanswered : List Message → ℕ
unanswered [] = 0
unanswered (m ∷ ms) =
    let rest = unanswered ms in
    if m.sender_type == "user" then 0 else if m.is_proactive then suc rest else rest

abbrev pub messages_or_none : Option (List Message) → List Message
messages_or_none none = []
messages_or_none (some messages) = messages

-- The back-off: from two unanswered messages on, the cool-down doubles with each.
unfoldable pub backs_off : ℤ → Time → List ProactiveLog → List Message → Bool
unfolding within unanswered
backs_off cooldown now logs messages =
    let n = unanswered messages in leb 2 n && within (times cooldown (2 ^ (n - 1))) now logs

-- The same trigger within its own cool-down
unfoldable pub fired_recently : String → Time → List ProactiveLog → Bool
fired_recently trigger now logs = elim (per_trigger_cooldown trigger) [
  | none ↦ false
  | some d ↦
      any
        (λ (l : ProactiveLog).
          l.trigger_type == trigger && ltb_int (time_sub now l.created_at) (pos d))
        logs
]

abbrev pub moment_of : Round → Time → ℕ × ℕ → Moment
moment_of r now (hour, minute) = record {
  now = now;
  hour = hour;
  minute = minute;
  draws_moment = r.draws_moment;
  draws_fact = r.draws_fact;
  draws_emotion = r.draws_emotion;
}

abbrev pub local_time : Round → Time → Bot → ℕ × ℕ
local_time r now bot = r.local_clock (infer_locale_rule bot.life_context).timezone now

abbrev pub time_or_zero : Option Time → Time
time_or_zero none = 0
time_or_zero (some t) = t

abbrev pub trend_of : Store → String → String → String
trend_of s user_id bot_id = elim (get_emotion_context s user_id bot_id) [
  | none ↦ ""
  | some ctx ↦ trim ctx.emotion_trend
]

-- The rest of processUser behind the reads of the presence.
unfoldable pub choose_trigger :
    Round
    → Store
    → Time
    → String
    → Bot
    → Conversation
    → List Conversation
    → Bool
    → Time
    → Option String
unfolding fired_recently
choose_trigger r s now user_id bot conv convs online last_user_at =
    let trigger =
      detect_trigger (get_proactive_config r.config_row) (inactivity_threshold r.threshold_override)
        (moment_of r now (local_time r now bot)) (conv ∷ convs) (trend_of s user_id conv.bot_id) in
    if trigger == ""
    then none
    else if should_block_trigger_for_presence trigger online last_user_at now
    then none
    else if fired_recently trigger now (list_proactive_logs s user_id (pos 10))
    then none
    else some trigger

-- A message that is due: to whom and why.
pub record Due : Type 0 where
  pub bot : Bot
  pub conversation : Conversation
  pub trigger : String

abbrev pub due_with : Bot → Conversation → Option String → Option Due
due_with bot conv none = none
due_with bot conv (some trigger) =
    some (record { bot = bot; conversation = conv; trigger = trigger })

-- processUser from the reads of the presence on
unfoldable pub due_now :
    Round → Store → Time → String → ℤ → Bot → Conversation → List Conversation → Store × Option Due
unfolding backs_off choose_trigger
due_now r s now user_id cooldown bot conv convs =
    let (s1, online) = is_user_ws_online s r.online_at user_id in
    let (s2, last) = get_last_user_message_at s1 r.seen_at user_id in
    let messages = messages_or_none (list_messages s2 user_id conv.id (pos 10)) in
    if backs_off cooldown now (list_proactive_logs s user_id (pos 1)) messages
    then (s2, none)
    else (
      s2,
      due_with bot conv (choose_trigger r s2 now user_id bot conv convs online (time_or_zero last)),
    )

-- processUser from the bot on
unfoldable pub due_bot :
    Round
    → Store
    → Time
    → String
    → NotificationSettings
    → Bot
    → Conversation
    → List Conversation
    → Store × Option Due
unfolding due_now within
due_bot r s now user_id settings bot conv convs =
    let (hour, minute) = local_time r now bot in
    let cooldown = get_proactive_cooldown r.cooldown_override settings in
    if is_dnd settings hour minute
    then (s, none)
    else if within cooldown now (list_proactive_logs s user_id (pos 1))
    then (s, none)
    else due_now r s now user_id cooldown bot conv convs

-- processUser from the conversations on
unfoldable pub due_in :
    Round → Store → Time → String → NotificationSettings → List Conversation → Store × Option Due
unfolding due_bot
due_in r s now user_id settings [] = (s, none)
due_in r s now user_id settings (conv ∷ convs) = elim (get_bot s user_id conv.bot_id) [
  | none ↦ (s, none)
  | some bot ↦ due_bot r s now user_id settings bot conv convs
]

-- processUser up to the call of sendProactiveMessage: the store, and what is due.
unfoldable pub due : Round → Store → Time → String → Store × Option Due
unfolding due_in
due r s now user_id =
    let settings = get_notification_settings s now user_id in
    if not settings.proactive_enabled
    then (s, none)
    else due_in r s now user_id settings (list_conversations s user_id)
