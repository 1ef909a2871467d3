-- ===== src/Scheduler/Triggers.antt =====
-- Which trigger is due: the configuration, the time windows and detectTrigger of
-- internal/api/scheduler.go.
use nukara.Base.{
  ℕ, ◌*◌, String, Bool, true, false, ◌&&◌, ◌||◌, not, Option, none, some, if◌then◌else◌, ltb, leb,
  ◌==◌, ℤ, pos, ltb_int, leb_int, is_nonpos, times, List, [], ◌∷◌, equal_fold, member,
}
use nukara.Store.Types.{Time, is_zero, NotificationSettings, Conversation}
use nukara.Store.Notifications.{default_proactive_interval_minutes}
use nukara.Scheduler.Clock.{time_sub}

-- `time.Minute` and `time.Hour`
abbrev pub minute_ns : ℕ
minute_ns = 60000000000

abbrev pub hour_ns : ℕ
hour_ns = 3600000000000

-- `override` is the duration in NUKARA_PROACTIVE_COOLDOWN, if it is set and time.ParseDuration
-- accepts it.
unfoldable pub get_proactive_cooldown : Option ℤ → NotificationSettings → ℤ
get_proactive_cooldown override settings = elim override [
  | some d ↦ d
  | none ↦
      let minutes = settings.proactive_interval_minutes in
      times (if is_nonpos minutes then pos default_proactive_interval_minutes else minutes)
        minute_ns
]

-- `override` is the duration in NUKARA_INACTIVITY_THRESHOLD.
abbrev pub inactivity_threshold : Option ℤ → ℤ
inactivity_threshold none = pos (8 * minute_ns)
inactivity_threshold (some d) = d

pub record ProactiveConfig : Type 0 where
  pub enabled : Bool
  pub check_interval : String
  pub inactivity_threshold : String
  pub cooldown : String
  pub time_window_start : String
  pub time_window_end : String
  pub enabled_message_types : List String

abbrev pub default_proactive_config : ProactiveConfig
default_proactive_config = record {
  enabled = true;
  check_interval = "5m";
  inactivity_threshold = "30m";
  cooldown = "60m";
  time_window_start = "08:00";
  time_window_end = "22:00";
  enabled_message_types =
      "morning_care" ∷ "evening_care" ∷ "curiosity_after_silence" ∷ "worry_after_long_silence"
      ∷ "random_share" ∷ "share_personal_moment" ∷ "share_interesting_fact" ∷ "share_emotion" ∷ [];
}

-- `row` is the row of the table proactive_config, where a Postgres store has one.
abbrev pub get_proactive_config : Option ProactiveConfig → ProactiveConfig
get_proactive_config none = default_proactive_config
get_proactive_config (some row) = row

unfoldable pub is_message_type_enabled : ProactiveConfig → String → Bool
unfolding member
is_message_type_enabled config msg_type = member msg_type config.enabled_message_types

-- What a trigger is chosen from: the local time, the time since the last message, and which of the
-- draws of rand.Float32 fall below 0.3, 0.25 and 0.2.
pub record Moment : Type 0 where
  pub now : Time
  pub hour : ℕ
  pub minute : ℕ
  pub draws_moment : Bool
  pub draws_fact : Bool
  pub draws_emotion : Bool

-- `a ≤ hour && hour < b`
abbrev pub between : ℕ → ℕ → ℕ → Bool
between a b hour = leb a hour && ltb hour b

-- The loop over `triggerWindows`; "" if no window is open.
unfoldable pub care_trigger : ProactiveConfig → ℕ → String
unfolding is_message_type_enabled
care_trigger config hour =
    if between 7 9 hour && is_message_type_enabled config "morning_care"
    then "morning_care"
    else if between 21 22 hour && is_message_type_enabled config "evening_care"
    then "evening_care"
    else ""

-- The two tests of the time since the last message.
unfoldable pub silence_trigger : ProactiveConfig → ℤ → ℤ → String → String
unfolding is_message_type_enabled equal_fold
silence_trigger config threshold gap emotion_trend =
    let curious = is_message_type_enabled config "curiosity_after_silence" in
    if leb_int (pos (3 * hour_ns)) gap
      && (equal_fold emotion_trend "negative"
          && is_message_type_enabled config "worry_after_long_silence")
    then "worry_after_long_silence"
    else if leb_int (pos (3 * hour_ns)) gap && curious
    then "curiosity_after_silence"
    else if leb_int threshold gap && curious
    then "curiosity_after_silence"
    else ""

unfoldable pub inactivity_trigger :
    ProactiveConfig → ℤ → Moment → List Conversation → String → String
unfolding silence_trigger
inactivity_trigger config threshold at [] emotion_trend = ""
inactivity_trigger config threshold at (conv ∷ convs) emotion_trend =
    if between 9 21 at.hour || ltb_int threshold (pos hour_ns)
    then silence_trigger config threshold (time_sub at.now conv.last_message_at) emotion_trend
    else ""

unfoldable pub share_trigger : ProactiveConfig → Moment → String
unfolding is_message_type_enabled
share_trigger config at =
    if between 10 20 at.hour
      && is_message_type_enabled config "share_personal_moment"
      && at.draws_moment
    then "share_personal_moment"
    else if between 12 18 at.hour
        && is_message_type_enabled config "share_interesting_fact"
        && at.draws_fact
    then "share_interesting_fact"
    else if between 14 21 at.hour
        && is_message_type_enabled config "share_emotion"
        && at.draws_emotion
    then "share_emotion"
    else if between 10 20 at.hour
        && is_message_type_enabled config "random_share"
        && ltb at.minute 5
    then "random_share"
    else ""

-- The first of two triggers that there is.
abbrev pub or_else : String → String → String
or_else trigger other = if trigger == "" then other else trigger

unfoldable pub detect_trigger : ProactiveConfig → ℤ → Moment → List Conversation → String → String
unfolding care_trigger inactivity_trigger share_trigger
detect_trigger config threshold at conversations emotion_trend =
    or_else (care_trigger config at.hour) (
      or_else (inactivity_trigger config threshold at conversations emotion_trend)
        (share_trigger config at))

unfoldable pub is_nudge_trigger : String → Bool
is_nudge_trigger trigger =
    trigger == "curiosity_after_silence" || trigger == "worry_after_long_silence"

unfoldable pub is_share_trigger : String → Bool
unfolding member
is_share_trigger trigger =
    member trigger
      ("random_share" ∷ "share_personal_moment" ∷ "share_interesting_fact" ∷ "share_emotion" ∷ [])

-- `last_user_at` is zero where it is not known.
unfoldable pub should_block_trigger_for_presence : String → Bool → Time → Time → Bool
unfolding is_nudge_trigger is_share_trigger
should_block_trigger_for_presence trigger online last_user_at now =
    if not online
    then false
    else if is_nudge_trigger trigger
    then true
    else is_share_trigger trigger
      && not (is_zero last_user_at)
      && ltb_int (time_sub now last_user_at) (pos (3 * minute_ns))

-- `perTriggerCooldown`, in hours
unfoldable pub per_trigger_cooldown : String → Option ℕ
per_trigger_cooldown trigger =
    if trigger == "morning_care" || trigger == "evening_care"
    then some (20 * hour_ns)
    else if trigger == "curiosity_after_silence" || trigger == "random_share"
    then some (3 * hour_ns)
    else if trigger == "worry_after_long_silence" || trigger == "share_personal_moment"
    then some (8 * hour_ns)
    else if trigger == "share_interesting_fact"
    then some (10 * hour_ns)
    else if trigger == "share_emotion"
    then some (12 * hour_ns)
    else none
