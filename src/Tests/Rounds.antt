-- ===== src/Tests/Rounds.antt =====
-- The theorems on the scheduler at one user with one bot.
use nukara.Base.{
  true, false, none, some, ◌≡◌, refl, arith, ltb, ◌+◌, ◌-◌, ◌*◌, ◌%◌, pos, [], ◌∷◌, empty_map, put,
  get, sort_by, trim,
}
use nukara.Store.Types.{Message, NotificationSettings}
use nukara.Store.Persona.{sync_legacy_persona_fields}
use nukara.Store.State.{Store, new_store}
use nukara.Store.Accounts.{get_notification_settings}
use nukara.Store.Notifications.{normalize_notification_settings}
use nukara.Store.Bots.{get_bot}
use nukara.Store.Chats.{list_conversations, list_messages}
use nukara.Store.Activity.{list_proactive_logs}
use nukara.Store.Presence.{is_user_ws_online, get_last_user_message_at}
use nukara.Scheduler.Triggers.{
  detect_trigger, get_proactive_cooldown, should_block_trigger_for_presence, per_trigger_cooldown,
}
use nukara.Scheduler.Clock.{parse_hhmm, is_dnd, is_dnd_lem}
use nukara.Scheduler.Process.{Round, unanswered, ProactiveRequest, Due, due}
use nukara.Scheduler.Send.{tick}
use nukara.Scheduler.Allowed.{IsAllowed, due-IsAllowed}
use nukara.Scheduler.Spacing.{IsSpaced, tick-IsSpaced}
use nukara.Tests.Samples.{base, conv, mia, hello}

abbrev night : NotificationSettings
night = record {
  user_id = "u";
  proactive_enabled = true;
  dnd_start = "23:00";
  dnd_end = "07:00";
  proactive_interval_minutes = pos 60;
  frequency = "60";
  updated_at = 0;
}

is_dnd_lem_example :
    is_dnd night 6 30 ≡ ltb ((6 * 60 + 30 + 1440 - 1380) % 1440) ((420 + 1440 - 1380) % 1440)
unfolding parse_hhmm trim
is_dnd_lem_example =
    is_dnd_lem night 1380 420 6 30 refl refl (omega arith) (omega arith) (omega arith) (omega arith)

-- Eight o'clock, where the bot lives.
abbrev round : Round
round = record {
  cooldown_override = some (pos 1000);
  threshold_override = none;
  config_row = none;
  local_clock = λ zone now. (8, 0);
  draws_moment = false;
  draws_fact = false;
  draws_emotion = false;
  online_at = 5000;
  seen_at = 5001;
  asked_at = 5002;
  saved_at = 5003;
  shown_at = 5004;
  logged_at = 5005;
  message_id = "m1";
  log_id = "l1";
  runtime = λ (request : ProactiveRequest). some ("早安", "gentle");
  publish = λ (m : Message). 1;
  push = λ token name text conversation. false;
  hash = λ text. 7;
}

abbrev ready : Store
ready = record base {
  bots_by_id = put empty_map "b1" mia;
  conversations_by_id = put empty_map "c1" conv;
  conversations_by_user = put empty_map "u" ("c1" ∷ []);
  notif_by_user = put empty_map "u" night;
}

abbrev morning : Due
morning = record {
  bot = sync_legacy_persona_fields mia;
  conversation = conv;
  trigger = "morning_care";
}

due-IsAllowed_example : IsAllowed round ready 4999 "u" morning
unfolding due trim get put empty_map new_store get_notification_settings
    normalize_notification_settings list_conversations sort_by get_bot is_dnd list_proactive_logs
    list_messages get_last_user_message_at is_user_ws_online detect_trigger
    should_block_trigger_for_presence per_trigger_cooldown
due-IsAllowed_example = due-IsAllowed round ready 4999 "u" ready morning refl

tick-IsSpaced_example : IsSpaced (pos 1000) (tick (λ u. round) ready 4999).proactive_logs
unfolding IsSpaced new_store get_proactive_cooldown
tick-IsSpaced_example =
    tick-IsSpaced (λ u. round) (pos 1000) 4999 (λ u settings. refl) (λ u. omega arith) ready tt

-- The back-off counts from the oldest message on: two messages that were not answered behind an older
-- message of the user count as none.
test_unanswered :
    unanswered (
      record hello { sender_type = "user" }
      ∷ record hello { is_proactive = true }
      ∷ record hello { is_proactive = true }
      ∷ [])
    ≡ 0
unfolding unanswered
test_unanswered = refl
