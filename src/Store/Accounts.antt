-- ===== src/Store/Accounts.antt =====
-- Users, e-mail codes, device tokens, notification settings and metrics of internal/store/store.go.
-- `now` and `later` are clock readings in the order of the calls; `id` is the text that NewID returns.
pub mod Codes
use nukara.Base.{
  ℕ, ◌+◌, ◌*◌, String, Bool, true, false, ◌==◌, ◌&&◌, not, Option, none, some, if◌then◌else◌, ℤ,
  pos, positive_or, trim, Map, get, put, ◌<>◌, inc, List, [], ◌∷◌, values,
}
use nukara.Store.Types.{Time, after, User, EmailCode, DeviceToken, NotificationSettings, Metrics}
use nukara.Store.Notifications.{normalize_notification_settings, default_proactive_interval_minutes}
use nukara.Store.State.{Store, pair_key}
use nukara.Store.Presence.{second}

unfoldable pub increment_requests : Store → Store
increment_requests s = record s {
  metrics = record s.metrics { requests_total = inc s.metrics.requests_total };
}

unfoldable pub snapshot_metrics : Store → Metrics
snapshot_metrics s = s.metrics

unfoldable pub set_ws_connections : Store → ℤ → Store
set_ws_connections s count = record s {
  metrics = record s.metrics { active_ws_connections = count };
}

unfoldable pub save_email_code : Store → Time → String → String → String → ℤ → Store
save_email_code s now email purpose code ttl = record s {
  email_codes = put s.email_codes (pair_key (trim email) (trim purpose)) (record {
    email = trim email;
    purpose = trim purpose;
    code = code;
    created_at = now;
    expires_at = now + positive_or (15 * 60 * second) ttl;
  });
}

unfoldable pub get_latest_email_code : Store → String → String → Option EmailCode
get_latest_email_code s email purpose = get s.email_codes (pair_key (trim email) (trim purpose))

abbrev accepts : Option EmailCode → Time → String → Bool
accepts none now code = false
accepts (some entry) now code = if after now entry.expires_at then false else entry.code == code

unfoldable pub validate_email_code : Store → Time → String → String → String → Bool
validate_email_code s now email purpose code =
    accepts (get s.email_codes (pair_key (trim email) (trim purpose))) now code

unfoldable pub find_user_by_email : Store → String → Option User
find_user_by_email s email = get s.users_by_email (trim email)

unfoldable pub find_user_by_id : Store → String → Option User
find_user_by_id s id = get s.users_by_id id

abbrev pub default_settings : Time → String → NotificationSettings
default_settings now user_id = record {
  user_id = user_id;
  proactive_enabled = true;
  dnd_start = "";
  dnd_end = "";
  proactive_interval_minutes = pos default_proactive_interval_minutes;
  frequency = "";
  updated_at = now;
}

abbrev pub new_user : Time → String → String → String → User
new_user now id email nickname = record {
  id = id;
  email = trim email;
  nickname = trim nickname;
  avatar = "";
  created_at = now;
}

-- `none` is the error "email already registered".
unfoldable pub create_user : Store → Time → Time → String → String → String → Store × Option User
create_user s now later id email nickname =
    let user = new_user now id email nickname in
    elim (get s.users_by_email (trim email)) [
      | some _ ↦ (s, none)
      | none ↦ (
        record s {
          users_by_email = put s.users_by_email (trim email) user;
          users_by_id = put s.users_by_id id user;
          notif_by_user =
              put s.notif_by_user id (normalize_notification_settings (default_settings later id));
        },
        some user,
      )
    ]

unfoldable pub upsert_device_token : Store → Time → String → String → String → Store
upsert_device_token s now user_id token platform = record s {
  device_token_by_user =
      put s.device_token_by_user user_id
        (record { user_id = user_id; token = token; platform = platform; updated_at = now });
}

unfoldable pub get_device_token : Store → String → Option DeviceToken
get_device_token s user_id = get s.device_token_by_user user_id

unfoldable pub update_notification_settings :
    Store → Time → String → NotificationSettings → Store × NotificationSettings
update_notification_settings s now user_id input =
    let settled =
      normalize_notification_settings (record input { user_id = user_id; updated_at = now }) in
    (record s { notif_by_user = put s.notif_by_user user_id settled }, settled)

unfoldable pub get_notification_settings : Store → Time → String → NotificationSettings
get_notification_settings s now user_id = elim (get s.notif_by_user user_id) [
  | none ↦ normalize_notification_settings (default_settings now user_id)
  | some settings ↦ normalize_notification_settings settings
]
