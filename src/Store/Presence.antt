-- ===== src/Store/Presence.antt =====
-- Presence of users: TouchWSPresence, IsUserWSOnline, SetLastUserMessageAt and GetLastUserMessageAt
-- of internal/store/store.go. `now` is the clock reading of the call.
pub mod Laws
use nukara.Base.{
  ℕ, ◌+◌, ◌*◌, String, Bool, true, false, ◌==◌, Option, none, some, if◌then◌else◌, ℤ, positive_or,
  trim, Map, get, put, delete, get_or, ◌&&◌, not,
}
use nukara.Store.Types.{Time, is_zero, after, PresenceState}
use nukara.Store.State.{Store}

abbrev pub second : ℕ
second = 1000000000

abbrev pub no_presence : PresenceState
no_presence = record { ws_expires_at = 0; last_user_msg_at = 0 }

unfoldable pub touch_ws_presence : Store → Time → String → ℤ → Store
touch_ws_presence s now user_id ttl =
    let user = trim user_id in
    let st = get_or s.presence_by_user user no_presence in
    let touched = record st { ws_expires_at = now + positive_or (90 * second) ttl } in
    if user == "" then s else record s { presence_by_user = put s.presence_by_user user touched }

-- The entry after an expired lease was seen.
unfoldable pub drop_expired : Map PresenceState → String → PresenceState → Map PresenceState
drop_expired m user st =
    if is_zero st.last_user_msg_at
    then delete m user
    else put m user (record st { ws_expires_at = 0 })

unfoldable pub check_online : Store → Time → String → Option PresenceState → Store × Bool
unfolding drop_expired
check_online s now user none = (s, false)
check_online s now user (some st) =
    if is_zero st.ws_expires_at
    then (s, false)
    else if after now st.ws_expires_at
    then (record s { presence_by_user = drop_expired s.presence_by_user user st }, false)
    else (s, true)

unfoldable pub is_user_ws_online : Store → Time → String → Store × Bool
unfolding check_online
is_user_ws_online s now user_id =
    let user = trim user_id in
    if user == "" then (s, false) else check_online s now user (get s.presence_by_user user)

unfoldable pub set_last_user_message_at : Store → String → Time → Store
set_last_user_message_at s user_id at =
    let user = trim user_id in
    let st = get_or s.presence_by_user user no_presence in
    if user == "" then s else if is_zero at then s else record s {
      presence_by_user = put s.presence_by_user user (record st { last_user_msg_at = at });
    }

unfoldable pub read_last_message :
    Store → Time → String → Option PresenceState → Store × Option Time
read_last_message s now user none = (s, none)
read_last_message s now user (some st) =
    if is_zero st.last_user_msg_at
    then (s, none)
    else if not (is_zero st.ws_expires_at) && after now st.ws_expires_at
    then (
      record s { presence_by_user = put s.presence_by_user user (record st { ws_expires_at = 0 }) },
      some st.last_user_msg_at,
    )
    else (s, some st.last_user_msg_at)

unfoldable pub get_last_user_message_at : Store → Time → String → Store × Option Time
unfolding read_last_message
get_last_user_message_at s now user_id =
    let user = trim user_id in
    if user == "" then (s, none) else read_last_message s now user (get s.presence_by_user user)
