-- ===== src/Store/Accounts/Codes.antt =====
-- E-mail codes and registration: SaveEmailCode, ValidateEmailCode, CreateUser and the two FindUser
-- methods of internal/store/store.go.
use nukara.Base.{
  ◌+◌, ◌*◌, String, false, ◌==◌, ◌≡◌, refl, none, some, arith, put, get-put_self, delete,
  delete-put, get-put_at, if◌then◌else◌, ℤ, positive_or, trim, trim_idem, leb,
}
use nukara.Store.Types.{Time, User, EmailCode}
use nukara.Store.State.{Store, pair_key}
use nukara.Store.Presence.{second}
use nukara.Store.Notifications.{normalize_notification_settings, normalize_idem}
use nukara.Store.Accounts.{
  save_email_code, validate_email_code, create_user, find_user_by_email, find_user_by_id, new_user,
  get_notification_settings, default_settings,
}

saved-accepts :
    (s : Store) (now later : Time) (email purpose code tried : String) (ttl : ℤ)
    → validate_email_code (save_email_code s now email purpose code ttl) later email purpose tried
      ≡ (if leb later (now + positive_or (15 * 60 * second) ttl) then code == tried else false)
unfolding save_email_code validate_email_code
saved-accepts s now later email purpose code tried ttl =
    let entry : EmailCode = record {
      email = trim email;
      purpose = trim purpose;
      code = code;
      created_at = now;
      expires_at = now + positive_or (15 * 60 * second) ttl;
    } in
    rw
      (get-put_self s.email_codes (pair_key (trim email) (trim purpose)) entry, validate_email_code)
      (ground arith)

-- After SaveEmailCode, ValidateEmailCode for that address and purpose accepts exactly the code saved
-- last, and that up to and including the end of its life time (15 minutes for a life time that is not
-- positive); space around address and purpose does not count, and the codes under all other keys are
-- what they were.
pub validate-save_email_code :
    (s : Store) (now later : Time) (email purpose code tried : String) (ttl : ℤ)
    → let t = save_email_code s now email purpose code ttl in
      (validate_email_code t later email purpose tried
        ≡ (if leb later (now + positive_or (15 * 60 * second) ttl) then code == tried else false))
      × (validate_email_code t later (trim email) (trim purpose) tried
          ≡ validate_email_code t later email purpose tried)
      × (let key = pair_key (trim email) (trim purpose) in
          delete t.email_codes key ≡ delete s.email_codes key)
unfolding save_email_code validate_email_code
validate-save_email_code s now later email purpose code tried ttl = (
  saved-accepts s now later email purpose code tried ttl,
  rw (trim_idem email, trim_idem purpose) refl,
  delete-put s.email_codes (pair_key (trim email) (trim purpose)) _,
)

settings_kept :
    (s : Store) (at later : Time) (id : String)
    → let settled = normalize_notification_settings (default_settings later id) in
      get_notification_settings (record s { notif_by_user = put s.notif_by_user id settled }) at id
      ≡ settled
unfolding get_notification_settings
settings_kept s at later id =
    let settled = normalize_notification_settings (default_settings later id) in
    rw (get-put_self s.notif_by_user id settled, get_notification_settings)
      (normalize_idem (default_settings later id)).1

-- CreateUser with an address that no user has makes the user that both FindUser methods then return,
-- with the notification settings of a new user. Space around the address does not count.
pub create_user-new :
    (s : Store) (now later at : Time) (id email nickname : String)
    → find_user_by_email s email ≡ none
    → let (t, r) = create_user s now later id email nickname in
      let user = new_user now id email nickname in
      (r ≡ some user)
      × (find_user_by_email t (trim email) ≡ some user)
      × (find_user_by_id t id ≡ some user)
      × (get_notification_settings t at id
          ≡ normalize_notification_settings (default_settings later id))
unfolding create_user find_user_by_email find_user_by_id get_notification_settings
create_user-new s now later at id email nickname free =
    let user = new_user now id email nickname in
    rw (free, create_user)
      (
        refl,
        get-put_at s.users_by_email (trim email) (trim (trim email)) user (trim_idem email),
        get-put_self s.users_by_id id user,
        settings_kept s at later id,
      )

-- CreateUser with an address in use fails and leaves the store as it was.
pub create_user-taken :
    (s : Store) (now later : Time) (id email nickname : String) (other : User)
    → find_user_by_email s email ≡ some other
    → ((create_user s now later id email nickname).1 ≡ none)
      × ((create_user s now later id email nickname).0 ≡ s)
unfolding create_user find_user_by_email
create_user-taken s now later id email nickname other taken = rw (taken, create_user) (refl, refl)
