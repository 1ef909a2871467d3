-- ===== src/Tests/Accounts.antt =====
-- The theorems on e-mail codes, users, directives and proactive logs at concrete inputs.
use nukara.Base.{
  ◌+◌, ◌*◌, true, false, ◌==◌, ◌≡◌, refl, none, some, any, find, get, put, store_at, empty_map,
  delete, leb, if◌then◌else◌, pos, positive_or, trim,
}
use nukara.Store.Types.{User, ProactiveLog, Directive}
use nukara.Store.State.{Store, pair_key, new_store}
use nukara.Store.Presence.{second}
use nukara.Store.Notifications.{normalize_notification_settings}
use nukara.Store.Accounts.{
  save_email_code, validate_email_code, create_user, find_user_by_email, find_user_by_id, new_user,
  get_notification_settings, default_settings,
}
use nukara.Store.Accounts.Codes.{validate-save_email_code, create_user-new}
use nukara.Store.Activity.{save_directive, list_directives}
use nukara.Store.Activity.Directives.{listed, has_id}
use nukara.Tests.Samples.{base}

validate-save_email_code_example :
    let t = save_email_code base 5 "a@b" "login" "123456" (pos 0) in
    (validate_email_code t 7 "a@b" "login" "123456" ≡ (
      if leb 7 (5 + positive_or (15 * 60 * second) (pos 0)) then "123456" == "123456" else false))
    × (validate_email_code t 7 (trim "a@b") (trim "login") "123456"
        ≡ validate_email_code t 7 "a@b" "login" "123456")
    × (delete t.email_codes (pair_key (trim "a@b") (trim "login"))
        ≡ delete base.email_codes (pair_key (trim "a@b") (trim "login")))
validate-save_email_code_example =
    validate-save_email_code base 5 7 "a@b" "login" "123456" "123456" (pos 0)

is_free : find_user_by_email base "a@b" ≡ none
unfolding find_user_by_email new_store get find put store_at trim empty_map
is_free = refl

create_user-new_example :
    let (t, r) = create_user base 5 6 "u" "a@b" "Ann" in
    let user = new_user 5 "u" "a@b" "Ann" in
    (r ≡ some user)
    × (find_user_by_email t (trim "a@b") ≡ some user)
    × (find_user_by_id t "u" ≡ some user)
    × (get_notification_settings t 8 "u" ≡ normalize_notification_settings (default_settings 6 "u"))
create_user-new_example = create_user-new base 5 6 8 "u" "a@b" "Ann" is_free

abbrev tester : User
tester = record {
  id = "dev-user-tester";
  email = "tester@nukara.local";
  nickname = "测试用户";
  avatar = "";
  created_at = 1;
}

is_taken : find_user_by_email base " tester@nukara.local" ≡ some tester
unfolding find_user_by_email new_store get find put store_at trim empty_map
is_taken = refl

abbrev rule : Directive
rule = record {
  id = "";
  user_id = "u";
  bot_id = "b1";
  content = "be brief";
  category = "style";
  source = "user";
  status = "";
  original_message = "";
  created_at = 0;
  updated_at = 0;
}

abbrev ruled : Store
ruled = (save_directive base 5 "d1" rule).0

is_listed : any (has_id "d1") (listed ruled "u" "b1") ≡ true
unfolding save_directive list_directives new_store get find put store_at empty_map
is_listed = refl

is_unlisted : any (has_id "d2") (listed ruled "u" "b1") ≡ false
unfolding save_directive list_directives new_store get find put store_at empty_map
is_unlisted = refl

abbrev sent : ProactiveLog
sent = record {
  id = "";
  user_id = "u";
  conversation_id = "c1";
  bot_id = "b1";
  trigger_type = "idle";
  message = "hi";
  sent_by_ws = true;
  sent_by_apns = false;
  created_at = 0;
}
