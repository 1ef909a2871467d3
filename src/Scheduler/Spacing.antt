-- ===== src/Scheduler/Spacing.antt =====
-- Two proactive messages to one user are at least a cool-down apart: processUser and tick of
-- internal/api/scheduler.go.
use nukara.Base.{
  ◌≤◌, String, true, false, Option, none, some, ◌≡◌, refl, ap, sym, ◌∙◌, ◌⊎◌, inl, inr, arith,
  subst, ℤ, pos, negsuc, ltb, ltb_int, leb_int, List, [], ◌∷◌, take, keep, is_blank, Bool-cases,
}
use nukara.Store.Types.{Time, Bot, Conversation, Message, NotificationSettings, ProactiveLog}
use nukara.Store.State.{Store}
use nukara.Store.Accounts.{get_notification_settings}
use nukara.Store.Chats.{save_message}
use nukara.Store.Activity.{list_all_user_ids, add_proactive_log, save_bot_status}
use nukara.Store.Activity.Logs.{shown, list_proactive_logs_lem}
use nukara.Store.Presence.{get_last_user_message_at}
use nukara.Chat.Status.{select_bot_status}
use nukara.Scheduler.Clock.{time_sub}
use nukara.Scheduler.Triggers.{get_proactive_cooldown}
use nukara.Scheduler.Process.{Round, Due, due, within}
use nukara.Scheduler.Send.{
  said, log_of, sent_apns, proactive_message, request_of, send_saved, send_text,
  send_proactive_message, send_due, process_user, process_users, tick,
}
use nukara.Scheduler.Allowed.{
  due-IsAllowed, proactive_logs-due, proactive_logs-get_last_user_message_at,
}

-- Of logs with the newest in front, every log is at least `d` younger than the one before it in the
-- listing of its user.
unfoldable pub IsSpaced : ℤ → List ProactiveLog → Type 0
unfolding within
IsSpaced d [] = Unit
IsSpaced d (l ∷ ls) = (within d l.created_at (keep (shown l.user_id) ls) ≡ false) × IsSpaced d ls

within-take :
    (d : ℤ) (now : Time) (xs : List ProactiveLog) → within d now (take 1 xs) ≡ within d now xs
unfolding within
within-take d now [] = refl
within-take d now (x ∷ xs) = refl

later_not_sooner :
    (d c : ℤ) (now t at : Time)
    → leb_int d c ≡ true
    → now ≤ t
    → ltb_int (time_sub now at) c ≡ false
    → ltb_int (time_sub t at) d ≡ false
unfolding time_sub
later_not_sooner (pos d) (pos c) now t at h k e = ground arith
later_not_sooner (pos d) (negsuc c) now t at h k e = ground arith
later_not_sooner (negsuc d) (pos c) now t at h k e = ground arith
later_not_sooner (negsuc d) (negsuc c) now t at h k e = ground arith

within-later :
    (d c : ℤ) (now t : Time) (xs : List ProactiveLog)
    → leb_int d c ≡ true
    → now ≤ t
    → within c now xs ≡ false
    → within d t xs ≡ false
unfolding within
within-later d c now t [] h k e = refl
within-later d c now t (x ∷ xs) h k e = later_not_sooner d c now t x.created_at h k e

-- At most one log is added, for the user and with the time at hand.
abbrev Logs : Round → String → List ProactiveLog → List ProactiveLog → Type 0
Logs r u old new =
    (new ≡ old)
    ⊎ ((l : ProactiveLog) × (new ≡ l ∷ old) × (l.user_id ≡ u) × (l.created_at ≡ r.logged_at))

proactive_logs-save_message :
    (s : Store) (now : Time) (id u : String) (m : Message)
    → ((save_message s now id u m).0).proactive_logs ≡ s.proactive_logs
unfolding save_message
proactive_logs-save_message s now id u m = ground arith

module _ (r : Round) (u : String) (bot : Bot) (conv : Conversation) (trigger : String) where
  send_saved-Logs :
      (old : List ProactiveLog) (text emotion : String) (p : Store × Option Message)
      → (p.0).proactive_logs ≡ old
      → Logs r u old (send_saved r p u bot conv trigger text emotion).proactive_logs
  unfolding send_saved save_bot_status add_proactive_log
  send_saved-Logs old text emotion (s, none) e = inl e
  send_saved-Logs old text emotion (s, some m) e =
      let status = select_bot_status r.hash emotion conv.id in
      let t = save_bot_status s r.shown_at u bot.id status.emoji status.text in
      let by_ws = ltb 0 (r.publish m) in
      let log = log_of u bot conv trigger text by_ws (sent_apns r t u bot conv text by_ws) in
      let entry = (add_proactive_log t r.logged_at r.log_id log).1 in
      inr (entry, ap (◌∷◌ entry) e, refl, refl)

  send_text-Logs :
      (s : Store) (said : String × String)
      → Logs r u s.proactive_logs (send_text r s u bot conv trigger said).proactive_logs
  unfolding send_text
  send_text-Logs s (text, emotion) = elim (Bool-cases (is_blank text)) [
    | inl e ↦ rw e (inl refl)
    | inr e ↦
        let m = proactive_message conv text emotion in
        rw e (
          send_saved-Logs s.proactive_logs text emotion (save_message s r.saved_at r.message_id u m)
            (proactive_logs-save_message s r.saved_at r.message_id u m))
  ]

  send-Logs :
      (s : Store)
      → Logs r u s.proactive_logs (send_proactive_message r s u bot conv trigger).proactive_logs
  unfolding send_proactive_message
  send-Logs s =
      let (s1, last) = get_last_user_message_at s r.asked_at u in
      let reply = said bot (r.runtime (request_of s1 u bot conv trigger last)) in
      subst (λ old. Logs r u old (send_text r s1 u bot conv trigger reply).proactive_logs)
        (proactive_logs-get_last_user_message_at s r.asked_at u) (send_text-Logs s1 reply)

-- What one user's turn adds keeps the logs spaced.
Logs-IsSpaced :
    (r : Round) (d c : ℤ) (now : Time) (u : String) (old new : List ProactiveLog)
    → leb_int d c ≡ true
    → now ≤ r.logged_at
    → within c now (keep (shown u) old) ≡ false
    → IsSpaced d old
    → Logs r u old new
    → IsSpaced d new
unfolding IsSpaced
Logs-IsSpaced r d c now u old new h k e spaced (inl same) = rw same spaced
Logs-IsSpaced r d c now u old new h k e spaced (inr (l, added, of, at)) =
    rw added (rw (of, at) (within-later d c now r.logged_at (keep (shown u) old) h k e), spaced)

process_user-IsSpaced :
    (r : Round) (d : ℤ) (s : Store) (now : Time) (u : String)
    → ((settings : NotificationSettings)
        → leb_int d (get_proactive_cooldown r.cooldown_override settings) ≡ true)
    → now ≤ r.logged_at
    → IsSpaced d s.proactive_logs
    → IsSpaced d (process_user r s now u).proactive_logs
unfolding process_user send_due
process_user-IsSpaced r d s now u long later spaced = go (due r s now u) refl
  where
    go : (p : Store × Option Due) → due r s now u ≡ p → IsSpaced d (send_due r u p).proactive_logs
    go (t, none) e =
        rw (sym (ap (λ p. (p.0).proactive_logs) e) ∙ proactive_logs-due r s now u) spaced
    go (t, some x) e =
        let settings = get_notification_settings s now u in
        let c = get_proactive_cooldown r.cooldown_override settings in
        let allowed = due-IsAllowed r s now u t x e in
        let same : t.proactive_logs ≡ s.proactive_logs =
          sym (ap (λ p. (p.0).proactive_logs) e) ∙ proactive_logs-due r s now u in
        let cool : within c now (keep (shown u) s.proactive_logs) ≡ false =
          sym (within-take c now (keep (shown u) s.proactive_logs))
          ∙ ap (within c now) (sym (list_proactive_logs_lem s u (pos 1)))
          ∙ allowed.cool in
        Logs-IsSpaced r d c now u t.proactive_logs (send_due r u (t, some x)).proactive_logs
          (long settings) later (rw same cool) (rw same spaced)
          (send-Logs r u x.bot x.conversation x.trigger t)

module _ (rounds : String → Round) (d : ℤ) (now : Time)
    (long : (u : String) (settings : NotificationSettings)
      → leb_int d (get_proactive_cooldown (rounds u).cooldown_override settings) ≡ true)
    (later : (u : String) → now ≤ (rounds u).logged_at) where
  process_users-IsSpaced :
      (us : List String) (s : Store)
      → IsSpaced d s.proactive_logs
      → IsSpaced d (process_users rounds s now us).proactive_logs
  unfolding process_users
  process_users-IsSpaced [] s h = h
  process_users-IsSpaced (u ∷ us) s h =
      process_users-IsSpaced us (process_user (rounds u) s now u)
        (process_user-IsSpaced (rounds u) d s now u (long u) (later u) h)

  -- Where `d` is at most the cool-down under any settings of a user, and logs are written no earlier
  -- than the round began, a round of the scheduler over all users keeps this: any proactive message to
  -- a user is at least `d` younger than the one that the same user got before.
  pub tick-IsSpaced :
      (s : Store) → IsSpaced d s.proactive_logs → IsSpaced d (tick rounds s now).proactive_logs
  unfolding tick
  tick-IsSpaced s h = process_users-IsSpaced (list_all_user_ids s) s h
