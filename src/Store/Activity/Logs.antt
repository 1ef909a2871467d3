-- ===== src/Store/Activity/Logs.antt =====
-- The proactive logs of internal/store/store.go: AddProactiveLog and ListProactiveLogs.
use nukara.Base.{
  ℕ, zero, suc, String, Bool, ◌==◌, ◌||◌, ◌≡◌, refl, sym, ap, List, [], ◌∷◌, if◌then◌else◌, ℤ,
  positive_or, take, keep, take, Bool-cases, inl, inr,
}
use nukara.Store.Types.{Time, ProactiveLog}
use nukara.Store.State.{Store}
use nukara.Store.Activity.{add_proactive_log, first_logs, list_proactive_logs}

-- Whether a listing for that user ("" for all) shows the log.
abbrev pub shown : String → ProactiveLog → Bool
shown user_id entry = user_id == "" || entry.user_id == user_id

first_logs_lem :
    (room : ℕ) (u : String) (logs : List ProactiveLog)
    → first_logs room u logs ≡ take room (keep (shown u) logs)
unfolding first_logs
first_logs_lem zero u [] = refl
first_logs_lem (suc room) u [] = refl
first_logs_lem zero u (l ∷ ls) = refl
first_logs_lem (suc room) u (l ∷ ls) = elim (Bool-cases (shown u l)) [
  | inl e ↦ rw e (ap (◌∷◌ l) (first_logs_lem room u ls))
  | inr e ↦ rw e (first_logs_lem (suc room) u ls)
]

take-take : {A : Type 0} (n : ℕ) (xs : List A) → take n (take (suc n) xs) ≡ take n xs
take-take zero xs = refl
take-take (suc n) [] = refl
take-take (suc n) (x ∷ xs) = ap (◌∷◌ x) (take-take n xs)

take-cons : {A : Type 0} (n : ℕ) (x : A) (xs : List A) → take n (x ∷ take n xs) ≡ take n (x ∷ xs)
take-cons zero x xs = refl
take-cons (suc n) x xs = ap (◌∷◌ x) (take-take n xs)

-- The loop of ListProactiveLogs, which stops early, returns what a filter followed by a cut returns:
-- the first `limit` (20 for a limit that is not positive) of the user's logs, or of all logs for the
-- user "".
pub list_proactive_logs_lem :
    (s : Store) (u : String) (limit : ℤ)
    → list_proactive_logs s u limit ≡ take (positive_or 20 limit) (keep (shown u) s.proactive_logs)
unfolding list_proactive_logs
list_proactive_logs_lem s u limit = first_logs_lem (positive_or 20 limit) u s.proactive_logs

-- A log that AddProactiveLog adds comes first in the listings that show its user, ahead of what they
-- showed before, cut to the limit; a listing for another user is as it was.
pub add_then_list :
    (s : Store) (now : Time) (id u : String) (log : ProactiveLog) (limit : ℤ)
    → let (t, entry) = add_proactive_log s now id log in
      list_proactive_logs t u limit ≡ (
        if shown u log
        then take (positive_or 20 limit) (entry ∷ list_proactive_logs s u limit)
        else list_proactive_logs s u limit)
unfolding add_proactive_log
add_then_list s now id u log limit =
    let (t, entry) = add_proactive_log s now id log in
    let n = positive_or 20 limit in
    rw (list_proactive_logs_lem s u limit, list_proactive_logs_lem t u limit)
      elim (Bool-cases (shown u log)) [
        | inl e ↦ rw e (sym (take-cons n entry (keep (shown u) s.proactive_logs)))
        | inr e ↦ rw e refl
      ]
