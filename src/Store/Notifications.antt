-- ===== src/Store/Notifications.antt =====
-- Notification settings: normalizeNotificationSettings and proactiveIntervalMinutesFromFrequency of
-- internal/store/store.go, with strconv.Atoi and strconv.Itoa.
use Prim.Native.Char.{code}
use Prim.Native.String.{String}
use nukara.Base.{
  ℕ, zero, suc, ◌+◌, ◌-◌, ◌*◌, ◌/◌, ◌%◌, false, ◌&&◌, Option, none, some, ltb, leb, eqb,
  if◌then◌else◌, ℤ, pos, negsuc, is_nonpos, max_int, trim, lower, codes_eq, ◌<>◌, ◌≡◌, refl, arith,
  ap,
}
use nukara.Store.Types.{NotificationSettings}

abbrev pub default_proactive_interval_minutes : ℕ
default_proactive_interval_minutes = 240

-- strconv.Itoa. Twenty digits are more than any `int` has.
abbrev digit : ℕ → String
digit n =
    if eqb n 0
    then "0"
    else if eqb n 1
    then "1"
    else if eqb n 2
    then "2"
    else if eqb n 3
    then "3"
    else if eqb n 4
    then "4"
    else if eqb n 5
    then "5"
    else if eqb n 6
    then "6"
    else if eqb n 7
    then "7"
    else if eqb n 8
    then "8"
    else "9"

unfoldable pub digits : ℕ → ℕ → String
digits zero n = ""
digits (suc fuel) n =
    let rest = digits fuel (n / 10) in if ltb n 10 then digit n else rest <> digit (n % 10)

unfoldable pub itoa : ℤ → String
unfolding digits
itoa (pos n) = digits 20 n
itoa (negsuc n) = "-" <> digits 20 (n + 1)

-- The digits of strconv.Atoi; `none` at any other character. The number is not bounded yet.
unfoldable pub read_digits : String → ℕ → Option ℕ
read_digits String.[] acc = some acc
read_digits (String.◌∷◌ c s) acc =
    let d = code c in
    let rest = read_digits s (acc * 10 + (d - 48)) in if leb 48 d && leb d 57 then rest else none

abbrev unsigned : String → Option ℕ
unsigned String.[] = none
unsigned (String.◌∷◌ c s) = read_digits (String.◌∷◌ c s) 0

abbrev below : ℕ → Option ℕ → Option ℕ
below top none = none
below top (some n) = if leb n top then some n else none

abbrev negated : Option ℕ → Option ℤ
negated none = none
negated (some zero) = some (pos 0)
negated (some (suc n)) = some (negsuc n)

abbrev plain : Option ℕ → Option ℤ
plain none = none
plain (some n) = some (pos n)

-- strconv.Atoi: an optional sign, then digits, in the range of `int`.
unfoldable pub atoi : String → Option ℤ
unfolding read_digits
atoi String.[] = none
atoi (String.◌∷◌ c s) =
    if eqb (code c) 45
    then negated (below (suc max_int) (unsigned s))
    else if eqb (code c) 43
    then plain (below max_int (unsigned s))
    else plain (below max_int (unsigned (String.◌∷◌ c s)))

abbrev minutes_or_zero : Option ℤ → ℤ
minutes_or_zero none = pos 0
minutes_or_zero (some n) = if is_nonpos n then pos 0 else n

unfoldable pub proactive_interval_minutes_from_frequency : String → ℤ
unfolding atoi
proactive_interval_minutes_from_frequency raw =
    let word = lower (trim raw) in
    if codes_eq word (lower "high")
    then pos 120
    else if codes_eq word (lower "normal")
    then pos 240
    else if codes_eq word (lower "low")
    then pos 480
    else minutes_or_zero (atoi (trim raw))

abbrev with_frequency : ℤ → String → ℤ
with_frequency minutes frequency =
    if is_nonpos minutes then proactive_interval_minutes_from_frequency frequency else minutes

abbrev with_default : ℤ → ℤ
with_default minutes = if is_nonpos minutes then pos default_proactive_interval_minutes else minutes

unfoldable pub normalize_notification_settings : NotificationSettings → NotificationSettings
unfolding proactive_interval_minutes_from_frequency itoa
normalize_notification_settings input =
    let minutes = with_default (with_frequency input.proactive_interval_minutes input.frequency) in
    record input { proactive_interval_minutes = minutes; frequency = itoa minutes }

with_default-pos : (m : ℤ) → is_nonpos (with_default m) ≡ false
with_default-pos (pos zero) = refl
with_default-pos (pos (suc n)) = ground arith
with_default-pos (negsuc n) = refl

settled : (m : ℤ) (f : String) → is_nonpos m ≡ false → with_default (with_frequency m f) ≡ m
settled m f h = simp h

-- Normalised settings have a positive interval, and normalising them again changes nothing.
pub normalize_idem :
    (input : NotificationSettings)
    → let out = normalize_notification_settings input in
      (is_nonpos out.proactive_interval_minutes ≡ false)
      × (normalize_notification_settings out ≡ out)
unfolding normalize_notification_settings
normalize_idem input =
    let minutes = with_default (with_frequency input.proactive_interval_minutes input.frequency) in
    let settles =
      with_default-pos (with_frequency input.proactive_interval_minutes input.frequency) in
    (
      settles,
      ap {B = NotificationSettings}
          (λ m. record input { proactive_interval_minutes = m; frequency = itoa m })
          (settled minutes (itoa minutes) settles),
    )

test_low : proactive_interval_minutes_from_frequency " Low " ≡ pos 480
unfolding proactive_interval_minutes_from_frequency trim lower
test_low = refl

test_minutes : proactive_interval_minutes_from_frequency " 90" ≡ pos 90
unfolding proactive_interval_minutes_from_frequency trim lower
test_minutes = refl

test_itoa : itoa (pos 1480) ≡ "1480"
unfolding itoa
test_itoa = refl
