-- ===== src/Scheduler/Clock.antt =====
-- Durations, parseHHMM and isDND of internal/api/scheduler.go. A time of day is its hour and its
-- minute, which package time computes for a time zone.
use Prim.Native.Char.{code}
use nukara.Base.{
  ℕ, ◌+◌, ◌-◌, ◌*◌, ◌%◌, ◌<◌, min, String, Bool, false, ◌&&◌, ◌||◌, Option, none, some, ◌≡◌, refl,
  arith, if◌then◌else◌, ltb, leb, eqb, ℤ, pos, negsuc, ltb_int, leb_int, signed, max_int, word_size,
  trim,
}
use nukara.Store.Types.{Time, NotificationSettings}

-- `t.Sub(u)`, which saturates
unfoldable pub time_sub : Time → Time → ℤ
time_sub t u = if leb u t then pos (min (t - u) max_int) else negsuc (min (u - t - 1) max_int)

-- `len(s)`: the bytes of a text in UTF-8
unfoldable pub byte_count : String → ℕ
byte_count String.[] = 0
byte_count (String.◌∷◌ c s) =
    let width =
      if ltb (code c) 0x80
      then 1
      else if ltb (code c) 0x800
      then 2
      else if ltb (code c) 0x10000
      then 3
      else 4 in
    width + byte_count s

-- `strings.SplitN(s, ":", 2)`, when it has two parts
unfoldable pub cut_colon : String → Option (String × String)
cut_colon String.[] = none
cut_colon (String.◌∷◌ c s) =
    let rest = cut_colon s in
    if eqb (code c) b':'
    then some ("", s)
    else elim rest [ none ↦ none | some (l, r) ↦ some (String.◌∷◌ c l, r) ]

-- The loop over the digits of one part; `acc` is the 64-bit word of the variable.
unfoldable pub read_part : String → ℕ → Option ℕ
read_part String.[] acc = some acc
read_part (String.◌∷◌ c s) acc =
    let d = code c in
    let rest = read_part s ((acc * 10 + (d - 48)) % word_size) in
    if ltb d 48 || ltb 57 d then none else rest

-- The last test and the result, on the words of `h` and `m`.
abbrev pub minutes_of : ℕ → ℕ → ℤ
minutes_of h m =
    if ltb_int (pos 23) (signed h) || ltb_int (pos 59) (signed m)
    then negsuc 0
    else signed ((h * 60 + m) % word_size)

unfoldable pub parse_parts : String → String → ℤ
unfolding read_part
parse_parts hours minutes = elim (read_part hours 0) [
  | none ↦ negsuc 0
  | some h ↦ elim (read_part minutes 0) [ none ↦ negsuc 0 | some m ↦ minutes_of h m ]
]

unfoldable pub parse_hhmm : String → ℤ
unfolding byte_count cut_colon parse_parts
parse_hhmm text =
    let s = trim text in
    if ltb (byte_count s) 4
    then negsuc 0
    else elim (cut_colon s) [ none ↦ negsuc 0 | some (h, m) ↦ parse_parts h m ]

-- The window from `start` to `end` of a day, which may cross midnight.
abbrev pub in_window : ℤ → ℤ → ℕ → Bool
in_window start end current =
    if ltb_int start (pos 0) || ltb_int end (pos 0)
    then false
    else if leb_int start end
    then leb_int start (pos current) && ltb_int (pos current) end
    else leb_int start (pos current) || ltb_int (pos current) end

unfoldable pub is_dnd : NotificationSettings → ℕ → ℕ → Bool
unfolding parse_hhmm
is_dnd settings hour minute =
    in_window (parse_hhmm settings.dnd_start) (parse_hhmm settings.dnd_end) (hour * 60 + minute)

-- Where both ends of the window are times of a day, the user is undisturbed exactly at the times
-- that, counted from its start around the clock, come before its end.
pub is_dnd_lem :
    (settings : NotificationSettings) (start end hour minute : ℕ)
    → parse_hhmm settings.dnd_start ≡ pos start
    → parse_hhmm settings.dnd_end ≡ pos end
    → start < 1440
    → end < 1440
    → hour < 24
    → minute < 60
    → is_dnd settings hour minute
      ≡ ltb ((hour * 60 + minute + 1440 - start) % 1440) ((end + 1440 - start) % 1440)
unfolding is_dnd
is_dnd_lem settings start end hour minute from to a b c d =
    rw (from, to) (go (hour * 60 + minute) (omega arith))
  where
    go :
        (current : ℕ)
        → current < 1440
        → in_window (pos start) (pos end) current
          ≡ ltb ((current + 1440 - start) % 1440) ((end + 1440 - start) % 1440)
    go current h = ground arith

test_parse : parse_hhmm " 07:30 " ≡ pos 450
unfolding parse_hhmm trim
test_parse = refl

test_short : parse_hhmm "7:5" ≡ negsuc 0
unfolding parse_hhmm trim
test_short = refl

-- Nothing bounds the digits: 2^63 hours wrap around to a negative number, which passes the test.
test_overflow : parse_hhmm "9223372036854775808:00" ≡ pos 0
unfolding parse_hhmm trim
test_overflow = refl
