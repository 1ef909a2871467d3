-- ===== src/Base/Text.antt =====
-- Go strings as native texts (valid UTF-8), and what the code uses of package strings.
use Prim.Native.Nat.{ℕ, zero, suc, ◌+◌, ◌≤◌}
use Prim.Native.Char.{Char, code}
use Prim.Native.String
use Prim.Native.String.{String}
use mathlib.Core.Path.{◌≡◌, refl, ap, ◌∙◌}
use mathlib.Core.Logic.{inl, inr}
use mathlib.Core.Bool.{Bool, true, false, ◌&&◌, ◌||◌}
use mathlib.Core.List.{List, [], ◌∷◌}
use native.Mathlib.Omega.{arith}
use text.Mathlib.Text.{◌==◌}
use nukara.Base.Tests.{leb, eqb, if◌then◌else◌, Bool-cases}

infixl 65 ◌<>◌
abbrev pub ◌<>◌ : String → String → String
a <> b = String.◌++◌ a b

-- unicode.IsSpace
unfoldable pub is_space : ℕ → Bool
is_space c =
    (leb 9 c && leb c 13)
    || eqb c 32
    || eqb c 0x85
    || eqb c 0xa0
    || eqb c 0x1680
    || (leb 0x2000 c && leb c 0x200a)
    || eqb c 0x2028
    || eqb c 0x2029
    || eqb c 0x202f
    || eqb c 0x205f
    || eqb c 0x3000

unfoldable pub trim_left : String → String
trim_left String.[] = ""
trim_left (String.◌∷◌ c s) =
    let rest = trim_left s in if is_space (code c) then rest else String.◌∷◌ c s

-- Drops the blank `c` before a rest that was all blank.
abbrev pub close_right : Char → String → String
close_right c String.[] = if is_space (code c) then "" else String.◌∷◌ c ""
close_right c (String.◌∷◌ d s) = String.◌∷◌ c (String.◌∷◌ d s)

unfoldable pub trim_right : String → String
trim_right String.[] = ""
trim_right (String.◌∷◌ c s) = close_right c (trim_right s)

-- strings.TrimSpace
unfoldable pub trim : String → String
unfolding trim_left trim_right is_space
trim s = trim_right (trim_left s)

-- `strings.TrimSpace(s) == ""`
abbrev pub is_blank : String → Bool
is_blank s = trim s == ""

trim_right_idem : (s : String) → trim_right (trim_right s) ≡ trim_right s
unfolding trim_right
trim_right_idem String.[] = refl
trim_right_idem (String.◌∷◌ c s) = go (trim_right s) (trim_right_idem s)
  where
    go : (r : String) → trim_right r ≡ r → trim_right (close_right c r) ≡ close_right c r
    go String.[] h = elim (Bool-cases (is_space (code c))) [ inl e ↦ rw e | inr e ↦ simp e ]
    go (String.◌∷◌ d t) h = ap (close_right c) h

trim_left-clean :
    (c : Char) (r : String)
    → is_space (code c) ≡ false
    → trim_left (close_right c r) ≡ close_right c r
unfolding trim_left
trim_left-clean c String.[] h = ground arith
trim_left-clean c (String.◌∷◌ d t) h = ground arith

trim_left-trim : (s : String) → trim_left (trim_right (trim_left s)) ≡ trim_right (trim_left s)
unfolding trim_left trim_right
trim_left-trim String.[] = refl
trim_left-trim (String.◌∷◌ c s) = elim (Bool-cases (is_space (code c))) [
  | inl e ↦ rw e (trim_left-trim s)
  | inr e ↦ rw e (trim_left-clean c (trim_right s) e)
]

pub trim_idem : (s : String) → trim (trim s) ≡ trim s
trim_idem s = unfold trim in ap trim_right (trim_left-trim s) ∙ trim_right_idem (trim_left s)

-- The first of the texts that is not blank, trimmed; "" if all are.
unfoldable pub first_non_empty : List String → String
first_non_empty [] = ""
first_non_empty (v ∷ vs) = let rest = first_non_empty vs in if is_blank v then rest else trim v

pub trim-first_non_empty : (vs : List String) → trim (first_non_empty vs) ≡ first_non_empty vs
unfolding first_non_empty
trim-first_non_empty [] = unfold trim in refl
trim-first_non_empty (v ∷ vs) = ground (arith, trim-first_non_empty vs, trim_idem v)

-- strings.ToLower as far as it yields ASCII letters: A-Z, the dotted I and the Kelvin sign.
lower_code : ℕ → ℕ
lower_code c =
    if leb 65 c && leb c 90
    then c + 32
    else if eqb c 0x130
    then 105
    else if eqb c 0x212a
    then 107
    else c

unfoldable pub lower : String → List ℕ
unfolding lower_code
lower String.[] = []
lower (String.◌∷◌ c s) = lower_code (code c) ∷ lower s

-- Simple case folding onto ASCII letters: A-Z, the long s and the Kelvin sign.
fold_code : ℕ → ℕ
fold_code c =
    if leb 65 c && leb c 90
    then c + 32
    else if eqb c 0x17f
    then 115
    else if eqb c 0x212a
    then 107
    else c

unfoldable pub fold : String → List ℕ
unfolding fold_code
fold String.[] = []
fold (String.◌∷◌ c s) = fold_code (code c) ∷ fold s

abbrev pub codes_eq : List ℕ → List ℕ → Bool
codes_eq [] [] = true
codes_eq (a ∷ as') (b ∷ bs) = eqb a b && codes_eq as' bs
codes_eq _ _ = false

-- strings.EqualFold
unfoldable pub equal_fold : String → String → Bool
unfolding fold
equal_fold s t = codes_eq (fold s) (fold t)

-- Runes: `len([]rune(s))` and `string([]rune(s)[:n])`.
unfoldable pub rune_count : String → ℕ
rune_count String.[] = 0
rune_count (String.◌∷◌ c s) = suc (rune_count s)

unfoldable pub take_runes : ℕ → String → String
take_runes zero s = ""
take_runes (suc n) String.[] = ""
take_runes (suc n) (String.◌∷◌ c s) = String.◌∷◌ c (take_runes n s)

pub take_runes-le : (n : ℕ) (s : String) → rune_count (take_runes n s) ≤ n
unfolding take_runes rune_count
take_runes-le zero s = omega arith
take_runes-le (suc n) String.[] = omega arith
take_runes-le (suc n) (String.◌∷◌ c s) = omega (arith, take_runes-le n s)

-- strings.Join
unfoldable pub join : String → List String → String
join sep [] = ""
join sep (x ∷ []) = x
join sep (x ∷ y ∷ ys) = x <> (sep <> join sep (y ∷ ys))

test_trim : trim " \t在线 ok\n" ≡ "在线 ok"
unfolding trim
test_trim = refl
