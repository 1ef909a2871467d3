-- ===== src/Base/Blank.antt =====
-- Texts that strings.TrimSpace leaves empty.
use Prim.Native.Char.{Char, code}
use Prim.Native.String.{String}
use Prim.Native.String.append
use mathlib.Core.Path.{◌≡◌, refl, ap, ◌∙◌, sym}
use mathlib.Core.Logic.{inl, inr}
use mathlib.Core.Bool.{Bool, true, false, ◌&&◌}
use text.Mathlib.Text.{◌==◌}
use text.Mathlib.TextEquality.{eq_iff}
use nukara.Base.Tests.{Bool-cases, absurd_bool}
use nukara.Base.Text.{is_space, trim, trim_left, trim_right, close_right, is_blank, ◌<>◌}

unfoldable all_space : String → Bool
all_space String.[] = true
all_space (String.◌∷◌ c s) = let rest = all_space s in is_space (code c) && rest

trim_left-space : (s : String) → all_space s ≡ true → trim_left s ≡ ""
unfolding all_space trim_left
trim_left-space String.[] h = refl
trim_left-space (String.◌∷◌ c s) h = elim (Bool-cases (is_space (code c))) [
  | inl e ↦ rw e (trim_left-space s (rw e at h))
  | inr e ↦ absurd_bool (sym h ∙ rw e refl)
]

space-blank : (s : String) → all_space s ≡ true → is_blank s ≡ true
unfolding trim trim_right
space-blank s h = rw (trim_left-space s h) refl

has_rune : String → Bool
has_rune String.[] = false
has_rune (String.◌∷◌ c s) = true

cons-shown : (c : Char) (s : String) → (String.◌∷◌ c s == "") ≡ false
unfolding has_rune
cons-shown c s = elim (Bool-cases (String.◌∷◌ c s == "")) [
  | inl e ↦ absurd_bool (ap has_rune ((eq_iff (String.◌∷◌ c s) "").0 e))
  | inr e ↦ e
]

solid : (s : String) → all_space s ≡ false → is_blank s ≡ false
unfolding all_space trim trim_left trim_right
solid String.[] h = absurd_bool h
solid (String.◌∷◌ c s) h = elim (Bool-cases (is_space (code c))) [
  | inl e ↦ rw e (solid s (rw e at h))
  | inr e ↦ rw e (go (trim_right s) e)
]
  where
    go : (r : String) → is_space (code c) ≡ false → (close_right c r == "") ≡ false
    go String.[] e = rw e (cons-shown c "")
    go (String.◌∷◌ d t) e = cons-shown c (String.◌∷◌ d t)

all_space-append : (a t : String) → all_space a ≡ false → all_space (a <> t) ≡ false
unfolding all_space
all_space-append String.[] t h = absurd_bool h
all_space-append (String.◌∷◌ c a) t h =
    ap all_space (append.cons c a t) ∙ (elim (Bool-cases (is_space (code c))) [
      | inl e ↦ rw e (all_space-append a t (rw e at h))
      | inr e ↦ rw e refl
    ])

-- A text that begins with one that is not blank is not blank.
pub blank-append : (a t : String) → is_blank a ≡ false → is_blank (a <> t) ≡ false
blank-append a t h = elim (Bool-cases (all_space a)) [
  | inl e ↦ absurd_bool (sym (space-blank a e) ∙ h)
  | inr e ↦ solid (a <> t) (all_space-append a t e)
]
