-- ===== src/Base/Words.antt =====
-- Splitting texts at separators (strings.Split on one rune, strings.FieldsFunc), membership.
use Prim.Native.Nat.{ℕ}
use Prim.Native.Char.{Char, code}
use Prim.Native.String.{String}
use mathlib.Core.Path.{◌≡◌, refl}
use mathlib.Core.Bool.{Bool, false, not, ◌||◌}
use mathlib.Core.List.{List, [], ◌∷◌}
use text.Mathlib.Text.{◌==◌}
use nukara.Base.Tests.{if◌then◌else◌, eqb}
use nukara.Base.Lists.{keep}

abbrev pub extend_first : Char → List String → List String
extend_first c [] = String.◌∷◌ c "" ∷ []
extend_first c (w ∷ ws) = String.◌∷◌ c w ∷ ws

-- The parts between the runes that satisfy `p`, empty ones included.
unfoldable pub split_on : (ℕ → Bool) → String → List String
split_on p String.[] = "" ∷ []
split_on p (String.◌∷◌ c s) =
    let rest = split_on p s in if p (code c) then "" ∷ rest else extend_first c rest

-- strings.FieldsFunc
unfoldable pub fields_func : (ℕ → Bool) → String → List String
unfolding split_on
fields_func p s = keep (λ w. not (w == "")) (split_on p s)

-- Membership in a `map[string]struct{}`, or a scan of a slice.
unfoldable pub member : String → List String → Bool
member x [] = false
member x (y ∷ ys) = y == x || member x ys

test_split : split_on (λ c. eqb c b'|') "a||bc" ≡ "a" ∷ "" ∷ "bc" ∷ []
unfolding split_on
test_split = refl
