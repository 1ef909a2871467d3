-- ===== src/Persona/Bounds.antt =====
-- The bounds that ValidatePatch of internal/agentx/persona/changes.go puts on a patch.
use nukara.Base.{
  ℕ, zero, suc, ◌≤◌, String, Bool, true, false, not, ◌&&◌, ◌≡◌, refl, ap, Option, none, some, List,
  [], ◌∷◌, arith, if◌then◌else◌, length, All, any, trim, is_blank, take_runes, take_runes-le,
  rune_count, member, is_empty, Bool-cases, inl, inr, subst, absurd_bool,
}
use nukara.Persona.Changes.{
  Patch, adds_from, normalize_adds, validate_patch, is_empty_patch, normalized,
}

-- No text stands twice, and none is one of `seen`.
abbrev pub IsNew : List String → List String → Type 0
IsNew seen [] = Unit
IsNew seen (v ∷ vs) = (member v seen ≡ false) × IsNew (v ∷ seen) vs

-- At most so many texts, each of at most so many runes, and none twice.
abbrev pub IsBounded : ℕ → ℕ → List String → Type 0
IsBounded max_items max_runes texts =
    (length texts ≤ max_items) × All (λ v. rune_count v ≤ max_runes) texts × IsNew [] texts

adds_from_lem :
    (r room : ℕ) (seen values : List String)
    → let out = adds_from r room seen values in
      (length out ≤ room) × All (λ v. rune_count v ≤ r) out × IsNew seen out
unfolding adds_from
adds_from_lem r zero seen values = (omega arith, tt, tt)
adds_from_lem r (suc room) seen [] = (omega arith, tt, tt)
adds_from_lem r (suc room) seen (value ∷ values) =
    let text = take_runes r (trim value) in
    elim (Bool-cases (is_blank value)) [
      | inl e ↦ rw e (adds_from_lem r (suc room) seen values)
      | inr e ↦ elim (Bool-cases (member text seen)) [
        | inl f ↦ rw (e, f) (adds_from_lem r (suc room) seen values)
        | inr f ↦
            let (l, a, n) = adds_from_lem r room (text ∷ seen) values in
            rw (e, f) (omega (arith, l), (take_runes-le r (trim value), a), (f, n))
      ]
    ]

normalize_adds_lem :
    (values : List String) (items runes : ℕ)
    → IsBounded items runes (normalize_adds values items runes)
unfolding normalize_adds
normalize_adds_lem values items runes = adds_from_lem runes items [] values

let_through : (b : Bool) (n out : Patch) → (if b then none else some n) ≡ some out → n ≡ out
let_through true n out h = absurd_bool (ap is_none h)
  where
    is_none : Option Patch → Bool
    is_none none = true
    is_none (some x) = false
let_through false n out h = ap (λ (o : Option Patch). elim o [ none ↦ n | some x ↦ x ]) h

normalized-IsBounded :
    (input : Patch)
    → let out = normalized input in
      IsBounded 4 40 out.identity_adds
      × IsBounded 4 16 out.personality_adds
      × IsBounded 4 24 out.expression_style_adds
      × IsBounded 4 40 out.life_context_adds
      × IsBounded 4 40 out.taboos_and_preferences_adds
normalized-IsBounded input = (
  normalize_adds_lem input.identity_adds 4 40,
  normalize_adds_lem input.personality_adds 4 16,
  normalize_adds_lem input.expression_style_adds 4 24,
  normalize_adds_lem input.life_context_adds 4 40,
  normalize_adds_lem input.taboos_and_preferences_adds 4 40,
)

-- A patch that ValidatePatch lets through has at most 4 texts in each list, none twice, of at most
-- 40 runes each, or 16 for the personality and 24 for the style of expression.
pub validate_patch-IsBounded :
    (input out : Patch)
    → validate_patch input ≡ some out
    → IsBounded 4 40 out.identity_adds
      × IsBounded 4 16 out.personality_adds
      × IsBounded 4 24 out.expression_style_adds
      × IsBounded 4 40 out.life_context_adds
      × IsBounded 4 40 out.taboos_and_preferences_adds
unfolding validate_patch
validate_patch-IsBounded input out h =
    subst
      (λ (p : Patch).
        IsBounded 4 40 p.identity_adds
        × IsBounded 4 16 p.personality_adds
        × IsBounded 4 24 p.expression_style_adds
        × IsBounded 4 40 p.life_context_adds
        × IsBounded 4 40 p.taboos_and_preferences_adds)
      (let_through (is_empty_patch (normalized input)) (normalized input) out h)
      (normalized-IsBounded input)

-- Every value of every list is blank.
abbrev pub all_blank : List String → Bool
all_blank values = not (any (λ v. not (is_blank v)) values)

abbrev pub says_nothing : Patch → Bool
says_nothing input =
    all_blank input.identity_adds
    && (all_blank input.personality_adds
        && (all_blank input.expression_style_adds
            && (all_blank input.life_context_adds && all_blank input.taboos_and_preferences_adds)))

normalize_adds-empty :
    (values : List String) (items runes : ℕ)
    → is_empty (normalize_adds values (suc items) runes) ≡ all_blank values
unfolding normalize_adds adds_from member
normalize_adds-empty [] items runes = refl
normalize_adds-empty (v ∷ vs) items runes = ground (arith, normalize_adds-empty vs items runes)

-- ValidatePatch refuses a patch exactly if all its values are blank; it lets every other patch through,
-- normalised.
pub validate_patch_lem :
    (input : Patch)
    → validate_patch input ≡ (if says_nothing input then none else some (normalized input))
unfolding validate_patch
validate_patch_lem input =
    rw
      (
        normalize_adds-empty input.identity_adds 3 40,
        normalize_adds-empty input.personality_adds 3 16,
        normalize_adds-empty input.expression_style_adds 3 24,
        normalize_adds-empty input.life_context_adds 3 40,
        normalize_adds-empty input.taboos_and_preferences_adds 3 40,
      )
      refl
