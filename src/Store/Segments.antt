-- ===== src/Store/Segments.antt =====
-- Lists of text segments: splitSegments, dedup, appendPersonaText and splitTextSegments of
-- internal/store/store.go.
use mathlib.Core.Bool.{and-true}
use nukara.Base.{
  ℕ, String, Bool, false, not, ◌&&◌, ◌||◌, ◌==◌, eq_iff, ◌≡◌, refl, List, [], ◌∷◌, ◌++◌, map, arith,
  if◌then◌else◌, eqb, trim, is_blank, join, keep, split_on, fields_func, member, trim_idem, any, ap,
}

-- `seen` has the values that are in the output so far.
unfoldable pub dedup_from : List String → List String → List String
dedup_from seen [] = []
dedup_from seen (value ∷ values) =
    let v = trim value in
    let skipped = dedup_from seen values in
    let taken = v ∷ dedup_from (v ∷ seen) values in
    if v == "" then skipped else if member v seen then skipped else taken

unfoldable pub dedup : List String → List String
unfolding dedup_from
dedup values = dedup_from [] values

unfoldable pub split_segments : String → List String
split_segments v =
    if is_blank v
    then []
    else keep (λ part. not (part == "")) (map trim (split_on (λ c. eqb c b'|') v))

-- The full-width semicolon is U+FF1B.
abbrev is_segment_end : ℕ → Bool
is_segment_end c = eqb c b'|' || eqb c 0xff1b || eqb c b';' || eqb c 10

unfoldable pub split_text_segments : String → List String
unfolding dedup
split_text_segments v = if is_blank v then [] else dedup (fields_func is_segment_end v)

unfoldable pub append_persona_text : String → List String → String
unfolding dedup split_text_segments
append_persona_text base adds = join "；" (dedup (split_text_segments base ++ adds))

-- Trimmed, not empty, not seen before, and distinct.
abbrev pub IsClean : List String → List String → Type 0
IsClean seen [] = Unit
IsClean seen (x ∷ xs) =
    (trim x ≡ x) × ((x == "") ≡ false) × (member x seen ≡ false) × IsClean (x ∷ seen) xs

dedup_from-IsClean : (seen values : List String) → IsClean seen (dedup_from seen values)
unfolding dedup_from
dedup_from-IsClean seen [] = tt
dedup_from-IsClean seen (value ∷ values) = ground (
  arith,
  dedup_from-IsClean seen values,
  dedup_from-IsClean (trim value ∷ seen) values,
  trim_idem value,
)

dedup_from_clean : (seen xs : List String) → IsClean seen xs → dedup_from seen xs ≡ xs
unfolding dedup_from
dedup_from_clean seen [] h = refl
dedup_from_clean seen (x ∷ xs) h =
    simp (h.0, h.1, h.2) (ap (◌∷◌ x) (dedup_from_clean (x ∷ seen) xs h.3))

abbrev pub holds : String → List String → Bool
holds x values = any (λ v. trim v == x) values

member-dedup_from :
    (x : String) (seen values : List String)
    → member x (dedup_from seen values) ≡ (holds x values && not (x == "") && not (member x seen))
unfolding dedup_from member
member-dedup_from x seen [] = refl
member-dedup_from x seen (value ∷ values) = ground (
  arith,
  member-dedup_from x seen values,
  member-dedup_from x (trim value ∷ seen) values,
  eq_iff (trim value) x,
)

-- dedup returns trimmed, non-empty and distinct texts; it holds exactly the non-empty texts that
-- some input value is after trimming; and applying it again changes nothing.
pub dedup_lem :
    (values : List String)
    → IsClean [] (dedup values)
      × ((x : String) → member x (dedup values) ≡ (holds x values && not (x == "")))
      × (dedup (dedup values) ≡ dedup values)
unfolding dedup
dedup_lem values = (
  dedup_from-IsClean [] values,
  λ x. rw (member-dedup_from x [] values) (unfold member in and-true _),
  dedup_from_clean [] (dedup_from [] values) (dedup_from-IsClean [] values),
)

test_append : append_persona_text "a；b" (" b " ∷ "c" ∷ []) ≡ "a；b；c"
unfolding append_persona_text fields_func trim member join
test_append = refl

test_split : split_segments " a || b" ≡ "a" ∷ "b" ∷ []
unfolding split_segments split_on trim
test_split = refl
