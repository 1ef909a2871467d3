-- ===== src/Reply/Bounds.antt =====
-- SplitSegments of internal/agentx/postprocess/split.go ends, keeps within its bound, and loses no
-- rune but space.
use Prim.Native.Char.{code}
use nukara.Base.{
  append_nil, ℕ, zero, suc, ◌-◌, ◌/◌, ◌≤◌, ◌<◌, String, false, ◌==◌, leb, ltb, eqb, leb→le, trim,
  trim_idem, rune_count, take_runes, take_runes-le, ◌<>◌, List, [], ◌∷◌, ◌++◌, length, All,
  All-append, ◌≡◌, refl, ap, ap₂, ◌∙◌, sym, arith, ℤ, positive_or, positive_or-pos, some,
  Bool-cases, inl, inr,
}
use nukara.Memory.Trim.{trim-le}
use nukara.Reply.Split.{
  compact_segments, ends_sentence, split_by_explicit_protocol, split_segments, sentences_from,
  split_by_sentence, drop_runes, find_cut, cut_long, split_long_by_max_runes, cut_sentences,
  split_plain, add_segment,
}
use nukara.Reply.Visible.{
  visible, visible-trim, visible-cut, all_visible, all_visible-append, visible-blank, visible-empty,
  visible-move, all_visible-compact_segments,
}

find_cut-bounds : (runes : String) (half cut i : ℕ) → 0 < cut → (0 < find_cut runes half cut i)
unfolding find_cut
find_cut-bounds runes half cut zero h = h
find_cut-bounds runes half cut (suc i) h = ground (arith, find_cut-bounds runes half cut i h)

find_cut-le : (runes : String) (half cut i : ℕ) → i ≤ cut → find_cut runes half cut i ≤ cut
unfolding find_cut
find_cut-le runes half cut zero h = omega arith
find_cut-le runes half cut (suc i) h = ground (arith, find_cut-le runes half cut i)

rune_count-drop_runes : (n : ℕ) (s : String) → rune_count (drop_runes n s) ≡ rune_count s - n
unfolding rune_count drop_runes
rune_count-drop_runes zero s = omega arith
rune_count-drop_runes (suc n) String.[] = omega arith
rune_count-drop_runes (suc n) (String.◌∷◌ c s) = omega (arith, rune_count-drop_runes n s)

-- The text is cut into `out`: no segment is longer than `max_runes`, and nothing visible is lost.
abbrev IsCut : ℕ → List ℕ → List String → Type 0
IsCut max_runes shown out = All (λ s. rune_count s ≤ max_runes) out × (all_visible out ≡ shown)

cut_long-IsCut :
    (fuel : ℕ) (runes : String) (max_runes : ℕ)
    → 0 < max_runes
    → rune_count runes < fuel
    → (out : List String) × (cut_long fuel runes max_runes ≡ some out)
      × IsCut max_runes (visible runes) out
unfolding cut_long all_visible
cut_long-IsCut zero runes max_runes h k = absurd (omega (arith, k))
cut_long-IsCut (suc fuel) runes max_runes h k =
    elim (Bool-cases (leb (rune_count runes) max_runes)) [
      | inl e ↦ elim (Bool-cases (eqb (rune_count runes) 0)) [
        | inl f ↦ ([], rw (cut_long, e, f) refl, (tt, sym (visible-empty runes (ground arith))))
        | inr f ↦ (
          trim runes ∷ [],
          rw (cut_long, e, f) refl,
          (
            (omega (arith, trim-le runes, leb→le (rune_count runes) max_runes e), tt),
            append_nil (visible (trim runes)) ∙ visible-trim runes,
          ),
        )
      ]
      | inr e ↦
          let cut = find_cut runes (max_runes / 2) max_runes max_runes in
          let some_cut = find_cut-bounds runes (max_runes / 2) max_runes max_runes h in
          let rest = drop_runes cut runes in
          let long : max_runes < rune_count runes = ground arith in
          let (out, e', (all, shown)) =
            cut_long-IsCut fuel rest max_runes h
              (omega (arith, rune_count-drop_runes cut runes, some_cut, k, long)) in
          (
            trim (take_runes cut runes) ∷ out,
            rw (cut_long, e, e') refl,
            (
              (
                omega (
                  arith,
                  trim-le (take_runes cut runes),
                  take_runes-le cut runes,
                  find_cut-le runes (max_runes / 2) max_runes max_runes (omega arith),
                ),
                all,
              ),
              ap₂ (◌++◌) (visible-trim (take_runes cut runes)) shown ∙ visible-cut cut runes,
            ),
          )
    ]

pub split_long-IsCut :
    (text : String) (max_runes : ℕ)
    → 0 < max_runes
    → (out : List String) × (split_long_by_max_runes text max_runes ≡ some out)
      × IsCut max_runes (visible text) out
unfolding split_long_by_max_runes all_visible
split_long-IsCut text max_runes h = elim (Bool-cases (leb (rune_count text) max_runes)) [
  | inl e ↦ (
    text ∷ [],
    rw (split_long_by_max_runes, e) refl,
    ((leb→le (rune_count text) max_runes e, tt), append_nil (visible text)),
  )
  | inr e ↦
      let (out, r, cut) = cut_long-IsCut (suc (rune_count text)) text max_runes h (omega arith) in
      (out, rw (split_long_by_max_runes, e) r, cut)
]

visible-add_segment :
    (segment : String) (segments : List String)
    → all_visible (add_segment segment segments) ≡ visible segment ++ all_visible segments
unfolding all_visible
visible-add_segment segment segments = elim (Bool-cases (trim segment == "")) [
  | inl e ↦ rw (e, visible-blank segment e) refl
  | inr e ↦ rw e (ap (λ l. l ++ all_visible segments) (visible-trim segment))
]

visible-sentences_from :
    (buf text : String) → all_visible (sentences_from buf text) ≡ visible buf ++ visible text
unfolding sentences_from all_visible visible
visible-sentences_from buf String.[] = visible-add_segment buf []
visible-sentences_from buf (String.◌∷◌ c text) =
    let buf' = buf <> String.◌∷◌ c "" in
    elim (Bool-cases (ends_sentence (code c))) [
      | inl e ↦
          rw (sentences_from, e)
            (visible-add_segment buf' (sentences_from "" text)
              ∙ ap (◌++◌ (visible buf')) (visible-sentences_from "" text)
              ∙ visible-move buf c text)
      | inr e ↦ rw (sentences_from, e) (visible-sentences_from buf' text ∙ visible-move buf c text)
    ]

cut_sentences-IsCut :
    (max_runes : ℕ) (sentences : List String)
    → 0 < max_runes
    → (out : List String) × (cut_sentences max_runes sentences ≡ some out)
      × IsCut max_runes (all_visible sentences) out
unfolding cut_sentences all_visible
cut_sentences-IsCut max_runes [] h = ([], refl, (tt, refl))
cut_sentences-IsCut max_runes (s ∷ sentences) h =
    let (rest, r, (short, shown)) = cut_sentences-IsCut max_runes sentences h in
    elim (Bool-cases (leb (rune_count s) max_runes)) [
      | inl e ↦ (
        trim s ∷ rest,
        rw (cut_sentences, e, r) refl,
        (
          (omega (arith, trim-le s, leb→le (rune_count s) max_runes e), short),
          ap₂ (◌++◌) (visible-trim s) shown,
        ),
      )
      | inr e ↦
          let (first, f, (short', shown')) = split_long-IsCut s max_runes h in
          (
            first ++ rest,
            rw (cut_sentences, e, r, f) refl,
            (
              All-append (λ t. rune_count t ≤ max_runes) first rest short' short,
              all_visible-append first rest ∙ ap₂ (◌++◌) shown' shown,
            ),
          )
    ]

-- Trimmed and not empty
abbrev pub IsNeat : ℕ → String → Type 0
IsNeat max_runes s = (rune_count s ≤ max_runes) × (trim s ≡ s) × ((s == "") ≡ false)

compact_segments-IsNeat :
    (max_runes : ℕ) (xs : List String)
    → All (λ s. rune_count s ≤ max_runes) xs
    → All (IsNeat max_runes) (compact_segments xs)
unfolding compact_segments
compact_segments-IsNeat max_runes [] h = tt
compact_segments-IsNeat max_runes (x ∷ xs) h = elim (Bool-cases (trim x == "")) [
  | inl e ↦ rw (compact_segments, e) (compact_segments-IsNeat max_runes xs h.1)
  | inr e ↦
      rw (compact_segments, e)
        ((omega (arith, trim-le x, h.0), trim_idem x, e), compact_segments-IsNeat max_runes xs h.1)
]

-- Without the boundary token, a text that is trimmed and not empty is cut, for a positive bound, into
-- segments that are trimmed, not empty and no longer than the bound, and the segments show, in their
-- order, all runes of the text that are not space.
pub split_plain-IsNeat :
    (text : String) (max_runes : ℕ)
    → 0 < max_runes
    → trim text ≡ text
    → (text == "") ≡ false
    → (out : List String) × (split_plain text max_runes ≡ some out)
      × All (IsNeat max_runes) out
      × (all_visible out ≡ visible text)
unfolding split_plain split_by_sentence all_visible visible
split_plain-IsNeat text max_runes h trimmed full =
    let sentences = split_by_sentence text in
    elim (Bool-cases (ltb 1 (length sentences))) [
      | inl e ↦
          let (out, r, (short, shown)) = cut_sentences-IsCut max_runes sentences h in
          (
            compact_segments out,
            rw (split_plain, e, r) refl,
            compact_segments-IsNeat max_runes out short,
            all_visible-compact_segments out ∙ shown ∙ visible-sentences_from "" text,
          )
      | inr e ↦ elim (Bool-cases (leb (rune_count text) max_runes)) [
        | inl f ↦ (
          text ∷ [],
          rw (split_plain, e, f) refl,
          ((leb→le (rune_count text) max_runes f, trimmed, full), tt),
          append_nil (visible text),
        )
        | inr f ↦
            let (out, r, (short, shown)) = split_long-IsCut text max_runes h in
            (
              compact_segments out,
              rw (split_plain, e, f, r) refl,
              compact_segments-IsNeat max_runes out short,
              all_visible-compact_segments out ∙ shown,
            )
      ]
    ]

-- A reply without explicit boundaries is cut into segments that are trimmed, not empty and no longer
-- than the bound (180 for one that is not positive), and the segments show, in their order, all runes
-- of the reply that are not space. In particular the cutting ends.
pub split_segments-IsNeat :
    (raw : String) (max_runes : ℤ)
    → split_by_explicit_protocol (trim raw) ≡ []
    → (out : List String) × (split_segments raw max_runes ≡ some out)
      × All (IsNeat (positive_or 180 max_runes)) out
      × (all_visible out ≡ visible raw)
unfolding split_segments all_visible
split_segments-IsNeat raw max_runes plain = elim (Bool-cases (trim raw == "")) [
  | inl e ↦ ([], rw (split_segments, e) refl, tt, sym (visible-blank raw e))
  | inr e ↦
      let bound = positive_or 180 max_runes in
      let (out, r, neat, shown) =
        split_plain-IsNeat (trim raw) bound (positive_or-pos 180 max_runes (omega arith))
          (trim_idem raw) e in
      (out, rw (split_segments, e, plain) r, neat, shown ∙ visible-trim raw)
]
