-- ===== src/Subtasks/Normal.antt =====
-- The items that ParseMemoryItems returns are in normal form.
use nukara.Base.{
  String, Bool, eq_iff, lower, codes_eq, if◌then◌else◌, true, false, ◌==◌, trim, trim_idem, member,
  any, Option, none, some, List, [], ◌∷◌, All, is_nonpos, ◌≡◌, refl, sym, ◌∙◌, subst, arith,
  Bool-cases, Option-cases, or_right, inl, inr,
}
use nukara.Store.Types.{Time}
use nukara.Store.AgentTypes.{MemoryItem}
use nukara.Persona.Risk.{contains}
use nukara.Subtasks.Extract.{
  RawItem, known, known_or, memory_kinds, memory_statuses, semantic_categories, stabilities,
  normalize_memory_kind, normalize_memory_status, category_of, normalize_semantic_category,
  temporary_cues, normalize_memory_stability, infer_memory_importance, should_persist_memory,
  normalized_item, normalized_items, parse_memory_items, cut_object,
}

-- What the rest of the program relies on
abbrev pub IsNormal : MemoryItem → Type 0
IsNormal item =
    (member item.kind memory_kinds ≡ true)
    × (member item.status memory_statuses ≡ true)
    × (member item.semantic_category semantic_categories ≡ true)
    × (member item.stability stabilities ≡ true)
    × (is_nonpos item.importance ≡ false)
    × (trim item.content ≡ item.content)
    × ((item.content == "") ≡ false)

known-member :
    (names : List String) (raw name : String)
    → known names raw ≡ some name
    → member name names ≡ true
unfolding known member
known-member [] raw name e = ground arith
known-member (n ∷ names) raw name e = elim (Bool-cases (codes_eq (lower raw) (lower n))) [
  | inl f ↦
      let found : known (n ∷ names) raw ≡ some n = rw f refl in
      ground (arith, eq_iff n name, found, e)
  | inr f ↦
      let next : known (n ∷ names) raw ≡ known names raw = rw f refl in
      or_right (n == name) (member name names) (known-member names raw name (sym next ∙ e))
]

known_or-member :
    (names : List String) (default raw : String)
    → member default names ≡ true
    → member (known_or names default raw) names ≡ true
known_or-member names default raw h = elim (Option-cases (known names (trim raw))) [
  | inl e ↦ rw (known_or, e) h
  | inr (name, e) ↦ rw (known_or, e) (known-member names (trim raw) name e)
]

choice-member :
    (a b c d : Bool)
    → member
        (if a
          then "identity"
          else if b
          then "life_context"
          else if c
          then "expression_style"
          else if d
          then "relationship"
          else "life_context")
        semantic_categories
      ≡ true
unfolding member
choice-member true b c d = refl
choice-member false true c d = refl
choice-member false false true d = refl
choice-member false false false true = refl
choice-member false false false false = refl

category_of-member :
    (text kind : String) → member (category_of text kind) semantic_categories ≡ true
category_of-member text kind =
    choice-member (any (contains text) ("专业" ∷ "研究型" ∷ "不是纯金融" ∷ []))
      (any (contains text) ("猫" ∷ "爸妈" ∷ "父母" ∷ "住在" ∷ [])) (kind == "habit") (kind == "user_fact")

stability-member : (b : Bool) → member (if b then "temporary" else "stable") stabilities ≡ true
unfolding member
stability-member true = refl
stability-member false = refl

importance-positive :
    (kind category text : String) → is_nonpos (infer_memory_importance kind category text) ≡ false
unfolding infer_memory_importance
importance-positive kind category text = ground arith

normalized_item-IsNormal :
    (parse_time : String → Option Time) (raw : RawItem)
    → let item = normalized_item parse_time raw in
      should_persist_memory item.kind item.content ≡ true → IsNormal item
unfolding normalized_item
normalized_item-IsNormal parse_time raw kept =
    let content = trim raw.content in
    let kind = normalize_memory_kind raw.kind in
    let category = normalize_semantic_category raw.semantic_category content raw.kind in
    (
      unfold normalize_memory_kind in
          known_or-member memory_kinds "fact" raw.kind (unfold member in refl),
      unfold normalize_memory_status in
          known_or-member memory_statuses "active" raw.status (unfold member in refl),
      unfold normalize_semantic_category in
          known_or-member semantic_categories _ raw.semantic_category
            (category_of-member (trim content) (normalize_memory_kind raw.kind)),
      unfold normalize_memory_stability in
          known_or-member stabilities _ raw.stability
            (stability-member (any (contains content) temporary_cues)),
      ground (arith, importance-positive kind category content),
      trim_idem raw.content,
      not_blank content kind (trim_idem raw.content) kept,
    )
  where
    not_blank :
        (text kind : String)
        → trim text ≡ text
        → should_persist_memory kind text ≡ true
        → (text == "") ≡ false
    not_blank text kind e h = unfold should_persist_memory in ground arith

normalized_items-IsNormal :
    (parse_time : String → Option Time) (raws : List RawItem)
    → All IsNormal (normalized_items parse_time raws)
unfolding normalized_items
normalized_items-IsNormal parse_time [] = unfold normalized_items in tt
normalized_items-IsNormal parse_time (raw ∷ raws) =
    let item = normalized_item parse_time raw in
    let rest = normalized_items-IsNormal parse_time raws in
    elim (Bool-cases (should_persist_memory item.kind item.content)) [
      | inl e ↦ rw (normalized_items, e) (normalized_item-IsNormal parse_time raw e, rest)
      | inr e ↦ rw (normalized_items, e) rest
    ]

-- Whatever the two decoders yield: where ParseMemoryItems returns items, each of them has one of the
-- seven kinds, one of the five statuses, one of the six categories and one of the two stabilities,
-- its importance is positive, and its content is trimmed and not empty.
pub parse_memory_items-IsNormal :
    (parse_time : String → Option Time) (unmarshal : String → Option (List RawItem)) (raw : String)
    (items : List MemoryItem)
    → parse_memory_items parse_time unmarshal raw ≡ some items
    → All IsNormal items
unfolding parse_memory_items
parse_memory_items-IsNormal parse_time unmarshal raw items e =
    elim (Option-cases (unmarshal (cut_object raw))) [
      | inl f ↦
          let missing : parse_memory_items parse_time unmarshal raw ≡ none =
            rw (parse_memory_items, f) refl in
          ground (arith, missing, e)
      | inr (raws, f) ↦
          let found : parse_memory_items parse_time unmarshal raw
              ≡ some (normalized_items parse_time raws) =
            rw (parse_memory_items, f) refl in
          let same : normalized_items parse_time raws ≡ items = ground (arith, found, e) in
          subst (All IsNormal) same (normalized_items-IsNormal parse_time raws)
    ]
