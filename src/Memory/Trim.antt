-- ===== src/Memory/Trim.antt =====
-- trimToRuneLimit, minInt and the helpers on nodes that the parts of internal/agentx/memorygraph share.
use Prim.Native.Char.{Char, code}
use Prim.Native.String.append
use nukara.Base.{
  ℕ, suc, ◌+◌, ◌-◌, ◌≤◌, String, Bool, ◌==◌, ◌||◌, ◌&&◌, if◌then◌else◌, leb, eqb, trim, trim_left,
  trim_right, close_right, is_space, rune_count, leb→le, ◌∙◌, ◌<◌, take_runes, take_runes-le, ◌<>◌,
  ◌≡◌, arith, Option, none, some, List, [], ◌∷◌, lower, codes_eq, Bool-cases, inl, inr, ap,
}
use nukara.Store.Types.{after}
use nukara.Store.AgentTypes.{TemporalMemoryNode}

-- A limit below zero behaves as zero does; no call passes one.
unfoldable pub trim_to_rune_limit : String → ℕ → String
trim_to_rune_limit value limit =
    let v = trim value in
    if eqb limit 0 || v == ""
    then ""
    else if leb (rune_count v) limit
    then v
    else if leb limit 1
    then take_runes limit v
    else take_runes (limit - 1) v <> "…"

pub rune_count-append : (s t : String) → rune_count (s <> t) ≡ rune_count s + rune_count t
unfolding rune_count
rune_count-append String.[] t = ap rune_count (append.nil t) ∙ omega arith
rune_count-append (String.◌∷◌ c s) t =
    ap rune_count (append.cons c s t) ∙ ap suc (rune_count-append s t) ∙ omega arith

trim_left-le : (s : String) → rune_count (trim_left s) ≤ rune_count s
unfolding trim_left rune_count
trim_left-le String.[] = omega arith
trim_left-le (String.◌∷◌ c s) = ground (arith, trim_left-le s)

close_right-le : (c : Char) (r : String) → rune_count (close_right c r) ≤ suc (rune_count r)
unfolding rune_count
close_right-le c String.[] = elim (Bool-cases (is_space (code c))) [
  | inl e ↦ rw e (omega arith)
  | inr e ↦ rw e (omega arith)
]
close_right-le c (String.◌∷◌ d s) = omega arith

trim_right-le : (s : String) → rune_count (trim_right s) ≤ rune_count s
unfolding trim_right rune_count
trim_right-le String.[] = omega arith
trim_right-le (String.◌∷◌ c s) = omega (arith, close_right-le c (trim_right s), trim_right-le s)

pub trim-le : (s : String) → rune_count (trim s) ≤ rune_count s
unfolding trim
trim-le s = omega (arith, trim_right-le (trim_left s), trim_left-le s)

-- The result has at most `limit` runes.
pub trim_to_rune_limit-le :
    (value : String) (limit : ℕ) → rune_count (trim_to_rune_limit value limit) ≤ limit
unfolding trim_to_rune_limit rune_count
trim_to_rune_limit-le value limit =
    let v = trim value in
    elim (Bool-cases (eqb limit 0 || v == "")) [
      | inl a ↦ rw (trim_to_rune_limit, a) (omega arith)
      | inr a ↦ elim (Bool-cases (leb (rune_count v) limit)) [
        | inl b ↦ rw (trim_to_rune_limit, a, b) (leb→le (rune_count v) limit b)
        | inr b ↦ elim (Bool-cases (leb limit 1)) [
          | inl c ↦ rw (trim_to_rune_limit, a, b, c) (take_runes-le limit v)
          | inr c ↦
              let sum : rune_count (take_runes (limit - 1) v <> "…")
                  ≡ rune_count (take_runes (limit - 1) v) + 1 =
                rune_count-append (take_runes (limit - 1) v) "…" in
              let few = take_runes-le (limit - 1) v in
              let big : 1 < limit = ground arith in
              rw (trim_to_rune_limit, a, b, c, sum) (omega (arith, few, big))
        ]
      ]
    ]

-- `strings.ToLower(strings.TrimSpace(node.NodeType)) == word`
abbrev pub has_type : String → TemporalMemoryNode → Bool
has_type word node = codes_eq (lower (trim node.node_type)) (lower word)

-- The order of latestNode: whether `node` replaces `best`.
abbrev pub later : TemporalMemoryNode → TemporalMemoryNode → Bool
later node best =
    after node.occurred_at best.occurred_at
    || (eqb node.occurred_at best.occurred_at && after node.updated_at best.updated_at)

unfoldable latest_from : TemporalMemoryNode → List TemporalMemoryNode → TemporalMemoryNode
latest_from best [] = best
latest_from best (node ∷ nodes) = latest_from (if later node best then node else best) nodes

unfoldable pub latest_node : List TemporalMemoryNode → Option TemporalMemoryNode
unfolding latest_from
latest_node [] = none
latest_node (node ∷ nodes) = some (latest_from node nodes)

-- Title or else summary, trimmed
abbrev pub label_of : TemporalMemoryNode → String
label_of node = let title = trim node.title in if title == "" then trim node.summary else title
