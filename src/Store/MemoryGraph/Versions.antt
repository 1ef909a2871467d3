-- ===== src/Store/MemoryGraph/Versions.antt =====
-- What the node that UpdateMemoryNode of internal/store/temporal_memory_graph.go stores has of the node
-- that was given and of the one that was stored before.
use nukara.Base.{
  eqb_iff, ◌≡◌, refl, Option, none, some, List, [], ◌∷◌, arith, if◌then◌else◌, pos, trim, is_blank,
  is_nonpos,
}
use nukara.Store.Types.{Time, is_zero}
use nukara.Store.AgentTypes.{TemporalMemoryNode}
use nukara.Store.MemoryGraph.Nodes.{trimmed, inherit, settle, time_or}

-- The first time that is set; 0 if none is.
abbrev pub first_set : List Time → Time
first_set [] = 0
first_set (t ∷ ts) = if is_zero t then first_set ts else t

-- A time of the node that was stored before, if there was one.
abbrev pub time_of : (TemporalMemoryNode → Time) → Option TemporalMemoryNode → Time
time_of at none = 0
time_of at (some old) = at old

-- `out` has the texts of `node`, trimmed, its other values, and its times; a time that is not set is
-- that of `old`, the node that was stored before, or else the reading of the clock.
abbrev pub IsVersionOf :
    TemporalMemoryNode → Option TemporalMemoryNode → Time → TemporalMemoryNode → Type 0
IsVersionOf node old now out =
    (out.id ≡ trim node.id)
    × (out.user_id ≡ trim node.user_id)
    × (out.bot_id ≡ trim node.bot_id)
    × (out.session_id ≡ trim node.session_id)
    × (out.node_type ≡ trim node.node_type)
    × (out.title ≡ trim node.title)
    × (out.summary ≡ trim node.summary)
    × (out.body_json ≡ node.body_json)
    × (out.salience ≡ node.salience)
    × (out.affect_weight ≡ node.affect_weight)
    × (out.confidence ≡ node.confidence)
    × (out.stability ≡ node.stability)
    × (out.status ≡ (if is_blank node.status then "active" else trim node.status))
    × (out.valid_to ≡ node.valid_to)
    × (out.last_accessed_at ≡ node.last_accessed_at)
    × (out.source_turn_id ≡ trim node.source_turn_id)
    × (out.source_kind ≡ trim node.source_kind)
    × (out.semantic_category ≡ trim node.semantic_category)
    × (out.stability_label ≡ trim node.stability_label)
    × (out.merge_key ≡ trim node.merge_key)
    × (out.entities ≡ node.entities)
    × (out.evidence_count ≡ (if is_nonpos node.evidence_count then pos 1 else node.evidence_count))
    × (out.created_at ≡ first_set (node.created_at ∷ time_of (λ n. n.created_at) old ∷ now ∷ []))
    × (out.occurred_at ≡ first_set (node.occurred_at ∷ time_of (λ n. n.occurred_at) old ∷ now ∷ []))
    × (out.observed_at ≡ first_set (node.observed_at ∷ time_of (λ n. n.observed_at) old ∷ now ∷ []))
    × (out.valid_from
        ≡ first_set (node.valid_from ∷ time_of (λ n. n.valid_from) old ∷ out.occurred_at ∷ []))
    × (out.updated_at ≡ now)

first_of_two :
    (now given old : Time) → time_or (time_or given old) now ≡ first_set (given ∷ old ∷ now ∷ [])
first_of_two now given old = ground (arith, eqb_iff given 0, eqb_iff old 0, eqb_iff now 0)

first_of_one : (now given : Time) → time_or given now ≡ first_set (given ∷ 0 ∷ now ∷ [])
first_of_one now given = ground (arith, eqb_iff given 0, eqb_iff now 0)

pub stored-IsVersionOf :
    (now : Time) (node : TemporalMemoryNode) (old : Option TemporalMemoryNode)
    → IsVersionOf node old now
        (settle now (inherit old (record (trimmed node) { id = trim node.id })))
unfolding settle inherit trimmed
stored-IsVersionOf now node none = (
  refl,
  refl,
  refl,
  refl,
  refl,
  refl,
  refl,
  refl,
  refl,
  refl,
  refl,
  refl,
  refl,
  refl,
  refl,
  refl,
  refl,
  refl,
  refl,
  refl,
  refl,
  refl,
  first_of_one now node.created_at,
  first_of_one now node.occurred_at,
  first_of_one now node.observed_at,
  first_of_one (time_or node.occurred_at now) node.valid_from,
  refl,
)
stored-IsVersionOf now node (some e) = (
  refl,
  refl,
  refl,
  refl,
  refl,
  refl,
  refl,
  refl,
  refl,
  refl,
  refl,
  refl,
  refl,
  refl,
  refl,
  refl,
  refl,
  refl,
  refl,
  refl,
  refl,
  refl,
  first_of_two now node.created_at e.created_at,
  first_of_two now node.occurred_at e.occurred_at,
  first_of_two now node.observed_at e.observed_at,
  first_of_two (time_or (time_or node.occurred_at e.occurred_at) now) node.valid_from e.valid_from,
  refl,
)
