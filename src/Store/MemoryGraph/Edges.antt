-- ===== src/Store/MemoryGraph/Edges.antt =====
-- CreateMemoryEdge and ListMemoryEdges.
use nukara.Base.{
  ◌*◌, ◌^◌, String, Bool, ◌==◌, ◌&&◌, ◌||◌, Option, none, some, if◌then◌else◌, positive_or, trim,
  is_blank, put, values, List, keep, take, sort_by, eqb, is_empty,
}
use nukara.Store.Types.{CaseRules, Time, Float64, after}
use nukara.Store.AgentTypes.{TemporalMemoryEdge, TemporalMemoryEdgeFilter}
use nukara.Store.State.{Store}
use nukara.Store.MemoryGraph.Filters.{to_lower_set, in_set, admits, status_or_any}
use nukara.Store.MemoryGraph.Nodes.{at_least_one}

-- `w == 0`: the bit patterns of 0 and -0.
abbrev is_zero_weight : Float64 → Bool
is_zero_weight w = eqb w 0 || eqb w (2 ^ 63)

-- The bit pattern of 1.0.
abbrev float_one : Float64
float_one = 1023 * 2 ^ 52

unfoldable pub create_memory_edge :
    Store → Time → String → TemporalMemoryEdge → Store × Option TemporalMemoryEdge
create_memory_edge s now id edge =
    let saved = record edge {
      id = if edge.id == "" then id else edge.id;
      source_id = trim edge.source_id;
      target_id = trim edge.target_id;
      edge_type = trim edge.edge_type;
      status = if is_blank edge.status then "active" else trim edge.status;
      weight = if is_zero_weight edge.weight then float_one else edge.weight;
      evidence_count = at_least_one edge.evidence_count;
      created_at = now;
      updated_at = now;
    } in
    if (is_blank edge.source_id || is_blank edge.target_id) || is_blank edge.edge_type
    then (s, none)
    else (record s { memory_edges_by_id = put s.memory_edges_by_id saved.id saved }, some saved)

unfoldable pub newer_edge : TemporalMemoryEdge → TemporalMemoryEdge → Bool
newer_edge a b =
    if eqb a.updated_at b.updated_at
    then after a.created_at b.created_at
    else after a.updated_at b.updated_at

-- The `continue` tests of ListMemoryEdges, negated.
unfoldable pub is_listed_edge :
    CaseRules → List String → TemporalMemoryEdgeFilter → TemporalMemoryEdge → Bool
unfolding to_lower_set
is_listed_edge rules node_ids filter edge =
    let nodes = to_lower_set rules node_ids in
    (is_empty nodes
      || (in_set (rules.to_lower edge.source_id) nodes
          || in_set (rules.to_lower edge.target_id) nodes))
    && (admits rules (to_lower_set rules filter.edge_types) (trim edge.edge_type)
        && status_or_any rules (trim filter.status) edge.status)

unfoldable pub list_memory_edges :
    CaseRules → Store → List String → TemporalMemoryEdgeFilter → List TemporalMemoryEdge
unfolding newer_edge is_listed_edge
list_memory_edges rules s node_ids filter =
    take (positive_or 20 filter.limit) (
      sort_by newer_edge
        (keep (is_listed_edge rules node_ids filter) (values s.memory_edges_by_id)))
