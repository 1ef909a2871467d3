-- ===== src/Store/MemoryGraph/Laws.antt =====
-- What the memory nodes of internal/store/temporal_memory_graph.go keep.
use nukara.Base.{
  ◌≤◌, String, true, false, ◌==◌, ◌≡◌, Option, some, arith, get, delete, values, positive_or,
  length, All, trim, IsOrdered, listing_lem, is_nonpos,
}
use nukara.Store.Types.{CaseRules, Time}
use nukara.Store.AgentTypes.{TemporalMemoryNode, TemporalMemoryNodeFilter}
use nukara.Store.State.{Store}
use nukara.Store.MemoryGraph.Nodes.{
  get_memory_node, list_memory_nodes, is_listed_node, newer_node, lacks_fields, trimmed, inherit,
  settle,
}
use nukara.Store.MemoryGraph.Versions.{IsVersionOf}

newer_node-asymm : (a b : TemporalMemoryNode) → newer_node a b ≡ true → newer_node b a ≡ false
unfolding newer_node
newer_node-asymm a b h = ground arith

-- ListMemoryNodes returns at most `filter.Limit` nodes (20 for a limit that is not positive), all of
-- that user and bot and admitted by the filter, the latest occurrence first.
pub list_memory_nodes_lem :
    (rules : CaseRules) (s : Store) (u b : String) (filter : TemporalMemoryNodeFilter)
    → let out = list_memory_nodes rules s u b filter in
      (length out ≤ positive_or 20 filter.limit)
      × All (λ n. is_listed_node rules u b filter n ≡ true) out
      × IsOrdered newer_node out
unfolding list_memory_nodes
list_memory_nodes_lem rules s u b filter =
    listing_lem newer_node newer_node-asymm (is_listed_node rules u b filter)
      (positive_or 20 filter.limit) (values s.memory_nodes_by_id)

-- What a writer of nodes promises: the node that it returns is the one that GetMemoryNode finds, under
-- its identifier, from then on; all other nodes are as before; it has its required fields, a status and
-- at least one piece of evidence.
abbrev pub IsSaved : Store → Time → TemporalMemoryNode → Store × Option TemporalMemoryNode → Type 0
IsSaved s now node (t, r) =
    (out : TemporalMemoryNode) × (r ≡ some out)
    × (get_memory_node t out.id ≡ some out)
    × (lacks_fields out ≡ false)
    × ((out.status == "") ≡ false)
    × (is_nonpos out.evidence_count ≡ false)
    × (delete t.memory_nodes_by_id out.id ≡ delete s.memory_nodes_by_id out.id)
    × IsVersionOf node (get s.memory_nodes_by_id (trim node.id)) now out

-- The node that UpdateMemoryNode stores.
abbrev stored : Store → Time → TemporalMemoryNode → TemporalMemoryNode
stored s now node = settle now (
    inherit (get s.memory_nodes_by_id (trim node.id)) (record (trimmed node) { id = trim node.id }))
