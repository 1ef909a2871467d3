-- ===== src/Store/MemoryGraph/Nodes.antt =====
-- CreateMemoryNode, UpdateMemoryNode, GetMemoryNode and ListMemoryNodes.
use nukara.Base.{
  String, Bool, ◌==◌, ◌&&◌, ◌||◌, Option, none, some, if◌then◌else◌, ℤ, pos, is_nonpos, positive_or,
  trim, is_blank, get, put, values, List, keep, take, sort_by, eqb,
}
use nukara.Store.Types.{CaseRules, Time, is_zero, after}
use nukara.Store.AgentTypes.{TemporalMemoryNode, TemporalMemoryNodeFilter}
use nukara.Store.State.{Store}
use nukara.Store.MemoryGraph.Filters.{to_lower_set, admits, same_or_any, status_or_any}

abbrev pub time_or : Time → Time → Time
time_or t fallback = if is_zero t then fallback else t

abbrev pub at_least_one : ℤ → ℤ
at_least_one n = if is_nonpos n then pos 1 else n

-- The TrimSpace calls that both writers start with, less that of the ID.
unfoldable pub trimmed : TemporalMemoryNode → TemporalMemoryNode
trimmed node = record node {
  user_id = trim node.user_id;
  bot_id = trim node.bot_id;
  session_id = trim node.session_id;
  node_type = trim node.node_type;
  title = trim node.title;
  summary = trim node.summary;
  status = trim node.status;
  source_turn_id = trim node.source_turn_id;
  source_kind = trim node.source_kind;
  semantic_category = trim node.semantic_category;
  stability_label = trim node.stability_label;
  merge_key = trim node.merge_key;
}

abbrev pub lacks_fields : TemporalMemoryNode → Bool
lacks_fields node =
    ((is_blank node.user_id || is_blank node.bot_id) || is_blank node.node_type)
    || is_blank node.summary

-- The four time stamps that a stored node hands on to its update.
unfoldable pub inherit : Option TemporalMemoryNode → TemporalMemoryNode → TemporalMemoryNode
inherit none node = node
inherit (some existing) node = record node {
  created_at = time_or node.created_at existing.created_at;
  occurred_at = time_or node.occurred_at existing.occurred_at;
  observed_at = time_or node.observed_at existing.observed_at;
  valid_from = time_or node.valid_from existing.valid_from;
}

-- The defaults that UpdateMemoryNode sets after that.
unfoldable pub settle : Time → TemporalMemoryNode → TemporalMemoryNode
settle now node =
    let occurred = time_or node.occurred_at now in
    record node {
      status = if node.status == "" then "active" else node.status;
      evidence_count = at_least_one node.evidence_count;
      created_at = time_or node.created_at now;
      occurred_at = occurred;
      observed_at = time_or node.observed_at now;
      valid_from = time_or node.valid_from occurred;
      updated_at = now;
    }

unfoldable pub update_memory_node :
    Store → Time → TemporalMemoryNode → Store × Option TemporalMemoryNode
unfolding trimmed inherit settle
update_memory_node s now node =
    let id = trim node.id in
    let saved =
      settle now (inherit (get s.memory_nodes_by_id id) (record (trimmed node) { id = id })) in
    if id == "" || lacks_fields node
    then (s, none)
    else (record s { memory_nodes_by_id = put s.memory_nodes_by_id id saved }, some saved)

-- The node that CreateMemoryNode hands to UpdateMemoryNode.
unfoldable pub prepared : Time → String → TemporalMemoryNode → TemporalMemoryNode
unfolding trimmed
prepared now id node =
    let t = trimmed node in
    let occurred = time_or node.occurred_at now in
    record t {
      id = if node.id == "" then id else node.id;
      status = if t.status == "" then "active" else t.status;
      occurred_at = occurred;
      observed_at = time_or node.observed_at now;
      valid_from = time_or node.valid_from occurred;
      evidence_count = at_least_one node.evidence_count;
      created_at = now;
      updated_at = now;
    }

-- `later` is the reading that UpdateMemoryNode takes.
unfoldable pub create_memory_node :
    Store → Time → Time → String → TemporalMemoryNode → Store × Option TemporalMemoryNode
unfolding prepared
create_memory_node s now later id node =
    let updated = update_memory_node s later (prepared now id node) in
    if lacks_fields node then (s, none) else updated

unfoldable pub get_memory_node : Store → String → Option TemporalMemoryNode
get_memory_node s node_id = get s.memory_nodes_by_id (trim node_id)

unfoldable pub newer_node : TemporalMemoryNode → TemporalMemoryNode → Bool
newer_node a b =
    if eqb a.occurred_at b.occurred_at
    then after a.updated_at b.updated_at
    else after a.occurred_at b.occurred_at

-- The `continue` tests of ListMemoryNodes, negated.
unfoldable pub is_listed_node :
    CaseRules → String → String → TemporalMemoryNodeFilter → TemporalMemoryNode → Bool
unfolding to_lower_set
is_listed_node rules user_id bot_id filter node =
    (trim node.user_id == trim user_id && trim node.bot_id == trim bot_id)
    && (admits rules (to_lower_set rules filter.ids) (trim node.id)
        && (admits rules (to_lower_set rules filter.node_types) (trim node.node_type)
            && (same_or_any (trim filter.session_id) node.session_id
                && status_or_any rules (trim filter.status) node.status)))

unfoldable pub list_memory_nodes :
    CaseRules → Store → String → String → TemporalMemoryNodeFilter → List TemporalMemoryNode
unfolding newer_node is_listed_node
list_memory_nodes rules s user_id bot_id filter = take (positive_or 20 filter.limit) (
    sort_by newer_node
      (keep (is_listed_node rules user_id bot_id filter) (values s.memory_nodes_by_id)))
