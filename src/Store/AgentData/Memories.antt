-- ===== src/Store/AgentData/Memories.antt =====
-- The memory items of internal/store/agentx_data.go.
use nukara.Base.{
  String, Bool, ◌==◌, ◌&&◌, ◌||◌, Option, none, some, if◌then◌else◌, ℤ, eqb_int, ltb_int,
  positive_or, trim, is_blank, equal_fold, get, put, values, List, keep, take, sort_by,
}
use nukara.Store.Types.{Time, after, is_zero}
use nukara.Store.AgentTypes.{MemoryItem}
use nukara.Store.State.{Store}

-- `CreatedAt`: the clock for a new id, the stored reading for a known one, else what the caller gave.
unfoldable pub created_at_for : Store → Time → MemoryItem → Time
created_at_for s now item =
    if is_blank item.id then now else elim (get s.memory_items_by_id item.id) [
      | none ↦ item.created_at
      | some existing ↦ existing.created_at
    ]

unfoldable pub upsert_memory_item : Store → Time → String → MemoryItem → Store × Option MemoryItem
unfolding created_at_for
upsert_memory_item s now id item =
    let saved = record item {
      id = if is_blank item.id then id else item.id;
      created_at = created_at_for s now item;
      occurred_at = if is_zero item.occurred_at then now else item.occurred_at;
      status = if is_blank item.status then "active" else item.status;
      kind = trim item.kind;
      owner = trim item.owner;
      content = trim item.content;
      semantic_category = trim item.semantic_category;
      stability = trim item.stability;
      updated_at = now;
    } in
    if (is_blank item.user_id || is_blank item.bot_id) || is_blank item.content
    then (s, none)
    else (record s { memory_items_by_id = put s.memory_items_by_id saved.id saved }, some saved)

unfoldable pub get_memory_item : Store → String → Option MemoryItem
get_memory_item s memory_id = get s.memory_items_by_id (trim memory_id)

unfoldable pub more_important : MemoryItem → MemoryItem → Bool
more_important a b =
    if eqb_int a.importance b.importance
    then after a.occurred_at b.occurred_at
    else ltb_int b.importance a.importance

-- The two `continue` tests of ListMemoryItems, negated.
unfoldable pub is_listed_memory : String → String → MemoryItem → Bool
is_listed_memory user_id bot_id item =
    (trim item.user_id == trim user_id && trim item.bot_id == trim bot_id)
    && (is_blank item.status || equal_fold (trim item.status) "active")

unfoldable pub list_memory_items : Store → String → String → ℤ → List MemoryItem
unfolding more_important
list_memory_items s user_id bot_id limit =
    take (positive_or 20 limit) (
      sort_by more_important (keep (is_listed_memory user_id bot_id) (values s.memory_items_by_id)))
