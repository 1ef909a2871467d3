-- ===== src/Store/AgentData/Laws.antt =====
-- What UpsertMemoryItem of internal/store/agentx_data.go keeps.
use nukara.Base.{
  String, true, false, ◌||◌, ◌≡◌, refl, sym, ◌∙◌, ap, some, put, get-put_at, if◌then◌else◌, trim,
  is_blank,
}
use nukara.Store.Types.{Time, is_zero}
use nukara.Store.AgentTypes.{MemoryItem}
use nukara.Store.State.{Store}
use nukara.Store.AgentData.Memories.{upsert_memory_item, get_memory_item, created_at_for}

-- The item as UpsertMemoryItem stores it.
abbrev stored : Store → Time → String → MemoryItem → MemoryItem
stored s now id item = record item {
  id = if is_blank item.id then id else item.id;
  created_at = created_at_for s now item;
  occurred_at = if is_zero item.occurred_at then now else item.occurred_at;
  status = if is_blank item.status then "active" else item.status;
  kind = trim item.kind;
  owner = trim item.owner;
  content = trim item.content;
  semantic_category = trim item.semantic_category;
  stability = trim item.stability;
  updated_at = now;
}

abbrev pub IsComplete : MemoryItem → Type 0
IsComplete item = ((is_blank item.user_id || is_blank item.bot_id) || is_blank item.content) ≡ false

abbrev with_item : Store → MemoryItem → Store
with_item s saved = record s { memory_items_by_id = put s.memory_items_by_id saved.id saved }

upsert-stores :
    (s : Store) (now : Time) (id : String) (item : MemoryItem)
    → IsComplete item
    → let x = stored s now id item in upsert_memory_item s now id item ≡ (with_item s x, some x)
unfolding upsert_memory_item
upsert-stores s now id item full = rw (full, upsert_memory_item) refl

id_of :
    (t : Store) (later : Time) (other : String) (again : MemoryItem) (id : String)
    → again.id ≡ id
    → is_blank id ≡ false
    → (stored t later other again).id ≡ id
id_of t later other again id same named = rw (ap is_blank same, named) same

id_new :
    (s : Store) (now : Time) (id : String) (item : MemoryItem)
    → is_blank item.id ≡ true
    → (stored s now id item).id ≡ id
id_new s now id item new = rw new refl

at_creation :
    (s : Store) (now : Time) (item : MemoryItem)
    → is_blank item.id ≡ true
    → created_at_for s now item ≡ now
unfolding created_at_for
at_creation s now item new = rw new refl

created-kept :
    (s : Store) (now later : Time) (id : String) (again x : MemoryItem)
    → x.id ≡ id
    → x.created_at ≡ now
    → is_blank id ≡ false
    → again.id ≡ id
    → created_at_for (with_item s x) later again ≡ now
unfolding created_at_for
created-kept s now later id again x e c named same =
    rw (ap is_blank same, named, get-put_at s.memory_items_by_id x.id again.id x (same ∙ sym e)) c

-- A memory item that is saved under a new identifier and then saved again under it keeps the time of
-- its creation, carries that of the second call, and is what GetMemoryItem then finds: for an
-- identifier that NewID gives (without space around it) and items with their required fields.
pub upsert_memory_item_twice :
    (s : Store) (now later : Time) (id other : String) (item again : MemoryItem)
    → IsComplete item
    → IsComplete again
    → is_blank item.id ≡ true
    → is_blank id ≡ false
    → trim id ≡ id
    → again.id ≡ id
    → let t = (upsert_memory_item s now id item).0 in
      let (v, r) = upsert_memory_item t later other again in
      (out : MemoryItem) × (r ≡ some out)
      × (get_memory_item v id ≡ some out)
      × (out.created_at ≡ now)
      × (out.updated_at ≡ later)
      × (out.content ≡ trim again.content)
unfolding get_memory_item created_at_for
upsert_memory_item_twice s now later id other item again full full2 new named clean same =
    let x = stored s now id item in
    let t = with_item s x in
    let y = stored t later other again in
    rw (upsert-stores s now id item full) (
      rw (upsert-stores t later other again full2) (
        y,
        refl,
        get-put_at t.memory_items_by_id y.id (trim id) y
            (clean ∙ sym (id_of t later other again id same named)),
        created-kept s now later id again x (id_new s now id item new) (at_creation s now item new)
            named same,
        refl,
        refl,
      ))
