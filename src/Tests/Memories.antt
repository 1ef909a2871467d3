-- ===== src/Tests/Memories.antt =====
-- The theorems on memory items, persona change events and memory nodes at concrete inputs.
use nukara.Base.{
  true, false, ◌≡◌, refl, none, some, List, [], ◌++◌, length, keep, values, min, pos, is_blank,
  trim,
}
use mathlib.Core.List.{Perm}
use nukara.Store.AgentTypes.{MemoryItem, TemporalMemoryNode, TemporalMemoryNodeFilter}
use nukara.Store.State.{Store}
use nukara.Store.AgentData.Memories.{upsert_memory_item, get_memory_item, list_memory_items}
use nukara.Store.AgentData.Laws.{IsComplete, upsert_memory_item_twice}
use nukara.Store.AgentData.Listings.{qualifies, IsRanked, list_memory_items_lem}
use nukara.Tests.Samples.{base}

abbrev likes : MemoryItem
likes = record {
  id = "";
  user_id = "u";
  bot_id = "b1";
  kind = "fact";
  owner = "user";
  content = "likes tea";
  importance = pos 5;
  occurred_at = 0;
  status = "";
  topics = [];
  semantic_category = "";
  stability = "";
  entities = [];
  relations = [];
  created_at = 0;
  updated_at = 0;
}

abbrev remembering : Store
remembering = (upsert_memory_item base 5 "i1" likes).0

list_memory_items_lem_example :
    let out = list_memory_items remembering "u" "b1" (pos 2) in
    let all = keep (qualifies "u" "b1") (values remembering.memory_items_by_id) in
    (rest : List MemoryItem) × Perm (out ++ rest) all
    × (length out ≡ min 2 (length all))
    × IsRanked (out ++ rest)
list_memory_items_lem_example = list_memory_items_lem remembering "u" "b1" (pos 2)

abbrev likes_more : MemoryItem
likes_more = record likes { id = "i1"; content = " likes green tea " }

likes-IsComplete : IsComplete likes
unfolding trim
likes-IsComplete = refl

likes_more-IsComplete : IsComplete likes_more
unfolding trim
likes_more-IsComplete = refl

no_id : is_blank "" ≡ true
unfolding trim
no_id = refl

id_named : is_blank "i1" ≡ false
unfolding trim
id_named = refl

id_clean : trim "i1" ≡ "i1"
unfolding trim
id_clean = refl

upsert_memory_item_twice_example :
    let t = (upsert_memory_item base 5 "i1" likes).0 in
    let (v, r) = upsert_memory_item t 8 "i2" likes_more in
    (out : MemoryItem) × (r ≡ some out)
    × (get_memory_item v "i1" ≡ some out)
    × (out.created_at ≡ 5)
    × (out.updated_at ≡ 8)
    × (out.content ≡ trim " likes green tea ")
upsert_memory_item_twice_example =
    upsert_memory_item_twice base 5 8 "i1" "i2" likes likes_more likes-IsComplete
      likes_more-IsComplete no_id id_named id_clean refl

abbrev pub event : TemporalMemoryNode
event = record {
  id = "n1";
  user_id = "u";
  bot_id = "b1";
  session_id = "";
  node_type = "event";
  title = "";
  summary = "went hiking";
  body_json = "";
  salience = 0;
  affect_weight = 0;
  confidence = 0;
  stability = 0;
  status = "";
  occurred_at = 0;
  observed_at = 0;
  valid_from = 0;
  valid_to = none;
  last_accessed_at = 0;
  source_turn_id = "";
  source_kind = "";
  semantic_category = "";
  stability_label = "";
  merge_key = "";
  evidence_count = pos 0;
  entities = [];
  created_at = 0;
  updated_at = 0;
}

abbrev everything : TemporalMemoryNodeFilter
everything = record { ids = []; node_types = []; session_id = ""; status = ""; limit = pos 4 }
