-- ===== src/Tests/Growths.antt =====
-- The theorems on the subtasks at one turn.
use nukara.Base.{
  ◌+◌, ◌≤◌, String, false, not, Option, none, some, List, [], ◌∷◌, All, length, is_empty, trim,
  member, lower, rune_count, pos, get, ◌≡◌, refl, inl, inr, arith,
}
use nukara.Store.Types.{Bot, Time}
use nukara.Store.AgentTypes.{MemoryItem}
use nukara.Persona.Risk.{contains}
use nukara.Subtasks.Extract.{
  RawItem, parse_memory_items, normalized_items, normalized_item, normalize_memory_kind,
  normalize_memory_status, normalize_semantic_category, normalize_memory_stability,
  infer_memory_importance, should_persist_memory, known,
}
use nukara.Subtasks.Normal.{IsNormal, parse_memory_items-IsNormal}
use nukara.Subtasks.Remember.{Input, Deps, Draws}
use nukara.Subtasks.Apply.{apply_decisions, start, apply_persona_decisions}
use nukara.Subtasks.Eligible.{fleeting_facts_spare}
use nukara.Subtasks.Growth.{version_counts_changes}
use nukara.Tests.Samples.{bots, bots_found, mia}

abbrev raw_item : RawItem
raw_item = record {
  memory_id = " i1 ";
  kind = "Habit ";
  owner = "bot";
  content = " 睡前看书半小时 ";
  importance = pos 0;
  occurred_at = "";
  status = "?";
  topics = [];
  semantic_category = "";
  stability = "";
  entities = [];
  relations = [];
}

abbrev no_time : String → Option Time
no_time text = none

abbrev decoded : String → Option (List RawItem)
decoded text = some (raw_item ∷ [])

abbrev read_item : MemoryItem
read_item = record {
  id = "i1";
  user_id = "";
  bot_id = "";
  kind = "habit";
  owner = "bot";
  content = "睡前看书半小时";
  importance = pos 70;
  occurred_at = 0;
  status = "active";
  topics = [];
  semantic_category = "expression_style";
  stability = "stable";
  entities = [];
  relations = [];
  created_at = 0;
  updated_at = 0;
}

reads : parse_memory_items no_time decoded "{}" ≡ some (read_item ∷ [])
unfolding parse_memory_items normalized_items normalized_item normalize_memory_kind
    normalize_memory_status normalize_semantic_category normalize_memory_stability
    infer_memory_importance should_persist_memory known contains trim lower rune_count member
reads = refl

parse_memory_items-IsNormal_example : All IsNormal (read_item ∷ [])
parse_memory_items-IsNormal_example =
    parse_memory_items-IsNormal no_time decoded "{}" (read_item ∷ []) reads

abbrev deps : Deps
deps = record {
  parse_time = no_time;
  unmarshal = decoded;
  to_lower = lower;
  is_mark = λ r. false;
  memory_tool = none;
  memory_extractor = some "{}";
  compact_updater = none;
  ingest_turn = λ s items text. s;
  self_cognition_updater = λ s bot changes. s;
}

abbrev draws : Draws
draws = record {
  occurred_at = λ n. 50;
  saved_at = λ n. 51;
  item_id = λ n. "i2";
  state_at = 52;
  compact_at = 53;
  applied_at = λ n. 54;
  event_at = λ n. 55;
  event_id = λ n. "e1";
}

abbrev input : Input
input = record { user_id = "u"; bot_id = "b1"; conversation_id = "c1"; turn_id = "t1" }

abbrev fleeting : MemoryItem
fleeting = record read_item { stability = "temporary" }

fleeting_facts_spare_example :
    let (t, result) = apply_persona_decisions deps draws input bots (fleeting ∷ []) in
    (t.bots_by_id ≡ bots.bots_by_id) × (result.persona_updated ≡ false)
fleeting_facts_spare_example =
    fleeting_facts_spare deps draws input bots (fleeting ∷ []) (inr (inl (unfold trim in refl)), tt)

version_counts_changes_example :
    let p = apply_decisions deps draws input 0 (start bots mia) (read_item ∷ []) in
    (out : Bot) × (get p.store.bots_by_id "b1" ≡ some out)
    × (out.user_id ≡ "u")
    × (out.persona_version ≡ pos (3 + length p.accepted_changes))
    × (p.persona_updated ≡ not (is_empty p.accepted_changes))
    × (length p.accepted_changes ≤ 1)
version_counts_changes_example =
    version_counts_changes deps draws input bots (read_item ∷ []) mia mia 3 bots_found refl refl
      (unfold trim in refl) (unfold trim in refl) (unfold trim in refl, tt) (omega arith)
