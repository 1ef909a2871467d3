-- ===== src/Subtasks/Remember.antt =====
-- applyMemory and updateRuntimeState of internal/agentx/subtasks/runner.go over the store. The
-- functions of RunnerDeps are parameters: an extractor or updater that is missing or fails is `none`,
-- an ingestion or summary that is missing or fails may return the store that it was given.
use nukara.Base.{
  ℕ, suc, String, Bool, not, ◌&&◌, if◌then◌else◌, trim, is_blank, take_runes, rune_count, leb,
  member, Option, none, some, List, [], ◌∷◌,
}
use nukara.Store.Types.{Time, Bot, is_zero}
use nukara.Store.AgentTypes.{MemoryItem, BotRuntimeState, PersonaChangeEvent}
use nukara.Store.State.{Store}
use nukara.Store.AgentData.Settings.{upsert_bot_runtime_state}
use nukara.Store.AgentData.Memories.{upsert_memory_item}
use nukara.Subtasks.Extract.{RawItem, parse_memory_items}

pub record Input : Type 0 where
  pub user_id : String
  pub bot_id : String
  pub conversation_id : String
  pub turn_id : String

pub record Deps : Type 0 where
  pub parse_time : String → Option Time
  pub unmarshal : String → Option (List RawItem)
  pub to_lower : String → List ℕ
  pub is_mark : ℕ → Bool
  pub memory_tool : Option (Store → MemoryItem → Store × Option MemoryItem)
  pub memory_extractor : Option String
  pub compact_updater : Option String
  pub ingest_turn : Store → List MemoryItem → String → Store
  pub self_cognition_updater : Store → Bot → List PersonaChangeEvent → Store

-- The readings of the clock and the identifiers for the nth item of a loop, and the other readings.
pub record Draws : Type 0 where
  pub occurred_at : ℕ → Time
  pub saved_at : ℕ → Time
  pub item_id : ℕ → String
  pub state_at : Time
  pub compact_at : Time
  pub applied_at : ℕ → Time
  pub event_at : ℕ → Time
  pub event_id : ℕ → String

abbrev pub prepared_item : Input → Time → MemoryItem → MemoryItem
prepared_item i now item = record item {
  content = if leb (rune_count item.content) 160 then item.content else take_runes 160 item.content;
  user_id = i.user_id;
  bot_id = i.bot_id;
  occurred_at = if is_zero item.occurred_at then now else item.occurred_at;
  status = if is_blank item.status then "active" else item.status;
}

abbrev pub save_item : Deps → Draws → ℕ → Store → MemoryItem → Store × Option MemoryItem
save_item deps d n s item = elim deps.memory_tool [
  | some save ↦ save s item
  | none ↦ upsert_memory_item s (d.saved_at n) (d.item_id n) item
]

-- The loop of applyMemory from the nth item on: an error keeps what was saved before it.
unfoldable pub save_items :
    Deps → Draws → Input → ℕ → Store → List MemoryItem → Store × Option (List MemoryItem)
save_items deps d i n s [] = (s, some [])
save_items deps d i n s (item ∷ items) =
    let (t, saved) = save_item deps d n s (prepared_item i (d.occurred_at n) item) in
    let (after, rest) = save_items deps d i (suc n) t items in
    let skipped = save_items deps d i (suc n) s items in
    let kept : Store × Option (List MemoryItem) = elim saved [
      | none ↦ (t, none)
      | some one ↦ (after, elim rest [ none ↦ none | some others ↦ some (one ∷ others) ])
    ] in
    if is_blank item.content then skipped else kept

unfoldable pub apply_memory :
    Deps → Draws → Input → Store → String → Store × Option (List MemoryItem)
apply_memory deps d i s raw = elim (parse_memory_items deps.parse_time deps.unmarshal raw) [
  | none ↦ (s, none)
  | some items ↦ save_items deps d i 0 s items
]

unfoldable pub should_use_for_runtime_state : MemoryItem → Bool
should_use_for_runtime_state item =
    member (trim item.kind) ("self_fact" ∷ "state_basis" ∷ "event" ∷ "habit" ∷ [])
    && not (is_blank item.content)

-- The item that the loop from the last index down to 0 stops at.
unfoldable pub last_usable : List MemoryItem → Option MemoryItem
last_usable [] = none
last_usable (item ∷ items) = elim (last_usable items) [
  | some found ↦ some found
  | none ↦ if should_use_for_runtime_state item then some item else none
]

abbrev pub state_of : Input → MemoryItem → BotRuntimeState
state_of i item = record {
  user_id = i.user_id;
  bot_id = i.bot_id;
  activity_text = trim item.content;
  basis_tags = item.kind ∷ [];
  source_memory_ids = item.id ∷ [];
  updated_at = item.occurred_at;
}

unfoldable pub update_runtime_state : Store → Time → List MemoryItem → Input → Store
update_runtime_state s now items i = elim (last_usable items) [
  | none ↦ s
  | some item ↦ (upsert_bot_runtime_state s now (state_of i item)).0
]
