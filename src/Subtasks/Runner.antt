-- ===== src/Subtasks/Runner.antt =====
-- Run of internal/agentx/subtasks/runner.go over the store.
use nukara.Base.{String, ◌&&◌, if◌then◌else◌, is_blank, is_empty, none, some, List, []}
use nukara.Store.AgentTypes.{MemoryItem}
use nukara.Store.State.{Store}
use nukara.Store.AgentData.Settings.{upsert_compact}
use nukara.Subtasks.Remember.{Input, Deps, Draws, apply_memory, update_runtime_state}
use nukara.Subtasks.Apply.{RunResult, no_result, apply_persona_decisions}

-- The saved items of a turn, and the store after it.
abbrev pub extract : Deps → Draws → Input → Store → Store × List MemoryItem
extract deps d i s = elim deps.memory_extractor [
  | none ↦ (s, [])
  | some raw ↦
      let (t, saved) = apply_memory deps d i s raw in
      elim saved [
        | none ↦ (t, [])
        | some items ↦ (update_runtime_state t d.state_at items i, items)
      ]
]

-- The compact of a turn, "" where there is none, and the store after it.
abbrev pub compact : Deps → Draws → Input → Store → Store × String
compact deps d i s = elim deps.compact_updater [
  | none ↦ (s, "")
  | some text ↦
      if is_blank text
      then (s, "")
      else ((upsert_compact s d.compact_at i.conversation_id text i.turn_id).0, text)
]

unfoldable pub run : Deps → Draws → Input → Store → Store × RunResult
run deps d i s =
    let (t, items) = extract deps d i s in
    let (t', text) = compact deps d i t in
    let ingested = if is_empty items && is_blank text then t' else deps.ingest_turn t' items text in
    let decided = apply_persona_decisions deps d i ingested items in
    if is_empty items then (ingested, no_result) else decided
