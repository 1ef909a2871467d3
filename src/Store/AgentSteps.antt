-- ===== src/Store/AgentSteps.antt =====
-- The writing methods of internal/store/agentx_data.go and temporal_memory_graph.go as steps. They
-- leave the tables of users, bots and conversations alone.
use nukara.Base.{String, ◌≡◌, refl, arith, Bool-cases, inl, inr}
use nukara.Store.Types.{Time}
use nukara.Store.AgentTypes.{
  AgentTurn, MemoryItem, BotRuntimeState, PersonaChangeEvent, TemporalMemoryNode,
  TemporalMemoryEdge, MemoryCard, ActivationTrace,
}
use nukara.Store.State.{Store}
use nukara.Store.Tables.{tables}
use nukara.Store.AgentData.Settings.{
  set_user_provider_setting, set_bot_provider_override, set_system_setting, create_turn,
  upsert_compact, upsert_bot_runtime_state,
}
use nukara.Store.AgentData.Memories.{upsert_memory_item}
use nukara.Store.AgentData.Changes.{create_persona_change_event, update_persona_change_event_status}
use nukara.Store.MemoryGraph.Nodes.{create_memory_node, update_memory_node, lacks_fields, prepared}
use nukara.Store.MemoryGraph.Edges.{create_memory_edge}
use nukara.Store.MemoryGraph.Cards.{upsert_memory_card, save_activation_trace}

pub data AgentStep (s : Store) : Store → Type 0 where
  sets_provider : (u p m : String) → AgentStep s (set_user_provider_setting s u p m).0
  sets_override : (u b p m : String) → AgentStep s (set_bot_provider_override s u b p m).0
  sets_system : (k v : String) → AgentStep s (set_system_setting s k v).0
  creates_turn :
      (now : Time) (id : String) (turn : AgentTurn) → AgentStep s (create_turn s now id turn).0
  compacts : (now : Time) (c j t : String) → AgentStep s (upsert_compact s now c j t).0
  sets_runtime :
      (now : Time) (st : BotRuntimeState) → AgentStep s (upsert_bot_runtime_state s now st).0
  saves_item :
      (now : Time) (id : String) (i : MemoryItem) → AgentStep s (upsert_memory_item s now id i).0
  creates_event :
      (now : Time) (id : String) (e : PersonaChangeEvent)
      → AgentStep s (create_persona_change_event s now id e).0
  changes_event :
      (now : Time) (id status note : String)
      → AgentStep s (update_persona_change_event_status s now id status note).0
  creates_node :
      (now later : Time) (id : String) (n : TemporalMemoryNode)
      → AgentStep s (create_memory_node s now later id n).0
  updates_node : (now : Time) (n : TemporalMemoryNode) → AgentStep s (update_memory_node s now n).0
  creates_edge :
      (now : Time) (id : String) (e : TemporalMemoryEdge)
      → AgentStep s (create_memory_edge s now id e).0
  saves_card :
      (now : Time) (id : String) (c : MemoryCard) → AgentStep s (upsert_memory_card s now id c).0
  saves_trace :
      (now : Time) (id : String) (t : ActivationTrace)
      → AgentStep s (save_activation_trace s now id t).0

update_memory_node-tables :
    (s : Store) (now : Time) (n : TemporalMemoryNode)
    → tables (update_memory_node s now n).0 ≡ tables s
unfolding update_memory_node
update_memory_node-tables s now n = ground arith

create_memory_node-tables :
    (s : Store) (now later : Time) (id : String) (n : TemporalMemoryNode)
    → tables (create_memory_node s now later id n).0 ≡ tables s
unfolding create_memory_node
create_memory_node-tables s now later id n = elim (Bool-cases (lacks_fields n)) [
  | inl e ↦ rw (e, create_memory_node) refl
  | inr e ↦ rw (e, create_memory_node) (update_memory_node-tables s later (prepared now id n))
]

pub AgentStep-tables : {s t : Store} → AgentStep s t → tables t ≡ tables s
unfolding set_user_provider_setting set_bot_provider_override set_system_setting create_turn
    upsert_compact upsert_bot_runtime_state upsert_memory_item create_persona_change_event
    update_persona_change_event_status create_memory_edge upsert_memory_card save_activation_trace
AgentStep-tables (sets_provider u p m) = ground arith
AgentStep-tables (sets_override u b p m) = ground arith
AgentStep-tables (sets_system k v) = ground arith
AgentStep-tables (creates_turn now id turn) = ground arith
AgentStep-tables (compacts now c j t) = ground arith
AgentStep-tables (sets_runtime now st) = ground arith
AgentStep-tables (saves_item now id i) = ground arith
AgentStep-tables (creates_event now id e) = ground arith
AgentStep-tables (changes_event now id status note) = ground arith
AgentStep-tables {s} (creates_node now later id n) = create_memory_node-tables s now later id n
AgentStep-tables {s} (updates_node now n) = update_memory_node-tables s now n
AgentStep-tables (creates_edge now id e) = ground arith
AgentStep-tables (saves_card now id c) = ground arith
AgentStep-tables (saves_trace now id t) = ground arith
