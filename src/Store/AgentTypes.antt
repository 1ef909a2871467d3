-- ===== src/Store/AgentTypes.antt =====
-- The records of internal/store/agentx_data.go, provider.go and temporal_memory_graph.go.
use nukara.Base.{String, Bool, List, Option, ℤ}
use nukara.Store.Types.{Time, Float64}

pub record AgentTurn : Type 0 where
  pub id : String
  pub user_id : String
  pub bot_id : String
  pub conversation_id : String
  pub user_message_ids : List String
  pub aggregated_user_text : String
  pub bot_reply_text : String
  pub created_at : Time

pub record ConversationCompact : Type 0 where
  pub conversation_id : String
  pub compact_json : String
  pub until_turn_id : String
  pub updated_at : Time

pub record Entity : Type 0 where
  pub id : String
  pub entity_type : String
  pub name : String
  pub role : String

pub record Relation : Type 0 where
  pub source_entity_id : String
  pub target_entity_id : String
  pub relation_type : String
  pub role_hint : String

pub record MemoryItem : Type 0 where
  pub id : String
  pub user_id : String
  pub bot_id : String
  pub kind : String
  pub owner : String
  pub content : String
  pub importance : ℤ
  pub occurred_at : Time
  pub status : String
  pub topics : List String
  pub semantic_category : String
  pub stability : String
  pub entities : List Entity
  pub relations : List Relation
  pub created_at : Time
  pub updated_at : Time

pub record BotRuntimeState : Type 0 where
  pub user_id : String
  pub bot_id : String
  pub activity_text : String
  pub basis_tags : List String
  pub source_memory_ids : List String
  pub updated_at : Time

pub record PersonaChangeEvent : Type 0 where
  pub id : String
  pub user_id : String
  pub bot_id : String
  pub field : String
  pub change_type : String
  pub proposed_value : String
  pub source_turn_id : String
  pub risk : String
  pub status : String
  pub reviewer_note : String
  pub created_at : Time
  pub updated_at : Time

pub record ProviderSetting : Type 0 where
  pub provider_id : String
  pub model : String

pub record Provider : Type 0 where
  pub id : String
  pub name : String
  pub api_key : String
  pub base_url : String
  pub api_mode : String
  pub models : List String
  pub is_active : Bool
  pub priority : ℤ
  pub created_at : Time
  pub updated_at : Time

pub record TemporalMemoryNode : Type 0 where
  pub id : String
  pub user_id : String
  pub bot_id : String
  pub session_id : String
  pub node_type : String
  pub title : String
  pub summary : String
  pub body_json : String
  pub salience : Float64
  pub affect_weight : Float64
  pub confidence : Float64
  pub stability : Float64
  pub status : String
  pub occurred_at : Time
  pub observed_at : Time
  pub valid_from : Time
  pub valid_to : Option Time
  pub last_accessed_at : Time
  pub source_turn_id : String
  pub source_kind : String
  pub semantic_category : String
  pub stability_label : String
  pub merge_key : String
  pub evidence_count : ℤ
  pub entities : List Entity
  pub created_at : Time
  pub updated_at : Time

pub record TemporalMemoryNodeFilter : Type 0 where
  pub ids : List String
  pub node_types : List String
  pub session_id : String
  pub status : String
  pub limit : ℤ

pub record TemporalMemoryEdge : Type 0 where
  pub id : String
  pub source_id : String
  pub target_id : String
  pub edge_type : String
  pub weight : Float64
  pub evidence_count : ℤ
  pub status : String
  pub created_at : Time
  pub updated_at : Time

pub record TemporalMemoryEdgeFilter : Type 0 where
  pub edge_types : List String
  pub status : String
  pub limit : ℤ

pub record MemoryCard : Type 0 where
  pub id : String
  pub user_id : String
  pub bot_id : String
  pub card_type : String
  pub text : String
  pub backing_node_ids : List String
  pub freshness_score : Float64
  pub created_at : Time
  pub updated_at : Time

pub record MemoryCardFilter : Type 0 where
  pub card_types : List String
  pub limit : ℤ

pub record ActivationTrace : Type 0 where
  pub id : String
  pub user_id : String
  pub bot_id : String
  pub conversation_id : String
  pub turn_id : String
  pub cue_json : String
  pub seed_node_ids : List String
  pub activated_node_ids : List String
  pub selected_card_ids : List String
  pub response_excerpt : String
  pub created_at : Time

pub record ActivationTraceFilter : Type 0 where
  pub conversation_id : String
  pub turn_id : String
  pub limit : ℤ
