-- ===== src/Store/Types.antt =====
-- The records of internal/store/store.go, agentx_data.go and temporal_memory_graph.go.
-- A `time.Time` is the number of nanoseconds since its zero value; a float64 is its bit pattern.
use nukara.Base.{ℕ, String, Bool, List, Option, eqb, ℤ, ltb}

abbrev pub Time : Type 0
Time = ℕ

-- `t.IsZero()`
abbrev pub is_zero : Time → Bool
is_zero t = eqb t 0

-- `t.After(u)`
abbrev pub after : Time → Time → Bool
after t u = ltb u t

abbrev pub Float64 : Type 0
Float64 = ℕ

pub record User : Type 0 where
  pub id : String
  pub email : String
  pub nickname : String
  pub avatar : String
  pub created_at : Time

pub record EmailCode : Type 0 where
  pub email : String
  pub purpose : String
  pub code : String
  pub created_at : Time
  pub expires_at : Time

pub record Bot : Type 0 where
  pub id : String
  pub user_id : String
  pub name : String
  pub identity : String
  pub personality : List String
  pub expression_style : String
  pub life_context : String
  pub taboos_and_preferences : String
  pub avatar : String
  pub avatar_base64 : String
  pub summary : String
  pub relationship : String
  pub role : String
  pub self_cognition : List String
  pub persona_prompt : String
  pub persona_version : ℤ
  pub speaking_style : String
  pub background : String
  pub traits : List String
  pub gender : String
  pub chat_background_style : String
  pub created_at : Time
  pub updated_at : Time

pub record BotState : Type 0 where
  pub user_id : String
  pub bot_id : String
  pub status_emoji : String
  pub status_text : String
  pub turn_count : ℤ
  pub updated_at : Time

pub record UserStatus : Type 0 where
  pub user_id : String
  pub emoji : String
  pub text : String
  pub updated_at : Time

pub record MessageContent : Type 0 where
  pub content_type : String
  pub text : String
  pub image_base64 : String
  pub latitude : Option Float64
  pub longitude : Option Float64
  pub name : String

pub record Message : Type 0 where
  pub id : String
  pub conversation_id : String
  pub sender_type : String
  pub content_type : String
  pub content : MessageContent
  pub is_proactive : Bool
  pub emotion_tag : String
  pub reply_group_id : String
  pub sequence : ℤ
  pub created_at : Time

pub record Conversation : Type 0 where
  pub id : String
  pub user_id : String
  pub bot_id : String
  pub bot_name : String
  pub bot_avatar : String
  pub bot_avatar_base64 : String
  pub last_message : String
  pub last_message_at : Time
  pub unread_count : ℤ
  pub is_proactive_message : Bool

pub record DeviceToken : Type 0 where
  pub user_id : String
  pub token : String
  pub platform : String
  pub updated_at : Time

pub record NotificationSettings : Type 0 where
  pub user_id : String
  pub proactive_enabled : Bool
  pub dnd_start : String
  pub dnd_end : String
  pub proactive_interval_minutes : ℤ
  pub frequency : String
  pub updated_at : Time

pub record ProactiveLog : Type 0 where
  pub id : String
  pub user_id : String
  pub conversation_id : String
  pub bot_id : String
  pub trigger_type : String
  pub message : String
  pub sent_by_ws : Bool
  pub sent_by_apns : Bool
  pub created_at : Time

pub record EmotionContext : Type 0 where
  pub recent_emotions : List String
  pub emotion_trend : String
  pub last_tone : String
  pub updated_at : Time

pub record Directive : Type 0 where
  pub id : String
  pub user_id : String
  pub bot_id : String
  pub content : String
  pub category : String
  pub source : String
  pub status : String
  pub original_message : String
  pub created_at : Time
  pub updated_at : Time

pub record Metrics : Type 0 where
  pub requests_total : ℤ
  pub active_ws_connections : ℤ
  pub proactive_sent_total : ℤ

pub record PresenceState : Type 0 where
  pub ws_expires_at : Time
  pub last_user_msg_at : Time

pub record PersonaPatchInput : Type 0 where
  pub identity_adds : List String
  pub personality_adds : List String
  pub expression_style_adds : List String
  pub life_context_adds : List String
  pub taboos_and_preferences_adds : List String
  pub persona_prompt : String

-- strings.ToLower and strings.EqualFold on all of Unicode, as parameters; a text in lower case is the
-- list of its codes.
pub record CaseRules : Type 0 where
  pub to_lower : String → List ℕ
  pub same_fold : String → String → Bool
