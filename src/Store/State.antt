-- ===== src/Store/State.antt =====
-- `Store` and `NewStore` of internal/store/store.go. The mutex is not modelled: every method holds
-- it from its first to its last access of the maps, so a method is one step.
use nukara.Base.{String, List, [], pos, true, Map, empty_map, put, ◌<>◌}
use nukara.Store.Types.{
  Time, User, EmailCode, Bot, BotState, UserStatus, Message, Conversation, DeviceToken,
  NotificationSettings, ProactiveLog, EmotionContext, Directive, Metrics, PresenceState,
}
use nukara.Store.AgentTypes.{
  AgentTurn, ConversationCompact, MemoryItem, BotRuntimeState, PersonaChangeEvent, ProviderSetting,
  TemporalMemoryNode, TemporalMemoryEdge, MemoryCard, ActivationTrace,
}
use nukara.Store.Notifications.{normalize_notification_settings, default_proactive_interval_minutes}

pub record Store : Type 0 where
  pub users_by_email : Map User
  pub users_by_id : Map User
  pub email_codes : Map EmailCode
  pub bots_by_id : Map Bot
  pub bots_by_user : Map (List String)
  pub bot_states_by_key : Map BotState
  pub conversations_by_id : Map Conversation
  pub conversations_by_user : Map (List String)
  pub messages_by_conv : Map (List Message)
  pub device_token_by_user : Map DeviceToken
  pub notif_by_user : Map NotificationSettings
  pub user_status_by_user : Map UserStatus
  pub proactive_logs : List ProactiveLog
  pub directives_by_bot : Map (List Directive)
  pub emotion_buffers : Map (List String)
  pub emotion_ctxs : Map EmotionContext
  pub presence_by_user : Map PresenceState
  pub user_provider_settings : Map ProviderSetting
  pub bot_provider_overrides : Map ProviderSetting
  pub system_settings : Map String
  pub agent_turns_by_id : Map AgentTurn
  pub compacts_by_conv : Map ConversationCompact
  pub memory_items_by_id : Map MemoryItem
  pub memory_nodes_by_id : Map TemporalMemoryNode
  pub memory_edges_by_id : Map TemporalMemoryEdge
  pub memory_cards_by_id : Map MemoryCard
  pub activation_traces_by_id : Map ActivationTrace
  pub runtime_states_by_key : Map BotRuntimeState
  pub persona_change_events_by_id : Map PersonaChangeEvent
  pub metrics : Metrics

-- userID + ":" + botID
abbrev pub pair_key : String → String → String
pair_key user_id bot_id = user_id <> (":" <> bot_id)

-- `now` and `later` are the two readings of the clock.
unfoldable pub new_store : Time → Time → Store
unfolding empty_map put
new_store now later = record {
  users_by_email = put empty_map "tester@nukara.local" dev_user;
  users_by_id = put empty_map "dev-user-tester" dev_user;
  email_codes = empty_map;
  bots_by_id = empty_map;
  bots_by_user = empty_map;
  bot_states_by_key = empty_map;
  conversations_by_id = empty_map;
  conversations_by_user = empty_map;
  messages_by_conv = empty_map;
  device_token_by_user = empty_map;
  notif_by_user = put empty_map "dev-user-tester" (normalize_notification_settings dev_settings);
  user_status_by_user = empty_map;
  proactive_logs = [];
  directives_by_bot = empty_map;
  emotion_buffers = empty_map;
  emotion_ctxs = empty_map;
  presence_by_user = empty_map;
  user_provider_settings = empty_map;
  bot_provider_overrides = empty_map;
  system_settings = settings;
  agent_turns_by_id = empty_map;
  compacts_by_conv = empty_map;
  memory_items_by_id = empty_map;
  memory_nodes_by_id = empty_map;
  memory_edges_by_id = empty_map;
  memory_cards_by_id = empty_map;
  activation_traces_by_id = empty_map;
  runtime_states_by_key = empty_map;
  persona_change_events_by_id = empty_map;
  metrics = record {
    requests_total = pos 0;
    active_ws_connections = pos 0;
    proactive_sent_total = pos 0;
  };
}
  where
    dev_user : User
    dev_user = record {
      id = "dev-user-tester";
      email = "tester@nukara.local";
      nickname = "测试用户";
      avatar = "";
      created_at = now;
    }

    dev_settings : NotificationSettings
    dev_settings = record {
      user_id = "dev-user-tester";
      proactive_enabled = true;
      dnd_start = "";
      dnd_end = "";
      proactive_interval_minutes = pos default_proactive_interval_minutes;
      frequency = "";
      updated_at = later;
    }

    settings : Map String
    settings =
        put
          (put
            (put
              (put
                (put (put empty_map "default_chat_provider_id" "minimax_m2_5") "default_chat_model"
                  "MiniMax-M2.5")
                "embedding_provider_id" "minimax_m2_5")
              "embedding_model" "MiniMax-M2.5")
            "embedding_base_url" "")
          "embedding_api_key" ""
