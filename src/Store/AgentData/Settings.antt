-- ===== src/Store/AgentData/Settings.antt =====
-- Provider settings, turns, compacts and runtime states of internal/store/agentx_data.go.
use nukara.Base.{
  String, Bool, true, false, ◌||◌, Option, none, some, if◌then◌else◌, trim, is_blank, get, put,
}
use nukara.Store.Types.{Time, is_zero}
use nukara.Store.AgentTypes.{AgentTurn, ConversationCompact, BotRuntimeState, ProviderSetting}
use nukara.Store.State.{Store, pair_key}

abbrev provider_and_model : Option ProviderSetting → Option (String × String)
provider_and_model none = none
provider_and_model (some setting) = some (setting.provider_id, setting.model)

unfoldable pub set_user_provider_setting : Store → String → String → String → Store × Bool
set_user_provider_setting s user_id provider_id model =
    if is_blank user_id || is_blank provider_id then (s, false) else (
      record s {
        user_provider_settings =
            put s.user_provider_settings (trim user_id)
              (record { provider_id = trim provider_id; model = trim model });
      },
      true,
    )

unfoldable pub get_user_provider_setting : Store → String → Option (String × String)
get_user_provider_setting s user_id =
    provider_and_model (get s.user_provider_settings (trim user_id))

unfoldable pub set_bot_provider_override : Store → String → String → String → String → Store × Bool
set_bot_provider_override s user_id bot_id provider_id model =
    if (is_blank user_id || is_blank bot_id) || is_blank provider_id then (s, false) else (
      record s {
        bot_provider_overrides =
            put s.bot_provider_overrides (pair_key (trim user_id) (trim bot_id))
              (record { provider_id = trim provider_id; model = trim model });
      },
      true,
    )

unfoldable pub get_bot_provider_override : Store → String → String → Option (String × String)
get_bot_provider_override s user_id bot_id =
    provider_and_model (get s.bot_provider_overrides (pair_key (trim user_id) (trim bot_id)))

unfoldable pub set_system_setting : Store → String → String → Store × Bool
set_system_setting s key value =
    if is_blank key
    then (s, false)
    else (record s { system_settings = put s.system_settings (trim key) (trim value) }, true)

unfoldable pub get_system_setting : Store → String → Option String
get_system_setting s key = get s.system_settings (trim key)

unfoldable pub create_turn : Store → Time → String → AgentTurn → Store × Option AgentTurn
create_turn s now id turn =
    let saved = record turn { id = if is_blank turn.id then id else turn.id; created_at = now } in
    if (is_blank turn.user_id || is_blank turn.bot_id) || is_blank turn.conversation_id
    then (s, none)
    else (record s { agent_turns_by_id = put s.agent_turns_by_id saved.id saved }, some saved)

unfoldable pub upsert_compact : Store → Time → String → String → String → Store × Bool
upsert_compact s now conversation_id compact_json until_turn_id =
    if is_blank conversation_id then (s, false) else (
      record s {
        compacts_by_conv = put s.compacts_by_conv (trim conversation_id) (record {
          conversation_id = trim conversation_id;
          compact_json = trim compact_json;
          until_turn_id = trim until_turn_id;
          updated_at = now;
        });
      },
      true,
    )

unfoldable pub get_conversation_compact : Store → String → Option ConversationCompact
get_conversation_compact s conversation_id = get s.compacts_by_conv (trim conversation_id)

unfoldable pub upsert_bot_runtime_state :
    Store → Time → BotRuntimeState → Store × Option BotRuntimeState
upsert_bot_runtime_state s now state =
    let saved = record state {
      user_id = trim state.user_id;
      bot_id = trim state.bot_id;
      activity_text = trim state.activity_text;
      updated_at = if is_zero state.updated_at then now else state.updated_at;
    } in
    if (is_blank state.user_id || is_blank state.bot_id) || is_blank state.activity_text
    then (s, none)
    else (
      record s {
        runtime_states_by_key =
            put s.runtime_states_by_key (pair_key saved.user_id saved.bot_id) saved;
      },
      some saved,
    )

unfoldable pub get_bot_runtime_state : Store → String → String → Option BotRuntimeState
get_bot_runtime_state s user_id bot_id =
    get s.runtime_states_by_key (pair_key (trim user_id) (trim bot_id))
