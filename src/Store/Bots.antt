-- ===== src/Store/Bots.antt =====
-- Bots of internal/store/store.go: creation with the bot's first conversation, listing, lookup and
-- the persona updates. The clock readings and the two results of NewID are arguments.
pub mod Updates
pub mod Others
pub mod Additions
use nukara.Base.{
  ℕ, String, Bool, true, false, ◌==◌, ◌&&◌, ◌||◌, not, Option, none, some, if◌then◌else◌, ℤ, pos,
  is_nonpos, inc, trim, is_blank, is_empty, Map, get, put, get_or, List, [], ◌∷◌, ◌++◌, map, join,
  sort_by,
}
use nukara.Store.Types.{Time, after, Bot, BotState, Conversation, PersonaPatchInput}
use nukara.Store.Segments.{dedup, split_segments, append_persona_text}
use nukara.Store.Persona.{sync_legacy_persona_fields}
use nukara.Store.State.{Store, pair_key}

-- `Bot{}`
abbrev pub zero_bot : Bot
zero_bot = record {
  id = "";
  user_id = "";
  name = "";
  identity = "";
  personality = [];
  expression_style = "";
  life_context = "";
  taboos_and_preferences = "";
  avatar = "";
  avatar_base64 = "";
  summary = "";
  relationship = "";
  role = "";
  self_cognition = [];
  persona_prompt = "";
  persona_version = pos 0;
  speaking_style = "";
  background = "";
  traits = [];
  gender = "";
  chat_background_style = "";
  created_at = 0;
  updated_at = 0;
}

abbrev pub new_conversation :
    Time → String → String → String → String → String → String → Conversation
new_conversation now id user_id bot_id bot_name bot_avatar bot_avatar_base64 = record {
  id = id;
  user_id = user_id;
  bot_id = bot_id;
  bot_name = bot_name;
  bot_avatar = bot_avatar;
  bot_avatar_base64 = bot_avatar_base64;
  last_message = "";
  last_message_at = now;
  unread_count = pos 0;
  is_proactive_message = false;
}

-- The clock readings and the new ids of one call of CreateBot.
pub record Fresh : Type 0 where
  pub bot_id : String
  pub conv_id : String
  pub created : Time
  pub state_at : Time
  pub conv_at : Time

unfoldable pub new_bot : Fresh → String → Bot → Bot
new_bot f user_id bot =
    let b = sync_legacy_persona_fields bot in
    record b {
      id = f.bot_id;
      user_id = user_id;
      created_at = f.created;
      updated_at = f.created;
      chat_background_style =
          if b.chat_background_style == "" then "lightPaper" else b.chat_background_style;
      persona_version = if is_nonpos b.persona_version then pos 1 else b.persona_version;
    }

unfoldable pub create_bot : Store → Fresh → String → Bot → Store × Bot
create_bot s f user_id bot =
    let b = new_bot f user_id bot in
    let state : BotState = record {
      user_id = user_id;
      bot_id = f.bot_id;
      status_emoji = "🙂";
      status_text = "在线";
      turn_count = pos 0;
      updated_at = f.state_at;
    } in
    let conv =
      new_conversation f.conv_at f.conv_id user_id f.bot_id b.name b.avatar b.avatar_base64 in
    (
      record s {
        bots_by_id = put s.bots_by_id f.bot_id b;
        bots_by_user =
            put s.bots_by_user user_id (get_or s.bots_by_user user_id [] ++ f.bot_id ∷ []);
        bot_states_by_key = put s.bot_states_by_key (pair_key user_id f.bot_id) state;
        conversations_by_id = put s.conversations_by_id f.conv_id conv;
        conversations_by_user =
            put s.conversations_by_user user_id
              (get_or s.conversations_by_user user_id [] ++ f.conv_id ∷ []);
      },
      b,
    )

unfoldable pub list_bots : Store → String → List Bot
list_bots s user_id =
    sort_by (λ a b. after a.created_at b.created_at)
      (map (λ id. sync_legacy_persona_fields (get_or s.bots_by_id id zero_bot))
        (get_or s.bots_by_user user_id []))

-- `bot, ok := s.botsByID[botID]; if !ok || bot.UserID != userID { … }`
abbrev pub owned_bot : String → Option Bot → Option Bot
owned_bot user_id none = none
owned_bot user_id (some bot) = if bot.user_id == user_id then some bot else none

unfoldable pub get_bot : Store → String → String → Option Bot
get_bot s user_id bot_id = elim (owned_bot user_id (get s.bots_by_id bot_id)) [
  | none ↦ none
  | some bot ↦ some (sync_legacy_persona_fields bot)
]

unfoldable pub get_bot_state : Store → String → String → Option BotState
get_bot_state s user_id bot_id = get s.bot_states_by_key (pair_key user_id bot_id)

-- A change of one owned bot: nothing happens where there is no such bot, or it is another user's.
abbrev pub change_bot : Store → String → String → (Bot → Bot) → Store × Option Bot
change_bot s user_id bot_id change = elim (owned_bot user_id (get s.bots_by_id bot_id)) [
  | none ↦ (s, none)
  | some bot ↦ (record s { bots_by_id = put s.bots_by_id bot_id (change bot) }, some (change bot))
]

-- The guarded assignments of UpdateBot, in their order.
abbrev patch_plain : Bot → Bot → Bot
patch_plain patch bot = record bot {
  name = if is_blank patch.name then bot.name else trim patch.name;
  identity = if is_blank patch.identity then bot.identity else trim patch.identity;
  personality = if is_empty patch.personality then bot.personality else patch.personality;
  expression_style =
      if is_blank patch.expression_style then bot.expression_style else trim patch.expression_style;
  life_context = if is_blank patch.life_context then bot.life_context else trim patch.life_context;
  taboos_and_preferences =
      if is_blank patch.taboos_and_preferences
      then bot.taboos_and_preferences
      else trim patch.taboos_and_preferences;
}

abbrev patch_summary : Bot → Bot → Bot
patch_summary patch bot =
    let given = not (patch.summary == "") in
    record bot {
      summary = if given then trim patch.summary else bot.summary;
      identity = if given && is_blank patch.identity then trim patch.summary else bot.identity;
    }

abbrev patch_relationship : Bot → Bot → Bot
patch_relationship patch bot =
    let given = not (patch.relationship == "") in
    record bot {
      relationship = if given then trim patch.relationship else bot.relationship;
      identity = if given && is_blank patch.identity then trim patch.relationship else bot.identity;
    }

abbrev patch_speaking_style : Bot → Bot → Bot
patch_speaking_style patch bot =
    let given = not (patch.speaking_style == "") in
    record bot {
      speaking_style = if given then trim patch.speaking_style else bot.speaking_style;
      expression_style =
          if given && is_blank patch.expression_style
          then trim patch.speaking_style
          else bot.expression_style;
    }

abbrev patch_background : Bot → Bot → Bot
patch_background patch bot =
    let given = not (patch.background == "") in
    record bot {
      background = if given then trim patch.background else bot.background;
      life_context =
          if given && is_blank patch.life_context then trim patch.background else bot.life_context;
    }

abbrev patch_role : Bot → Bot → Bot
patch_role patch bot =
    let given = not (patch.role == "") in
    record bot {
      role = if given then trim patch.role else bot.role;
      life_context =
          if given && is_blank patch.life_context && is_blank patch.background
          then trim patch.role
          else bot.life_context;
    }

abbrev patch_rest : Bot → Bot → Bot
patch_rest patch bot = record bot {
  gender = if patch.gender == "" then bot.gender else patch.gender;
  traits = if is_empty patch.traits then bot.traits else patch.traits;
  personality =
      if not (is_empty patch.traits) && is_empty patch.personality
      then patch.traits
      else bot.personality;
  self_cognition =
      if is_empty patch.self_cognition then bot.self_cognition else patch.self_cognition;
}

unfoldable pub apply_patch : Bot → Bot → Bot
apply_patch patch bot =
    let named = patch_summary patch (patch_plain patch bot) in
    let styled = patch_speaking_style patch (patch_relationship patch named) in
    patch_rest patch (patch_role patch (patch_background patch styled))

unfoldable pub update_bot : Store → Time → String → String → Bot → Store × Option Bot
update_bot s now user_id bot_id patch =
    change_bot s user_id bot_id
      (λ bot. record (sync_legacy_persona_fields (apply_patch patch bot)) { updated_at = now })

abbrev chosen_gender : Option String → String → String
chosen_gender none old = old
chosen_gender (some g) old = if g == "" then old else g

unfoldable pub append_fields : List String → List String → List String → Option String → Bot → Bot
append_fields speaking_adds background_adds trait_adds gender bot =
    let background = join "|" (dedup (split_segments bot.background ++ background_adds)) in
    record bot {
      speaking_style = join "|" (dedup (split_segments bot.speaking_style ++ speaking_adds));
      expression_style = append_persona_text bot.expression_style speaking_adds;
      background = background;
      life_context = append_persona_text bot.life_context background_adds;
      role = background;
      traits = dedup (bot.traits ++ trait_adds);
      personality = dedup (bot.personality ++ trait_adds);
      gender = chosen_gender gender bot.gender;
    }

unfoldable pub append_bot_persona :
    Store
    → Time
    → String
    → String
    → List String
    → List String
    → List String
    → Option String
    → Store × Option Bot
append_bot_persona s now user_id bot_id speaking_adds background_adds trait_adds gender =
    change_bot s user_id bot_id λ bot.
      record (sync_legacy_persona_fields
        (append_fields speaking_adds background_adds trait_adds gender bot)) { updated_at = now }

unfoldable pub apply_persona_input : PersonaPatchInput → Bot → Bot
apply_persona_input input bot = record bot {
  identity = append_persona_text bot.identity input.identity_adds;
  personality = dedup (bot.personality ++ input.personality_adds);
  expression_style = append_persona_text bot.expression_style input.expression_style_adds;
  life_context = append_persona_text bot.life_context input.life_context_adds;
  taboos_and_preferences =
      append_persona_text bot.taboos_and_preferences input.taboos_and_preferences_adds;
  persona_prompt =
      if is_blank input.persona_prompt then bot.persona_prompt else trim input.persona_prompt;
}

abbrev next_version : ℤ → ℤ
next_version v = if is_nonpos (inc v) then pos 1 else inc v

unfoldable pub apply_bot_persona_patch :
    Store → Time → String → String → PersonaPatchInput → Store × Option Bot
apply_bot_persona_patch s now user_id bot_id input = change_bot s user_id bot_id λ bot.
    let synced = sync_legacy_persona_fields (apply_persona_input input bot) in
    record synced { persona_version = next_version synced.persona_version; updated_at = now }
