-- ===== src/Store/Activity.antt =====
-- Bot and user status, proactive logs, directives and the emotion buffer of internal/store/store.go.
pub mod Directives
pub mod Logs
use nukara.Base.{
  ℕ, zero, suc, ◌+◌, String, Bool, true, false, ◌==◌, ◌||◌, Option, none, some, if◌then◌else◌, ℤ,
  pos, inc, positive_or, Map, get, put, delete, get_or, List, [], ◌∷◌, ◌++◌, map, keep, length,
  take,
}
use nukara.Store.Types.{Time, BotState, UserStatus, User, ProactiveLog, Directive, EmotionContext}
use nukara.Store.State.{Store, pair_key}

-- `BotState{}`
abbrev zero_bot_state : BotState
zero_bot_state = record {
  user_id = "";
  bot_id = "";
  status_emoji = "";
  status_text = "";
  turn_count = pos 0;
  updated_at = 0;
}

unfoldable pub save_bot_status : Store → Time → String → String → String → String → Store
save_bot_status s now user_id bot_id emoji text =
    let key = pair_key user_id bot_id in
    let existing = get_or s.bot_states_by_key key zero_bot_state in
    record s {
      bot_states_by_key = put s.bot_states_by_key key (record existing {
        user_id = user_id;
        bot_id = bot_id;
        status_emoji = emoji;
        status_text = text;
        updated_at = now;
      });
    }

unfoldable pub increment_turn_count : Store → Time → String → String → Store × ℤ
increment_turn_count s now user_id bot_id =
    let key = pair_key user_id bot_id in
    let st = get_or s.bot_states_by_key key zero_bot_state in
    let count = inc st.turn_count in
    (
      record s {
        bot_states_by_key = put s.bot_states_by_key key (record st {
          user_id = user_id;
          bot_id = bot_id;
          turn_count = count;
          updated_at = now;
        });
      },
      count,
    )

unfoldable pub save_user_status : Store → Time → String → String → String → Store
save_user_status s now user_id emoji text = record s {
  user_status_by_user =
      put s.user_status_by_user user_id
        (record { user_id = user_id; emoji = emoji; text = text; updated_at = now });
}

unfoldable pub get_user_status : Store → String → Option UserStatus
get_user_status s user_id = get s.user_status_by_user user_id

-- The newest log stands first.
unfoldable pub add_proactive_log : Store → Time → String → ProactiveLog → Store × ProactiveLog
add_proactive_log s now id log =
    let entry = record log { id = id; created_at = now } in
    let m = s.metrics in
    (
      record s {
        proactive_logs = entry ∷ s.proactive_logs;
        metrics = record m { proactive_sent_total = inc m.proactive_sent_total };
      },
      entry,
    )

-- The loop with its `break`: `room` is how many entries may still be appended, at least one.
unfoldable pub first_logs : ℕ → String → List ProactiveLog → List ProactiveLog
first_logs room user_id [] = []
first_logs zero user_id (entry ∷ entries) = []
first_logs (suc room) user_id (entry ∷ entries) =
    let taken = entry ∷ first_logs room user_id entries in
    let skipped = first_logs (suc room) user_id entries in
    if user_id == "" || entry.user_id == user_id then taken else skipped

unfoldable pub list_proactive_logs : Store → String → ℤ → List ProactiveLog
unfolding first_logs
list_proactive_logs s user_id limit = first_logs (positive_or 20 limit) user_id s.proactive_logs

unfoldable pub save_directive : Store → Time → String → Directive → Store × Directive
save_directive s now id d =
    let saved = record d {
      id = id;
      created_at = now;
      updated_at = now;
      status = if d.status == "" then "active" else d.status;
    } in
    let key = pair_key d.user_id d.bot_id in
    (
      record s {
        directives_by_bot =
            put s.directives_by_bot key (get_or s.directives_by_bot key [] ++ saved ∷ []);
      },
      saved,
    )

unfoldable pub list_directives : Store → String → String → String → List Directive
list_directives s user_id bot_id status =
    keep (λ d. status == "" || d.status == status)
      (get_or s.directives_by_bot (pair_key user_id bot_id) [])

-- The loop of RevokeDirective: the first entry with that id, if there is one.
unfoldable pub revoke_first : Time → String → List Directive → Option (List Directive)
revoke_first now directive_id [] = none
revoke_first now directive_id (d ∷ ds) =
    let rest = revoke_first now directive_id ds in
    if d.id == directive_id
    then some (record d { status = "revoked"; updated_at = now } ∷ ds)
    else elim rest [ none ↦ none | some ds' ↦ some (d ∷ ds') ]

unfoldable pub revoke_directive : Store → Time → String → String → String → Store × Bool
unfolding revoke_first
revoke_directive s now user_id bot_id directive_id =
    let key = pair_key user_id bot_id in
    elim (revoke_first now directive_id (get_or s.directives_by_bot key [])) [
      | none ↦ (s, false)
      | some ds ↦ (record s { directives_by_bot = put s.directives_by_bot key ds }, true)
    ]

unfoldable pub append_emotion_buffer : Store → String → String → String → Store × ℕ
append_emotion_buffer s user_id bot_id text =
    let key = pair_key user_id bot_id in
    let buffer = get_or s.emotion_buffers key [] ++ text ∷ [] in
    (record s { emotion_buffers = put s.emotion_buffers key buffer }, length buffer)

unfoldable pub get_emotion_buffer : Store → String → String → List String
get_emotion_buffer s user_id bot_id = get_or s.emotion_buffers (pair_key user_id bot_id) []

unfoldable pub clear_emotion_buffer : Store → String → String → Store
clear_emotion_buffer s user_id bot_id = record s {
  emotion_buffers = delete s.emotion_buffers (pair_key user_id bot_id);
}

unfoldable pub save_emotion_context : Store → Time → String → String → EmotionContext → Store
save_emotion_context s now user_id bot_id ctx = record s {
  emotion_ctxs = put s.emotion_ctxs (pair_key user_id bot_id) (record ctx { updated_at = now });
}

unfoldable pub get_emotion_context : Store → String → String → Option EmotionContext
get_emotion_context s user_id bot_id = get s.emotion_ctxs (pair_key user_id bot_id)

unfoldable pub list_all_user_ids : Store → List String
list_all_user_ids s = map (λ (e : String × User). e.0) (s.users_by_id).entries
