-- ===== src/Subtasks/Apply.antt =====
-- applyPersonaDecisions and summarizePatch of internal/agentx/subtasks/runner.go over the store.
use nukara.Base.{
  ℕ, suc, String, Bool, true, false, if◌then◌else◌, trim, is_empty, length, join, Option, none,
  some, List, [], ◌∷◌, ◌++◌, ◌<>◌, pos,
}
use nukara.Store.Types.{Bot, PersonaPatchInput}
use nukara.Store.AgentTypes.{MemoryItem, PersonaChangeEvent}
use nukara.Store.State.{Store}
use nukara.Store.Notifications.{itoa}
use nukara.Store.Bots.{get_bot, apply_bot_persona_patch}
use nukara.Store.AgentData.Changes.{create_persona_change_event}
use nukara.Persona.Changes.{Patch}
use nukara.Subtasks.Decide.{PersonaDecision, decide_persona_change}
use nukara.Subtasks.Remember.{Input, Deps, Draws}

-- The variables of the loop in applyPersonaDecisions
pub record Progress : Type 0 where
  pub store : Store
  pub bot : Bot
  pub accepted_changes : List PersonaChangeEvent
  pub merged_patch : Patch
  pub persona_updated : Bool

abbrev pub merge_persona_patch : Patch → PersonaPatchInput → Patch
merge_persona_patch dst src = record {
  identity_adds = dst.identity_adds ++ src.identity_adds;
  personality_adds = dst.personality_adds ++ src.personality_adds;
  expression_style_adds = dst.expression_style_adds ++ src.expression_style_adds;
  life_context_adds = dst.life_context_adds ++ src.life_context_adds;
  taboos_and_preferences_adds = dst.taboos_and_preferences_adds ++ src.taboos_and_preferences_adds;
}

abbrev pub event_of : Input → MemoryItem → PersonaDecision → PersonaChangeEvent
event_of i item decision = record {
  id = "";
  user_id = i.user_id;
  bot_id = i.bot_id;
  field = decision.field;
  change_type = "append";
  proposed_value = trim item.content;
  source_turn_id = i.turn_id;
  risk = trim decision.risk;
  status = trim decision.status;
  reviewer_note = "";
  created_at = 0;
  updated_at = 0;
}

abbrev pub log_event : Draws → ℕ → Store → PersonaChangeEvent → Store × Option PersonaChangeEvent
log_event d n s event = create_persona_change_event s (d.event_at n) (d.event_id n) event

-- `p` after ApplyBotPersonaPatch returned `t` and the bot `updated`.
unfoldable pub after_patch :
    Draws → ℕ → Progress → Store → Bot → PersonaChangeEvent → PersonaPatchInput → Progress
after_patch d n p t updated event patch =
    let (logged, created) = log_event d n t event in
    elim created [
      | none ↦ record p { store = logged; bot = updated }
      | some accepted ↦ record p {
        store = logged;
        bot = updated;
        accepted_changes = p.accepted_changes ++ accepted ∷ [];
        merged_patch = merge_persona_patch p.merged_patch patch;
        persona_updated = true;
      }
    ]

-- `p` after ApplyBotPersonaPatch returned.
abbrev pub after_apply :
    Draws → ℕ → Progress → PersonaChangeEvent → PersonaPatchInput → Store × Option Bot → Progress
after_apply d n p event patch (t, none) = record p {
  store = (log_event d n t (record event { status = "failed" })).0;
}
after_apply d n p event patch (t, some updated) = after_patch d n p t updated event patch

unfoldable pub carry_out : Draws → Input → ℕ → Progress → MemoryItem → PersonaDecision → Progress
carry_out d i n p item decision =
    let event = event_of i item decision in
    let applied =
      apply_bot_persona_patch p.store (d.applied_at n) i.user_id i.bot_id decision.patch in
    if decision.should_apply
    then after_apply d n p event decision.patch applied
    else record p { store = (log_event d n p.store event).0 }

unfoldable pub apply_decisions : Deps → Draws → Input → ℕ → Progress → List MemoryItem → Progress
apply_decisions deps d i n p [] = p
apply_decisions deps d i n p (item ∷ items) =
    apply_decisions deps d i (suc n)
      (elim (decide_persona_change deps.to_lower deps.is_mark item p.bot) [
        | none ↦ p
        | some decision ↦ carry_out d i n p item decision
      ])
      items

abbrev pub counted : String → List String → List String
counted label adds = if is_empty adds then [] else (label <> itoa (pos (length adds))) ∷ []

abbrev pub mentioned : String → List String → List String
mentioned label adds = if is_empty adds then [] else label ∷ []

unfoldable pub summarize_patch : Patch → String
unfolding itoa
summarize_patch p =
    let chunks =
      counted "身份设定+" p.identity_adds
      ++ counted "性格特征+" p.personality_adds
      ++ mentioned "表达风格微调" p.expression_style_adds
      ++ mentioned "生活环境补充" p.life_context_adds
      ++ mentioned "偏好边界更新" p.taboos_and_preferences_adds in
    if is_empty chunks then "人设微调" else join "，" chunks

pub record RunResult : Type 0 where
  pub persona_updated : Bool
  pub patch_summary : String
  pub patch : Patch

abbrev pub empty_patch : Patch
empty_patch = record {
  identity_adds = [];
  personality_adds = [];
  expression_style_adds = [];
  life_context_adds = [];
  taboos_and_preferences_adds = [];
}

abbrev pub no_result : RunResult
no_result = record { persona_updated = false; patch_summary = ""; patch = empty_patch }

abbrev pub start : Store → Bot → Progress
start s bot = record {
  store = s;
  bot = bot;
  accepted_changes = [];
  merged_patch = empty_patch;
  persona_updated = false;
}

-- What follows the loop of applyPersonaDecisions.
abbrev pub finish : Deps → Progress → Store × RunResult
finish deps p = (
  if is_empty p.accepted_changes
      then p.store
      else deps.self_cognition_updater p.store p.bot p.accepted_changes,
  if p.persona_updated
      then record {
        persona_updated = true;
        patch_summary = summarize_patch p.merged_patch;
        patch = p.merged_patch;
      }
      else no_result,
)

unfoldable pub apply_persona_decisions :
    Deps → Draws → Input → Store → List MemoryItem → Store × RunResult
apply_persona_decisions deps d i s items = elim (get_bot s i.user_id i.bot_id) [
  | none ↦ (s, no_result)
  | some bot ↦ finish deps (apply_decisions deps d i 0 (start s bot) items)
]
