-- ===== src/Subtasks/Decide.antt =====
-- decidePersonaChange of internal/agentx/subtasks/persona_decision.go. unicode.IsPunct and IsSymbol
-- are one parameter, the test of a rune for either of them; strings.ToLower is one too, since the code
-- compares its whole result.

use nukara.Base.{
  ℕ, String, Bool, true, false, not, ◌&&◌, ◌||◌, ◌==◌, if◌then◌else◌, is_space, trim, codes_eq,
  member, any, is_empty, keep, Option, none, some, List, [], ◌∷◌,
}
use nukara.Store.Types.{Bot, PersonaPatchInput}
use nukara.Store.AgentTypes.{MemoryItem}

pub record PersonaDecision : Type 0 where
  pub field : String
  pub patch : PersonaPatchInput
  pub should_apply : Bool
  pub status : String
  pub reason : String
  pub risk : String

abbrev pub persona_fields : List String
persona_fields =
    "identity" ∷ "personality" ∷ "expression_style" ∷ "life_context" ∷ "taboos_and_preferences" ∷ []

unfoldable pub map_semantic_category_to_persona_field : MemoryItem → String
unfolding member
map_semantic_category_to_persona_field item =
    let category = trim item.semantic_category in
    if member category persona_fields then category else ""

abbrev pub no_patch : PersonaPatchInput
no_patch = record {
  identity_adds = [];
  personality_adds = [];
  expression_style_adds = [];
  life_context_adds = [];
  taboos_and_preferences_adds = [];
  persona_prompt = "";
}

unfoldable pub patch_from_memory_item : String → String → PersonaPatchInput
patch_from_memory_item field content =
    let adds = trim content ∷ [] in
    if field == "identity"
    then record no_patch { identity_adds = adds }
    else if field == "personality"
    then record no_patch { personality_adds = adds }
    else if field == "expression_style"
    then record no_patch { expression_style_adds = adds }
    else if field == "life_context"
    then record no_patch { life_context_adds = adds }
    else if field == "taboos_and_preferences"
    then record no_patch { taboos_and_preferences_adds = adds }
    else no_patch

unfoldable pub is_empty_persona_patch : PersonaPatchInput → Bool
is_empty_persona_patch patch =
    is_empty patch.identity_adds
    && is_empty patch.personality_adds
    && is_empty patch.expression_style_adds
    && is_empty patch.life_context_adds
    && is_empty patch.taboos_and_preferences_adds

abbrev pub haystacks_of : Bot → String → List String
haystacks_of bot field =
    if field == "identity"
    then bot.identity ∷ []
    else if field == "personality"
    then bot.personality
    else if field == "expression_style"
    then bot.expression_style ∷ []
    else if field == "life_context"
    then bot.life_context ∷ []
    else if field == "taboos_and_preferences"
    then bot.taboos_and_preferences ∷ []
    else []

-- strings.HasPrefix and strings.Contains on runes
abbrev pub starts : List ℕ → List ℕ → Bool
starts s [] = true
starts [] (d ∷ t) = false
starts (c ∷ s) (d ∷ t) = codes_eq (c ∷ []) (d ∷ []) && starts s t

unfoldable pub occurs : List ℕ → List ℕ → Bool
occurs s [] = true
occurs [] (d ∷ t) = false
occurs (c ∷ s) (d ∷ t) = let rest = occurs s (d ∷ t) in starts (c ∷ s) (d ∷ t) || rest

abbrev pub risk_for_persona_field : String → String
risk_for_persona_field field =
    if field == "identity" || field == "personality" then "high" else "low"

module _ (to_lower : String → List ℕ) (is_mark : ℕ → Bool) where
  unfoldable pub normalize_persona_comparison : String → List ℕ
  normalize_persona_comparison value =
      keep (λ r. not (is_space r || is_mark r)) (to_lower (trim value))

  unfoldable pub covers : List ℕ → String → Bool
  unfolding occurs normalize_persona_comparison
  covers needle haystack =
      let normalized = normalize_persona_comparison haystack in
      not (is_empty normalized)
      && ((codes_eq normalized needle || occurs normalized needle) || occurs needle normalized)

  unfoldable pub persona_field_already_covers : Bot → String → String → Bool
  unfolding covers
  persona_field_already_covers bot field content =
      let needle = normalize_persona_comparison content in
      not (is_empty needle) && any (covers needle) (haystacks_of bot field)

  abbrev pub skipped : String → String → PersonaDecision
  skipped field reason = record {
    field = field;
    patch = no_patch;
    should_apply = false;
    status = "skipped";
    reason = reason;
    risk = risk_for_persona_field field;
  }

  unfoldable pub decide_persona_change : MemoryItem → Bot → Option PersonaDecision
  decide_persona_change item bot =
      let field = map_semantic_category_to_persona_field item in
      let patch = patch_from_memory_item field item.content in
      if field == ""
      then none
      else if not (trim item.stability == "stable")
      then some (skipped field "temporary_fact")
      else if trim item.kind == "user_fact" && not (field == "taboos_and_preferences")
      then some (skipped field "user_fact_does_not_mutate_bot_persona")
      else if is_empty_persona_patch patch
      then none
      else if persona_field_already_covers bot field item.content
      then some (skipped field "already_covered")
      else some (record (skipped field "stable_core_fact") {
        patch = patch;
        should_apply = true;
        status = "accepted";
      })
