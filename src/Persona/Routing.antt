-- ===== src/Persona/Routing.antt =====
-- Which patches ClassifyPatchRisk of internal/agentx/persona/risk.go lets through without the user.
use nukara.Base.{
  String, Bool, not, ◌&&◌, ◌||◌, ◌≡◌, refl, ap, ◌∙◌, List, [], ◌∷◌, arith, if◌then◌else◌, any, trim,
  is_blank, is_empty, Bool-cases, inl, inr,
}
use nukara.Persona.Changes.{Patch}
use nukara.Persona.Risk.{
  low, high, contains_any, classify_life_context_add, low_risk_life_context_cues,
  high_risk_life_context_cues, high_risk, low_risk, classify_all, classify_patch_risk,
}

-- The value is blank, or names a harmless habit and no cue of identity or family.
unfoldable pub is_harmless : String → Bool
is_harmless value =
    is_blank value
    || (not (contains_any (trim value) high_risk_life_context_cues)
        && contains_any (trim value) low_risk_life_context_cues)

abbrev pub is_style_only : Patch → Bool
is_style_only patch =
    is_empty patch.identity_adds
    && (is_empty patch.personality_adds && is_empty patch.taboos_and_preferences_adds)

classify_value_lem :
    (value : String) → classify_life_context_add value ≡ (if is_harmless value then low else high)
unfolding classify_life_context_add is_harmless
classify_value_lem value = ground arith

classify_all_lem :
    (values : List String)
    → classify_all values ≡ (if any (λ v. not (is_harmless v)) values then high_risk else low_risk)
unfolding classify_all
classify_all_lem [] = refl
classify_all_lem (v ∷ vs) =
    let ih = classify_all_lem vs in
    let value = classify_value_lem v in
    elim (Bool-cases (is_harmless v)) [
      | inl e ↦ rw (value ∙ ap (λ b. if b then low else high) e, e, classify_all) ih
      | inr e ↦ rw (value ∙ ap (λ b. if b then low else high) e, e, classify_all) refl
    ]

-- ClassifyPatchRisk lets a patch be applied without the user exactly if it adds nothing to identity,
-- personality, taboos and preferences, and each of its life-context values is blank, or names one of the
-- low-risk cues and none of the high-risk ones.
pub classify_patch_risk_lem :
    (patch : Patch)
    → classify_patch_risk patch ≡ (
        if is_style_only patch && not (any (λ v. not (is_harmless v)) patch.life_context_adds)
        then low_risk
        else high_risk)
unfolding classify_patch_risk
classify_patch_risk_lem patch = rw (classify_all_lem patch.life_context_adds) (ground arith)
