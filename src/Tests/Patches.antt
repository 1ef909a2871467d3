-- ===== src/Tests/Patches.antt =====
-- The theorems on persona patches at concrete inputs.
use nukara.Base.{not, ◌&&◌, ◌≡◌, refl, some, [], ◌∷◌, if◌then◌else◌, any, trim, take_runes, member}
use nukara.Base.{◌≤◌, rune_count, pos}
use nukara.Tests.Samples.{mia}
use nukara.Persona.Compiler.{compile_prompt, compile_prompt-le}
use nukara.Persona.Changes.{Patch, validate_patch, normalized, normalize_adds, adds_from}
use nukara.Persona.Bounds.{IsBounded, validate_patch-IsBounded}
use nukara.Persona.Risk.{classify_patch_risk, low_risk, high_risk}
use nukara.Persona.Routing.{is_harmless, is_style_only, classify_patch_risk_lem}

abbrev patch : Patch
patch = record {
  identity_adds = [];
  personality_adds = [];
  expression_style_adds = " brief" ∷ "brief" ∷ [];
  life_context_adds = "最近开始晨跑" ∷ [];
  taboos_and_preferences_adds = [];
}

passes : validate_patch patch ≡ some (normalized patch)
unfolding validate_patch normalize_adds adds_from trim take_runes member
passes = refl

validate_patch-IsBounded_example :
    let out = normalized patch in
    IsBounded 4 40 out.identity_adds
    × IsBounded 4 16 out.personality_adds
    × IsBounded 4 24 out.expression_style_adds
    × IsBounded 4 40 out.life_context_adds
    × IsBounded 4 40 out.taboos_and_preferences_adds
validate_patch-IsBounded_example = validate_patch-IsBounded patch (normalized patch) passes

classify_patch_risk_lem_example : classify_patch_risk patch ≡ (
    if is_style_only patch && not (any (λ v. not (is_harmless v)) patch.life_context_adds)
    then low_risk
    else high_risk)
classify_patch_risk_lem_example = classify_patch_risk_lem patch

test_dedup : (normalized patch).expression_style_adds ≡ "brief" ∷ []
unfolding normalize_adds adds_from trim take_runes member
test_dedup = refl

compile_prompt-le_example : rune_count (compile_prompt mia (pos 3)) ≤ 3
compile_prompt-le_example = compile_prompt-le mia (pos 3)
