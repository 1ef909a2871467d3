-- ===== src/Persona/Changes.antt =====
-- Patches of a persona: internal/agentx/persona/changes.go, without the decoding of JSON.
use nukara.Base.{
  ℕ, zero, suc, String, Bool, ◌&&◌, Option, none, some, if◌then◌else◌, trim, is_blank, take_runes,
  member, is_empty, List, [], ◌∷◌,
}

pub record Patch : Type 0 where
  pub identity_adds : List String
  pub personality_adds : List String
  pub expression_style_adds : List String
  pub life_context_adds : List String
  pub taboos_and_preferences_adds : List String

-- The loop of normalizeAdds: `room` is how many values may still be appended, `seen` what was.
unfoldable pub adds_from : ℕ → ℕ → List String → List String → List String
adds_from max_runes zero seen values = []
adds_from max_runes (suc room) seen [] = []
adds_from max_runes (suc room) seen (value ∷ values) =
    let text = take_runes max_runes (trim value) in
    let skipped = adds_from max_runes (suc room) seen values in
    let taken = text ∷ adds_from max_runes room (text ∷ seen) values in
    if is_blank value then skipped else if member text seen then skipped else taken

-- `max_items` is positive in every call.
unfoldable pub normalize_adds : List String → ℕ → ℕ → List String
unfolding adds_from
normalize_adds values max_items max_runes = adds_from max_runes max_items [] values

abbrev pub is_empty_patch : Patch → Bool
is_empty_patch out =
    is_empty out.identity_adds
    && (is_empty out.personality_adds
        && (is_empty out.expression_style_adds
            && (is_empty out.life_context_adds && is_empty out.taboos_and_preferences_adds)))

abbrev pub normalized : Patch → Patch
normalized input = record {
  identity_adds = normalize_adds input.identity_adds 4 40;
  personality_adds = normalize_adds input.personality_adds 4 16;
  expression_style_adds = normalize_adds input.expression_style_adds 4 24;
  life_context_adds = normalize_adds input.life_context_adds 4 40;
  taboos_and_preferences_adds = normalize_adds input.taboos_and_preferences_adds 4 40;
}

unfoldable pub validate_patch : Patch → Option Patch
validate_patch input = if is_empty_patch (normalized input) then none else some (normalized input)
