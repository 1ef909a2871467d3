-- ===== src/Store/Persona.antt =====
-- The persona fields of a bot, new and legacy: DerivePersonaV2FromLegacy and
-- SyncLegacyPersonaFields of internal/store/store.go.
use nukara.Base.{
  String, not, ◌&&◌, ◌≡◌, refl, List, [], ◌∷◌, arith, if◌then◌else◌, trim, is_blank, is_empty,
  first_non_empty,
}
use nukara.Store.Types.{Bot}

-- `if strings.TrimSpace(field) == "" {field = firstNonEmptyPersonaField(values...) }`
unfoldable pub fill_first : String → List String → String
fill_first field values = if is_blank field then first_non_empty values else field

unfoldable pub fill_trimmed : String → String → String
fill_trimmed field value = if is_blank field then trim value else field

unfoldable pub fill_list : List String → List String → List String
fill_list field values = if is_empty field && not (is_empty values) then values else field

unfoldable pub derive_persona_v2_from_legacy : Bot → Bot
derive_persona_v2_from_legacy bot = record bot {
  identity = fill_first bot.identity (bot.summary ∷ bot.relationship ∷ []);
  personality = fill_list bot.personality bot.traits;
  expression_style = fill_trimmed bot.expression_style bot.speaking_style;
  life_context = fill_first bot.life_context (bot.background ∷ bot.role ∷ []);
}

-- `if strings.TrimSpace(field) != "" {legacy = strings.TrimSpace(field) }`
unfoldable pub mirror : String → String → String
mirror field legacy = if is_blank field then legacy else trim field

unfoldable pub mirror_list : List String → List String → List String
mirror_list field legacy = if is_empty field then legacy else field

abbrev mirror_legacy : Bot → Bot
mirror_legacy bot = record bot {
  summary = mirror bot.identity bot.summary;
  relationship = mirror bot.identity bot.relationship;
  speaking_style = mirror bot.expression_style bot.speaking_style;
  background = mirror bot.life_context bot.background;
  role = mirror bot.life_context bot.role;
  traits = mirror_list bot.personality bot.traits;
}

unfoldable pub sync_legacy_persona_fields : Bot → Bot
unfolding derive_persona_v2_from_legacy
sync_legacy_persona_fields bot = mirror_legacy (derive_persona_v2_from_legacy bot)

module _ (field a b : String) where
  abbrev filled : String
  filled = fill_first field (a ∷ b ∷ [])

  fill_first_again : fill_first filled (mirror filled a ∷ mirror filled b ∷ []) ≡ filled
  unfolding fill_first mirror
  fill_first_again = ground arith

fill_trimmed_again :
    (field a : String)
    → fill_trimmed (fill_trimmed field a) (mirror (fill_trimmed field a) a) ≡ fill_trimmed field a
unfolding fill_trimmed mirror
fill_trimmed_again field a = ground arith

mirror_again : (field a : String) → mirror field (mirror field a) ≡ mirror field a
unfolding mirror
mirror_again field a = ground arith

fill_list_again :
    (field a : List String)
    → fill_list (fill_list field a) (mirror_list (fill_list field a) a) ≡ fill_list field a
unfolding fill_list mirror_list
fill_list_again [] [] = refl
fill_list_again [] (x ∷ xs) = refl
fill_list_again (x ∷ xs) a = refl

mirror_list_again :
    (field a : List String) → mirror_list field (mirror_list field a) ≡ mirror_list field a
unfolding mirror_list
mirror_list_again [] a = refl
mirror_list_again (x ∷ xs) a = refl

-- Synchronising the legacy fields a second time changes no field of the bot.
pub sync_idem :
    (bot : Bot)
    → sync_legacy_persona_fields (sync_legacy_persona_fields bot) ≡ sync_legacy_persona_fields bot
unfolding sync_legacy_persona_fields
sync_idem bot =
    simp (fill_first_again, fill_trimmed_again, fill_list_again, mirror_again, mirror_list_again)
