-- ===== src/Tests/Bots.antt =====
-- The theorems on bots and their texts at concrete inputs.
use nukara.Base.{◌≡◌, refl, none, some, [], ◌∷◌}
use nukara.Store.Types.{Bot, PersonaPatchInput}
use nukara.Store.Bots.{get_bot, update_bot, append_bot_persona, apply_bot_persona_patch, zero_bot}
use nukara.Store.Bots.Updates.{IsUpdated, update_bot-IsUpdated}
use nukara.Base.{trim, ◌+◌, arith, get, delete, pos}
use nukara.Store.Bots.Others.{bots_of_others}
use nukara.Store.Bots.Additions.{IsGrown, apply_bot_persona_patch-IsGrown}
use nukara.Store.Bots.Updates.{summary_from_relationship}
use nukara.Tests.Samples.{bots, bots_found, mia}

abbrev patch : Bot
patch = record zero_bot { name = "Mia2"; identity = "artist" }

abbrev input : PersonaPatchInput
input = record {
  identity_adds = "painter" ∷ [];
  personality_adds = "calm" ∷ [];
  expression_style_adds = [];
  life_context_adds = [];
  taboos_and_preferences_adds = [];
  persona_prompt = "";
}

update_bot-IsUpdated_example : IsUpdated bots 9 "u" "b1" (update_bot bots 9 "u" "b1" patch)
update_bot-IsUpdated_example = update_bot-IsUpdated bots 9 "u" "b1" mia patch bots_found refl

apply_bot_persona_patch-IsGrown_example :
    let (t, result) = apply_bot_persona_patch bots 9 "u" "b1" input in
    (out : Bot) × (result ≡ some out)
    × (get_bot t "u" "b1" ≡ some out)
    × (out.user_id ≡ "u")
    × (out.updated_at ≡ 9)
    × (delete t.bots_by_id "b1" ≡ delete bots.bots_by_id "b1")
    × IsGrown mia input out
    × (out.persona_version ≡ pos (3 + 1))
apply_bot_persona_patch-IsGrown_example =
    apply_bot_persona_patch-IsGrown bots 9 "u" "b1" mia input 3 bots_found refl refl (omega arith)

bots_of_others_example :
    (get_bot bots "v" "b1" ≡ none)
    × (get (update_bot bots 9 "v" "b1" patch).0.bots_by_id "b1" ≡ some mia)
    × (get (append_bot_persona bots 9 "v" "b1" [] [] [] none).0.bots_by_id "b1" ≡ some mia)
    × (get (apply_bot_persona_patch bots 9 "v" "b1" input).0.bots_by_id "b1" ≡ some mia)
bots_of_others_example =
    bots_of_others bots 9 "v" "b1" "b1" mia patch [] [] [] none input bots_found refl

abbrev befriended : Bot
befriended = record zero_bot { summary = "painter"; relationship = "friend" }

summary_from_relationship_example :
    (out : Bot) × ((update_bot bots 9 "u" "b1" befriended).1 ≡ some out)
    × (out.identity ≡ trim "friend")
    × (out.summary ≡ trim "friend")
unfolding trim
summary_from_relationship_example =
    summary_from_relationship bots 9 "u" "b1" mia befriended bots_found refl refl refl refl
