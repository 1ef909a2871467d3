-- ===== src/Tests/Routes.antt =====
-- The theorems on the provider routes at concrete inputs.
use nukara.Base.{true, false, ◌&&◌, ◌≡◌, refl, none, some, List, [], ◌∷◌, any, All, keep, pos, trim}
use nukara.Store.AgentTypes.{Provider}
use nukara.Provider.Router.{ResolverStore, is_named, resolve_chat_route}
use nukara.Provider.Order.{NotBefore}
use nukara.Provider.Routes.{LeadsTo, resolve_chat_route-listed}
use nukara.Provider.FirstActive.{resolve_chat_route-first_active}

abbrev idle : Provider
idle = record {
  id = "p1";
  name = "";
  api_key = "";
  base_url = "";
  api_mode = "";
  models = "m1" ∷ [];
  is_active = false;
  priority = pos 1;
  created_at = 0;
  updated_at = 0;
}

abbrev active : Provider
active = record idle { id = "p2"; is_active = true; priority = pos 2 }

abbrev both : List Provider
both = active ∷ idle ∷ []

abbrev router : ResolverStore
router = record {
  providers = some both;
  user_setting = λ _. none;
  bot_override = λ _ _. none;
  system_setting = λ _. none;
}

some_active : any (λ p. p.is_active) (keep is_named both) ≡ true
unfolding trim
some_active = refl

some_named : any is_named both ≡ true
unfolding trim
some_named = refl

resolve_chat_route-listed_example :
    LeadsTo (λ p. (p.models ≡ "m1" ∷ []) × (is_named p ≡ true)) (resolve_chat_route router "u" "b1")
resolve_chat_route-listed_example =
    resolve_chat_route-listed (λ p. p.models ≡ "m1" ∷ []) router "u" "b1" both refl
      (refl, (refl, tt)) some_named

abbrev unnamed : List Provider
unnamed = record active { id = " " } ∷ []

none_named : any is_named unnamed ≡ false
unfolding trim
none_named = refl

resolve_chat_route-first_active_example :
    LeadsTo
      (λ p.
        (p.models ≡ "m1" ∷ [])
        × (is_named p ≡ true)
        × (p.is_active ≡ true)
        × All (λ q. NotBefore q p) (keep (λ q. is_named q && q.is_active) both))
      (resolve_chat_route router "u" "b1")
resolve_chat_route-first_active_example =
    resolve_chat_route-first_active (λ p. p.models ≡ "m1" ∷ []) router "u" "b1" both refl
      (refl, (refl, tt)) refl refl refl some_active
