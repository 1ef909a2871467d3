-- ===== src/Provider/Router.antt =====
-- The routes of internal/agentx/provider/router.go. The store behind the router is a parameter: the
-- answers that its four methods give; `none` is the error of ListProviders or "no provider available".
use Prim.Native.Char.{code}
use nukara.Base.{
  String, Bool, true, false, not, ◌==◌, ◌&&◌, Option, none, some, if◌then◌else◌, ltb_int, eqb_int,
  ltb, eqb, List, [], ◌∷◌, keep, trim, is_blank, lower, codes_eq, first_non_empty, sort_by,
}
use nukara.Store.AgentTypes.{Provider}

pub record Route : Type 0 where
  pub provider_id : String
  pub model : String
  pub base_url : String
  pub api_key : String
  pub api_mode : String

pub record ResolverStore : Type 0 where
  pub providers : Option (List Provider)
  pub user_setting : String → Option (String × String)
  pub bot_override : String → String → Option (String × String)
  pub system_setting : String → Option String

-- `a < b` on texts. Go compares the UTF-8 bytes, which is the order of the code points.
unfoldable pub text_less : String → String → Bool
text_less String.[] String.[] = false
text_less String.[] (String.◌∷◌ d t) = true
text_less (String.◌∷◌ c s) String.[] = false
text_less (String.◌∷◌ c s) (String.◌∷◌ d t) =
    let rest = text_less s t in if eqb (code c) (code d) then rest else ltb (code c) (code d)

-- The order of sortedProviders.
unfoldable pub precedes : Provider → Provider → Bool
unfolding text_less
precedes a b =
    if eqb_int a.priority b.priority then text_less a.id b.id else ltb_int a.priority b.priority

abbrev pub is_named : Provider → Bool
is_named p = not (is_blank p.id)

abbrev pub non_empty : List Provider → Option (List Provider)
non_empty [] = none
non_empty (p ∷ ps) = some (p ∷ ps)

unfoldable pub sorted_providers : ResolverStore → Option (List Provider)
unfolding precedes
sorted_providers st = elim st.providers [
  | none ↦ none
  | some ps ↦ non_empty (sort_by precedes (keep is_named ps))
]

unfoldable pub first_with_id : String → List Provider → Option Provider
first_with_id target [] = none
first_with_id target (p ∷ ps) = if p.id == target then some p else first_with_id target ps

unfoldable pub find_provider : List Provider → String → Option Provider
unfolding first_with_id
find_provider ps id = if is_blank id then none else first_with_id (trim id) ps

-- strings.TrimSpace(strings.ToLower(raw)), compared with two words: ToLower neither makes nor removes space.
unfoldable pub normalize_route_api_mode : String → String
unfolding lower
normalize_route_api_mode raw =
    let value = lower (trim raw) in
    if codes_eq value (lower "responses")
    then "responses"
    else if codes_eq value (lower "auto")
    then "auto"
    else "chat_completions"

abbrev first_model : List String → String
first_model [] = ""
first_model (m ∷ ms) = trim m

unfoldable pub build_route : Provider → String → Route
unfolding normalize_route_api_mode
build_route p candidate = record {
  provider_id = p.id;
  model = if is_blank candidate then first_model p.models else trim candidate;
  base_url = p.base_url;
  api_key = p.api_key;
  api_mode = normalize_route_api_mode p.api_mode;
}

abbrev pub setting_or_empty : ResolverStore → String → String
setting_or_empty st key = elim (st.system_setting key) [ none ↦ "" | some value ↦ value ]

-- The provider that a setting names, with the model of the setting.
unfoldable pub named_by : List Provider → Option (String × String) → Option (Provider × String)
named_by ps none = none
named_by ps (some (id, model)) = elim (find_provider ps id) [
  | none ↦ none
  | some p ↦ some (p, model)
]

unfoldable pub first_active : List Provider → Option Provider
first_active [] = none
first_active (p ∷ ps) = if p.is_active then some p else first_active ps

-- The last two steps of ResolveChatRoute: the first active provider of the sorted list, else its head.
-- A sorted list is not empty; on [] the source does not come here.
unfoldable pub active_or_first : List Provider → Option Provider
active_or_first [] = none
active_or_first (p ∷ ps) = elim (first_active (p ∷ ps)) [ none ↦ some p | some q ↦ some q ]

-- The fallbacks without a setting of the user or bot: the default provider, then the two steps above.
unfoldable pub fallback : List Provider → String → Option Provider
fallback ps default_id = elim (find_provider ps default_id) [
  | none ↦ active_or_first ps
  | some p ↦ some p
]

unfoldable pub choose : ResolverStore → List Provider → String → String → Option Route
choose st ps user_id bot_id =
    let default_model = setting_or_empty st "default_chat_model" in
    elim (named_by ps (st.bot_override user_id bot_id)) [
      | some (p, model) ↦ some (build_route p (first_non_empty (model ∷ default_model ∷ [])))
      | none ↦ elim (named_by ps (st.user_setting user_id)) [
        | some (p, model) ↦ some (build_route p (first_non_empty (model ∷ default_model ∷ [])))
        | none ↦ elim (fallback ps (setting_or_empty st "default_chat_provider_id")) [
          | some p ↦ some (build_route p default_model)
          | none ↦ none
        ]
      ]
    ]

unfoldable pub resolve_chat_route : ResolverStore → String → String → Option Route
unfolding sorted_providers choose
resolve_chat_route st user_id bot_id = elim (sorted_providers st) [
  | none ↦ none
  | some ps ↦ choose st ps user_id bot_id
]

-- ResolveSubtaskRoute and ResolveSelfCognitionSummaryRoute, with the two setting keys of each.
unfoldable pub resolve_by_keys : String → String → ResolverStore → String → String → Option Route
unfolding sorted_providers resolve_chat_route
resolve_by_keys id_key model_key st user_id bot_id =
    let models = setting_or_empty st model_key ∷ setting_or_empty st "default_chat_model" ∷ [] in
    elim (sorted_providers st) [
      | none ↦ none
      | some ps ↦ elim (find_provider ps (setting_or_empty st id_key)) [
        | some p ↦ some (build_route p (first_non_empty models))
        | none ↦ resolve_chat_route st user_id bot_id
      ]
    ]

abbrev pub resolve_subtask_route : ResolverStore → String → String → Option Route
resolve_subtask_route = resolve_by_keys "post_turn_provider_id" "post_turn_model"

abbrev pub resolve_self_cognition_summary_route : ResolverStore → String → String → Option Route
resolve_self_cognition_summary_route =
    resolve_by_keys "self_cognition_summary_provider_id" "self_cognition_summary_model"

-- strings.TrimRight(s, "/")
unfoldable pub trim_slashes : String → String
trim_slashes String.[] = ""
trim_slashes (String.◌∷◌ c s) =
    let rest = trim_slashes s in if eqb (code c) 47 && rest == "" then "" else String.◌∷◌ c rest

unfoldable pub resolve_embedding_route : ResolverStore → Option Route
unfolding sorted_providers trim_slashes
resolve_embedding_route st =
    let base_url = setting_or_empty st "embedding_base_url" in
    let provider_id = setting_or_empty st "embedding_provider_id" in
    let model =
      first_non_empty
        (setting_or_empty st "embedding_model" ∷ setting_or_empty st "default_chat_model" ∷ []) in
    let custom : Route = record {
      provider_id = first_non_empty (provider_id ∷ "embedding_custom" ∷ []);
      model = model;
      base_url = trim_slashes (trim base_url);
      api_key = trim (setting_or_empty st "embedding_api_key");
      api_mode = "chat_completions";
    } in
    elim (sorted_providers st) [
      | none ↦ none
      | some ps ↦
          if not (is_blank base_url) then some custom else elim (find_provider ps provider_id) [
            | some p ↦ some (build_route p model)
            | none ↦ elim (fallback ps (setting_or_empty st "default_chat_provider_id")) [
              | some p ↦ some (build_route p model)
              | none ↦ none
            ]
          ]
    ]
