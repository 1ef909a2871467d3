-- ===== src/Provider/Routes.antt =====
-- Which provider the routes of internal/agentx/provider/router.go lead to.
use nukara.Base.{
  String, Bool, true, false, ◌==◌, any, ◌≡◌, ◌⊎◌, refl, sym, ◌∙◌, ap, Option, none, some,
  if◌then◌else◌, List, [], ◌∷◌, keep, absurd_bool, keep-All, keep-both, any-keep, or_left, subst,
  All, All-sort_by, first_non_empty, any-sort_by, is_blank, trim, sort_by, Bool-cases, inl, inr,
}
use nukara.Store.AgentTypes.{Provider}
use nukara.Provider.Router.{
  Route, ResolverStore, precedes, is_named, sorted_providers, find_provider, first_with_id,
  build_route, named_by, first_active, active_or_first, fallback, choose, non_empty,
  resolve_chat_route, setting_or_empty,
}

-- A search that finds nothing, or something that satisfies P.
abbrev pub Finds : (Provider → Type 0) → Option Provider → Type 0
Finds P o = (o ≡ none) ⊎ ((p : Provider) × (o ≡ some p) × P p)

-- A route to some provider that satisfies P: with its identifier, address and key.
abbrev pub LeadsTo : (Provider → Type 0) → Option Route → Type 0
LeadsTo P r =
    (p : Provider) × P p
    × ((route : Route) × (r ≡ some route)
        × (route.provider_id ≡ p.id)
        × (route.base_url ≡ p.base_url)
        × (route.api_key ≡ p.api_key))

module _ (P : Provider → Type 0) where
  first_with_id-Finds :
      (target : String) (ps : List Provider) → All P ps → Finds P (first_with_id target ps)
  unfolding first_with_id
  first_with_id-Finds target [] h = inl refl
  first_with_id-Finds target (q ∷ ps) h = elim (Bool-cases (q.id == target)) [
    | inl e ↦ rw e (inr (q, refl, h.0))
    | inr e ↦ rw e (first_with_id-Finds target ps h.1)
  ]

  find_provider-Finds :
      (ps : List Provider) (id : String) → All P ps → Finds P (find_provider ps id)
  unfolding find_provider
  find_provider-Finds ps id h = elim (Bool-cases (is_blank id)) [
    | inl e ↦ rw e (inl refl)
    | inr e ↦ rw e (first_with_id-Finds (trim id) ps h)
  ]

  Finds-if :
      (b : Bool) (x y : Option Provider) → Finds P x → Finds P y → Finds P (if b then x else y)
  Finds-if true x y h k = h
  Finds-if false x y h k = k

  pub first_active-Finds : (ps : List Provider) → All P ps → Finds P (first_active ps)
  unfolding first_active
  first_active-Finds [] h = inl refl
  first_active-Finds (q ∷ ps) h =
      Finds-if q.is_active (some q) (first_active ps) (inr (q, refl, h.0))
        (first_active-Finds ps h.1)

  fallback-finds :
      (q : Provider) (ps : List Provider) (id : String)
      → All P (q ∷ ps)
      → (p : Provider) × (fallback (q ∷ ps) id ≡ some p) × P p
  unfolding fallback active_or_first
  fallback-finds q ps id h = elim (find_provider-Finds (q ∷ ps) id h) [
    | inr (p, e, k) ↦ (p, rw (e, fallback) refl, k)
    | inl e ↦ elim (first_active-Finds (q ∷ ps) h) [
      | inr (p, f, k) ↦ (p, rw (e, f, fallback, active_or_first) refl, k)
      | inl f ↦ (q, rw (e, f, fallback, active_or_first) refl, h.0)
    ]
  ]

  -- The names of the settings, with the model they ask for.
  named_by-Finds :
      (ps : List Provider) (o : Option (String × String))
      → All P ps
      → (named_by ps o ≡ none)
        ⊎ ((p : Provider) × (m : String) × (named_by ps o ≡ some (p, m)) × P p)
  unfolding named_by
  named_by-Finds ps none h = inl refl
  named_by-Finds ps (some (id, m)) h = elim (find_provider-Finds ps id h) [
    | inl e ↦ inl (rw (e, named_by) refl)
    | inr (p, e, k) ↦ inr (p, m, rw (e, named_by) refl, k)
  ]

  choose-LeadsTo :
      (st : ResolverStore) (q : Provider) (ps : List Provider) (u b : String)
      → All P (q ∷ ps)
      → LeadsTo P (choose st (q ∷ ps) u b)
  unfolding choose build_route
  choose-LeadsTo st q ps u b h =
      let default_model = setting_or_empty st "default_chat_model" in
      let route : Provider → String → Route =
        λ p model. build_route p (first_non_empty (model ∷ default_model ∷ [])) in
      elim (named_by-Finds (q ∷ ps) (st.bot_override u b) h) [
        | inr (p, m, e, k) ↦ (p, k, (route p m, rw (e, choose) refl, refl, refl, refl))
        | inl e ↦ elim (named_by-Finds (q ∷ ps) (st.user_setting u) h) [
          | inr (p, m, f, k) ↦ (p, k, (route p m, rw (e, f, choose) refl, refl, refl, refl))
          | inl f ↦
              let (p, g, k) =
                fallback-finds q ps (setting_or_empty st "default_chat_provider_id") h in
              (p, k, (build_route p default_model, rw (e, f, g, choose) refl, refl, refl, refl))
        ]
      ]

pub sorted-cases :
    (st : ResolverStore) (all : List Provider)
    → st.providers ≡ some all
    → ((sort_by precedes (keep is_named all) ≡ []) × (sorted_providers st ≡ none))
      ⊎ ((q : Provider) × (ps : List Provider) × (sort_by precedes (keep is_named all) ≡ q ∷ ps)
          × (sorted_providers st ≡ some (q ∷ ps)))
unfolding sorted_providers
sorted-cases st all e = rw e (go (sort_by precedes (keep is_named all)))
  where
    go :
        (l : List Provider)
        → ((l ≡ []) × (non_empty l ≡ none))
          ⊎ ((q : Provider) × (ps : List Provider) × (l ≡ q ∷ ps) × (non_empty l ≡ some (q ∷ ps)))
    go [] = inl (refl, refl)
    go (q ∷ ps) = inr (q, ps, refl, refl)

any-sorted :
    (all : List Provider) → any is_named (sort_by precedes (keep is_named all)) ≡ any is_named all
any-sorted all = any-sort_by precedes is_named (keep is_named all) ∙ any-keep is_named all

-- The sorted list has, of the properties that all listed providers have, every one.
pub sorted-All :
    (P : Provider → Type 0) (all : List Provider)
    → All P all
    → All (λ p. P p × (is_named p ≡ true)) (sort_by precedes (keep is_named all))
sorted-All P all h =
    All-sort_by precedes (λ p. P p × (is_named p ≡ true)) (keep is_named all)
      (keep-both P is_named all h)

-- ResolveChatRoute leads to one of the listed providers that have an identifier, whatever the settings
-- say, if there is one. P stands for any property that all listed providers have.
pub resolve_chat_route-listed :
    (P : Provider → Type 0) (st : ResolverStore) (u b : String) (all : List Provider)
    → st.providers ≡ some all
    → All P all
    → any is_named all ≡ true
    → LeadsTo (λ p. P p × (is_named p ≡ true)) (resolve_chat_route st u b)
unfolding resolve_chat_route
resolve_chat_route-listed P st u b all e h some_named = elim (sorted-cases st all e) [
  | inl (l, s) ↦ absurd_bool (sym some_named ∙ sym (any-sorted all) ∙ ap (any is_named) l)
  | inr (q, ps, l, s) ↦
      let Q : Provider → Type 0 = λ p. P p × (is_named p ≡ true) in
      rw (s, resolve_chat_route)
        (choose-LeadsTo Q st q ps u b (subst (All Q) l (sorted-All P all h)))
]

-- ResolveChatRoute fails if no listed provider has an identifier.
pub resolve_chat_route-unlisted :
    (st : ResolverStore) (u b : String) (all : List Provider)
    → st.providers ≡ some all
    → any is_named all ≡ false
    → resolve_chat_route st u b ≡ none
unfolding resolve_chat_route
resolve_chat_route-unlisted st u b all e none_named = elim (sorted-cases st all e) [
  | inl (l, s) ↦ rw (s, resolve_chat_route) refl
  | inr (q, ps, l, s) ↦
      let Named : Provider → Type 0 = λ p. is_named p ≡ true in
      let named : is_named q ≡ true =
        (subst (All Named) l
          (All-sort_by precedes Named (keep is_named all) (keep-All is_named all))).0 in
      absurd_bool (
        sym (or_left (is_named q) (any is_named ps) named)
        ∙ (sym (ap (any is_named) l) ∙ (any-sorted all ∙ none_named)))
]
