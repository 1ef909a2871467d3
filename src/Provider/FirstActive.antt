-- ===== src/Provider/FirstActive.antt =====
-- The route of internal/agentx/provider/router.go where no setting names a provider.
use nukara.Base.{
  String, Bool, true, false, arith, ◌&&◌, any, ◌≡◌, refl, sym, ◌∙◌, ap, Option, none, some,
  if◌then◌else◌, List, [], ◌∷◌, keep, absurd_bool, subst, All, any-sort_by, All-sort_by_inv, trim,
  sort_by, IsOrdered, sort_by-IsOrdered, inl, inr,
}
use nukara.Store.AgentTypes.{Provider}
use nukara.Provider.Order.{NotBefore, precedes-asymm, first_active-least}
use nukara.Provider.Router.{
  ResolverStore, precedes, is_named, find_provider, build_route, named_by, first_active,
  active_or_first, fallback, choose, resolve_chat_route, setting_or_empty,
}
use nukara.Provider.Routes.{Finds, LeadsTo, first_active-Finds, sorted-cases, sorted-All}

-- What a search found has the property of all that it finds.
found_is :
    (Q : Provider → Type 0) (o : Option Provider) (p : Provider) → Finds Q o → o ≡ some p → Q p
found_is Q o p (inl e) h = absurd (none_is_not (sym e ∙ h))
  where
    none_is_not : none ≡ some p → ⊥
    none_is_not e = ground arith
found_is Q o p (inr (x, e, k)) h = subst Holds (sym e ∙ h) k
  where
    Holds : Option Provider → Type 0
    Holds none = Unit
    Holds (some y) = Q y

keep-active :
    (Q : Provider → Type 0) (all : List Provider)
    → All (λ q. q.is_active ≡ true → Q q) (keep is_named all)
    → All Q (keep (λ q. is_named q && q.is_active) all)
keep-active Q [] h = tt
keep-active Q (x ∷ xs) h = go (is_named x) x.is_active refl h (keep-active Q xs)
  where
    go :
        (named on : Bool)
        → x.is_active ≡ on
        → All
            (λ q. q.is_active ≡ true → Q q)
            (if named then x ∷ keep is_named xs else keep is_named xs)
        → (All (λ q. q.is_active ≡ true → Q q) (keep is_named xs)
            → All Q (keep (λ q. is_named q && q.is_active) xs))
        → All Q (
            if named && on
            then x ∷ keep (λ q. is_named q && q.is_active) xs
            else keep (λ q. is_named q && q.is_active) xs)
    go true true e k ih = (k.0 e, ih k.1)
    go true false e k ih = ih k.1
    go false on e k ih = ih k

find-blank : (ps : List Provider) → find_provider ps "" ≡ none
unfolding find_provider trim
find-blank ps = refl

fallback-blank :
    (q p : Provider) (ps : List Provider)
    → first_active (q ∷ ps) ≡ some p
    → fallback (q ∷ ps) "" ≡ some p
unfolding fallback active_or_first
fallback-blank q p ps e = rw (find-blank (q ∷ ps), e, fallback, active_or_first) refl

unset :
    (o : Option String)
    → o ≡ none
    → (elim o as (λ _. String) [ none ↦ "" | some value ↦ value ]) ≡ ""
unset o e = ap {B = String} (λ x. elim x [ none ↦ "" | some value ↦ value ]) e

chosen_by_default :
    (st : ResolverStore) (u b : String) (q p : Provider) (ps : List Provider)
    → st.bot_override u b ≡ none
    → st.user_setting u ≡ none
    → st.system_setting "default_chat_provider_id" ≡ none
    → first_active (q ∷ ps) ≡ some p
    → choose st (q ∷ ps) u b ≡ some (build_route p (setting_or_empty st "default_chat_model"))
unfolding choose named_by
chosen_by_default st u b q p ps no_bot no_user no_default e =
    let default_id : setting_or_empty st "default_chat_provider_id" ≡ "" =
      unset (st.system_setting "default_chat_provider_id") no_default in
    rw
      (
        no_bot,
        no_user,
        ap (fallback (q ∷ ps)) default_id ∙ fallback-blank q p ps e,
        choose,
        named_by,
      )
      refl

-- Where neither the bot nor the user has a setting and there is no default provider, ResolveChatRoute
-- leads to a listed provider that is active and has an identifier, if there is one, and no such
-- provider comes before it by priority. P stands for any property that all listed providers have.
pub resolve_chat_route-first_active :
    (P : Provider → Type 0) (st : ResolverStore) (u b : String) (all : List Provider)
    → st.providers ≡ some all
    → All P all
    → st.bot_override u b ≡ none
    → st.user_setting u ≡ none
    → st.system_setting "default_chat_provider_id" ≡ none
    → any (λ p. p.is_active) (keep is_named all) ≡ true
    → LeadsTo
        (λ p.
          P p
          × (is_named p ≡ true)
          × (p.is_active ≡ true)
          × All (λ q. NotBefore q p) (keep (λ q. is_named q && q.is_active) all))
        (resolve_chat_route st u b)
unfolding resolve_chat_route build_route
resolve_chat_route-first_active P st u b all e h no_bot no_user no_default active =
    let order = sort_by precedes (keep is_named all) in
    let some_active : any (λ p. p.is_active) order ≡ true =
      any-sort_by precedes (λ p. p.is_active) (keep is_named all) ∙ active in
    elim (sorted-cases st all e) [
      | inl (l, s) ↦ absurd_bool (sym some_active ∙ ap (any (λ p. p.is_active)) l)
      | inr (q, ps, l, s) ↦
          let ordered =
            subst (IsOrdered precedes) l
              (sort_by-IsOrdered precedes precedes-asymm (keep is_named all)) in
          let (p, f, (a, k)) =
            first_active-least (q ∷ ps) ordered
              (sym (ap (any (λ p. p.is_active)) l) ∙ some_active) in
          let Q : Provider → Type 0 = λ r. P r × (is_named r ≡ true) in
          let (listed, named) =
            found_is Q (first_active (q ∷ ps)) p
              (first_active-Finds Q (q ∷ ps) (subst (All Q) l (sorted-All P all h))) f in
          let Least : Provider → Type 0 = λ r. r.is_active ≡ true → NotBefore r p in
          (
            p,
            (
              listed,
              named,
              a,
              keep-active (λ r. NotBefore r p) all
                  (All-sort_by_inv precedes Least (keep is_named all)
                    (subst (All Least) (sym l) k)),
            ),
            (
              build_route p (setting_or_empty st "default_chat_model"),
              rw (s, resolve_chat_route)
                  (chosen_by_default st u b q p ps no_bot no_user no_default f),
              refl,
              refl,
              refl,
            ),
          )
    ]
