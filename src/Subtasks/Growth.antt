-- ===== src/Subtasks/Growth.antt =====
-- The version of a persona counts the changes that applyPersonaDecisions accepts.
use nukara.Base.{
  ℕ, suc, ◌+◌, ◌<◌, ◌≤◌, String, Bool, true, false, not, ◌&&◌, ◌==◌, trim, trim_idem, member,
  if◌then◌else◌, is_blank, Option, none, some, List, [], ◌∷◌, ◌++◌, All, length, length-append, pos,
  max_int, ◌≡◌, refl, sym, ap, ◌∙◌, subst, arith, Bool-cases, inl, inr, get, get-put_self, is_empty,
}
use nukara.Store.Types.{Bot, PersonaPatchInput}
use nukara.Store.AgentTypes.{MemoryItem, PersonaChangeEvent}
use nukara.Store.Persona.{sync_legacy_persona_fields}
use nukara.Store.State.{Store}
use nukara.Store.Bots.{apply_bot_persona_patch, apply_persona_input, change_bot}
use nukara.Store.Bots.Updates.{owned, next_version-suc}
use nukara.Store.AgentData.Changes.{create_persona_change_event}
use nukara.Subtasks.Eligible.{log_event-bots}
use nukara.Subtasks.Decide.{
  PersonaDecision, persona_fields, map_semantic_category_to_persona_field, patch_from_memory_item,
  skipped, is_empty_persona_patch, persona_field_already_covers, decide_persona_change,
}
use nukara.Subtasks.Remember.{Input, Deps, Draws}
use nukara.Subtasks.Apply.{
  Progress, event_of, log_event, after_patch, after_apply, carry_out, apply_decisions, start,
}

-- What the patch of an own bot returns and stores
patched :
    (s : Store) (now : ℕ) (u b : String) (bot : Bot) (input : PersonaPatchInput) (m : ℕ)
    → get s.bots_by_id b ≡ some bot
    → bot.user_id ≡ u
    → bot.persona_version ≡ pos m
    → m < max_int
    → (t : Store) × (out : Bot) × (apply_bot_persona_patch s now u b input ≡ (t, some out))
      × (get t.bots_by_id b ≡ some out)
      × (out.user_id ≡ u)
      × (out.persona_version ≡ pos (m + 1))
unfolding apply_bot_persona_patch apply_persona_input sync_legacy_persona_fields
patched s now u b bot input m found same at small =
    rw (owned s u b bot found same, change_bot)
      (_, _, refl, get-put_self s.bots_by_id b _, same, rw at (next_version-suc m small))

abbrev Names : Option PersonaDecision → Type 0
Names none = Unit
Names (some decision) = is_blank decision.field ≡ false

Names-choice :
    (f : String) (a b c d e : Bool) (x y z w : PersonaDecision)
    → x.field ≡ f
    → y.field ≡ f
    → z.field ≡ f
    → w.field ≡ f
    → (a ≡ false → is_blank f ≡ false)
    → Names (
        if a
        then none
        else if b
        then some x
        else if c
        then some y
        else if d
        then none
        else if e
        then some z
        else some w)
Names-choice f true b c d e x y z w hx hy hz hw h = tt
Names-choice f false true c d e x y z w hx hy hz hw h = rw hx (h refl)
Names-choice f false false true d e x y z w hx hy hz hw h = rw hy (h refl)
Names-choice f false false false true e x y z w hx hy hz hw h = tt
Names-choice f false false false false true x y z w hx hy hz hw h = rw hz (h refl)
Names-choice f false false false false false x y z w hx hy hz hw h = rw hw (h refl)

field-blank :
    (item : MemoryItem)
    → let field = map_semantic_category_to_persona_field item in
      (field == "") ≡ false → is_blank field ≡ false
unfolding map_semantic_category_to_persona_field
field-blank item h =
    let category = trim item.semantic_category in
    elim (Bool-cases (member category persona_fields)) [
      | inl e ↦
          let chosen : map_semantic_category_to_persona_field item ≡ category =
            rw (map_semantic_category_to_persona_field, e) refl in
          ap (λ t. trim t == "") chosen
          ∙ ap (λ t. t == "") (trim_idem item.semantic_category)
          ∙ ap (λ t. t == "") (sym chosen)
          ∙ h
      | inr e ↦
          let chosen : map_semantic_category_to_persona_field item ≡ "" =
            rw (map_semantic_category_to_persona_field, e) refl in
          ground (arith, chosen, h, ap (λ t. t == "") chosen)
    ]

decide-Names :
    (to_lower : String → List ℕ) (is_mark : ℕ → Bool) (item : MemoryItem) (bot : Bot)
    → Names (decide_persona_change to_lower is_mark item bot)
unfolding decide_persona_change
decide-Names to_lower is_mark item bot =
    let field = map_semantic_category_to_persona_field item in
    let patch = patch_from_memory_item field item.content in
    let accepted : PersonaDecision = record (skipped to_lower is_mark field "stable_core_fact") {
      patch = patch;
      should_apply = true;
      status = "accepted";
    } in
    Names-choice field (field == "") (not (trim item.stability == "stable"))
      (trim item.kind == "user_fact" && not (field == "taboos_and_preferences"))
      (is_empty_persona_patch patch)
      (persona_field_already_covers to_lower is_mark bot field item.content)
      (skipped to_lower is_mark field "temporary_fact")
      (skipped to_lower is_mark field "user_fact_does_not_mutate_bot_persona")
      (skipped to_lower is_mark field "already_covered") accepted refl refl refl refl
      (field-blank item)

module _ (i : Input) (n : ℕ) where
  -- The bot in the store is the user's, its version is `n` and the number of accepted changes, and
  -- these are at most `k`.
  abbrev pub Counts : ℕ → Progress → Type 0
  Counts k p =
      (bot : Bot) × (get p.store.bots_by_id i.bot_id ≡ some bot)
      × (bot.user_id ≡ i.user_id)
      × (bot.persona_version ≡ pos (n + length p.accepted_changes))
      × (p.persona_updated ≡ not (is_empty p.accepted_changes))
      × (length p.accepted_changes ≤ k)

  Counts-log :
      (d : Draws) (k : ℕ) (p : Progress) (event : PersonaChangeEvent)
      → Counts k p
      → Counts (suc k) (record p { store = (log_event d k p.store event).0 })
  Counts-log d k p event (bot, found, same, at, shown, few) = (
    bot,
    ap (λ m. get m i.bot_id) (log_event-bots d k p.store event) ∙ found,
    same,
    at,
    shown,
    omega (arith, few),
  )

  -- An event with all its parts is stored.
  logged :
      (d : Draws) (k : ℕ) (s : Store) (item : MemoryItem) (decision : PersonaDecision)
      → is_blank i.user_id ≡ false
      → is_blank i.bot_id ≡ false
      → is_blank item.content ≡ false
      → is_blank decision.field ≡ false
      → (saved : PersonaChangeEvent) × ((log_event d k s (event_of i item decision)).1 ≡ some saved)
  unfolding create_persona_change_event
  logged d k s item decision hu hb hc hf =
      rw (hu, hb, hf, ap (λ t. t == "") (trim_idem item.content) ∙ hc) (_, refl)

  module _ (d : Draws) (hu : is_blank i.user_id ≡ false) (hb : is_blank i.bot_id ≡ false) where
    after_patch-Counts :
        (k : ℕ) (p : Progress) (t : Store) (out : Bot) (item : MemoryItem)
        (decision : PersonaDecision)
        → is_blank item.content ≡ false
        → is_blank decision.field ≡ false
        → get t.bots_by_id i.bot_id ≡ some out
        → out.user_id ≡ i.user_id
        → out.persona_version ≡ pos (n + length p.accepted_changes + 1)
        → length p.accepted_changes ≤ k
        → Counts (suc k) (after_patch d k p t out (event_of i item decision) decision.patch)
    unfolding after_patch
    after_patch-Counts k p t out item decision hc hf found same at few =
        let event = event_of i item decision in
        let (saved, created) = logged d k t item decision hu hb hc hf in
        let grown = length-append p.accepted_changes (saved ∷ []) in
        let kept = ap (λ m. get m i.bot_id) (log_event-bots d k t event) ∙ found in
        let shown : true ≡ not (is_empty (p.accepted_changes ++ saved ∷ [])) =
          nonempty saved p.accepted_changes in
        rw (after_patch, created)
          (out, kept, same, at ∙ ap pos (omega (arith, grown)), shown, omega (arith, grown, few))
      where
        nonempty :
            (e : PersonaChangeEvent) (es : List PersonaChangeEvent)
            → true ≡ not (is_empty (es ++ e ∷ []))
        nonempty e [] = refl
        nonempty e (x ∷ es) = refl

    carry_out-Counts :
        (k : ℕ) (p : Progress) (item : MemoryItem) (decision : PersonaDecision)
        → is_blank item.content ≡ false
        → is_blank decision.field ≡ false
        → n + k < max_int
        → Counts k p
        → Counts (suc k) (carry_out d i k p item decision)
    unfolding carry_out
    carry_out-Counts k p item decision hc hf small (bot, found, same, at, shown, few) =
        let (t, out, result, kept, own, next) =
          patched p.store (d.applied_at k) i.user_id i.bot_id bot decision.patch
            (n + length p.accepted_changes) found same at (omega (arith, small, few)) in
        elim (Bool-cases decision.should_apply) [
          | inl e ↦
              let event = event_of i item decision in
              rw e (
                subst (λ r. Counts (suc k) (after_apply d k p event decision.patch r)) (sym result)
                  (after_patch-Counts k p t out item decision hc hf kept own next few))
          | inr e ↦
              rw e (Counts-log d k p (event_of i item decision) (bot, found, same, at, shown, few))
        ]

    apply_decisions-Counts :
        (deps : Deps) (items : List MemoryItem) (k : ℕ) (p : Progress)
        → All (λ item. is_blank item.content ≡ false) items
        → n + k + length items ≤ max_int
        → Counts k p
        → Counts (k + length items) (apply_decisions deps d i k p items)
    unfolding apply_decisions
    apply_decisions-Counts deps [] k p h small c = subst (λ m. Counts m p) (omega arith) c
    apply_decisions-Counts deps (item ∷ items) k p (h, hs) small c =
        let next : Progress = elim (decide_persona_change deps.to_lower deps.is_mark item p.bot) [
          | none ↦ p
          | some decision ↦ carry_out d i k p item decision
        ] in
        subst (λ m. Counts m (apply_decisions deps d i (suc k) next items)) (omega arith)
          (apply_decisions-Counts deps items (suc k) next hs (omega (arith, small)) (
            go (decide_persona_change deps.to_lower deps.is_mark item p.bot)
              (decide-Names deps.to_lower deps.is_mark item p.bot)))
      where
        go :
            (r : Option PersonaDecision)
            → Names r
            → Counts (suc k) (elim r [ none ↦ p | some decision ↦ carry_out d i k p item decision ])
        go none names =
            let (bot, found, same, at, shown, few) = c in
            (bot, found, same, at, shown, omega (arith, few))
        go (some decision) names =
            carry_out-Counts k p item decision h names (omega (arith, small)) c

-- For an own bot with a persona version `n`, identifiers and contents that are not blank, and no
-- overflow: after the loop of applyPersonaDecisions the stored bot is still the user's and its
-- version is `n` plus the number of the accepted changes, of which there is at most one for each
-- item; and the persona counts as updated exactly if a change was accepted.
pub version_counts_changes :
    (deps : Deps) (d : Draws) (i : Input) (s : Store) (items : List MemoryItem) (bot seen : Bot)
    (n : ℕ)
    → get s.bots_by_id i.bot_id ≡ some bot
    → bot.user_id ≡ i.user_id
    → bot.persona_version ≡ pos n
    → is_blank i.user_id ≡ false
    → is_blank i.bot_id ≡ false
    → All (λ item. is_blank item.content ≡ false) items
    → n + length items ≤ max_int
    → let p = apply_decisions deps d i 0 (start s seen) items in
      (out : Bot) × (get p.store.bots_by_id i.bot_id ≡ some out)
      × (out.user_id ≡ i.user_id)
      × (out.persona_version ≡ pos (n + length p.accepted_changes))
      × (p.persona_updated ≡ not (is_empty p.accepted_changes))
      × (length p.accepted_changes ≤ length items)
version_counts_changes deps d i s items bot seen n found same at hu hb hs small =
    let begun : Counts i n 0 (start s seen) =
      (bot, found, same, at ∙ ap pos (omega arith), refl, omega arith) in
    subst (λ m. Counts i n m (apply_decisions deps d i 0 (start s seen) items)) (omega arith)
      (apply_decisions-Counts i n d hu hb deps items 0 (start s seen) hs (omega (arith, small))
        begun)
