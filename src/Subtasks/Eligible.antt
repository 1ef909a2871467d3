-- ===== src/Subtasks/Eligible.antt =====
-- What a run of applyPersonaDecisions may do to the bots.
use nukara.Base.{
  ℕ, suc, String, Bool, true, false, not, ◌&&◌, ◌==◌, trim, member, Option, none, some, List, [],
  ◌∷◌, All, ◌≡◌, refl, ◌∙◌, arith, Bool-cases, Option-cases, inl, inr, if◌then◌else◌, ◌⊎◌,
}
use nukara.Store.Types.{Bot}
use nukara.Store.AgentTypes.{MemoryItem, PersonaChangeEvent}
use nukara.Store.State.{Store}
use nukara.Store.Bots.{get_bot}
use nukara.Store.AgentData.Changes.{create_persona_change_event}
use nukara.Subtasks.Decide.{
  PersonaDecision, persona_fields, map_semantic_category_to_persona_field, decide_persona_change,
}
use nukara.Subtasks.Remember.{Input, Deps, Draws}
use nukara.Subtasks.Apply.{
  Progress, event_of, log_event, carry_out, apply_decisions, start, finish, apply_persona_decisions,
}

-- A fact that does not last, a fact on the user, or one of no field of a persona
abbrev pub IsFleeting : MemoryItem → Type 0
IsFleeting item =
    (member (trim item.semantic_category) persona_fields ≡ false)
    ⊎ (((trim item.stability == "stable") ≡ false)
        ⊎ (((trim item.kind == "user_fact") ≡ true)
            × ((trim item.semantic_category == "taboos_and_preferences") ≡ false)))

-- A decision that changes no bot
abbrev Spares : Option PersonaDecision → Type 0
Spares none = Unit
Spares (some decision) = decision.should_apply ≡ false

Spares-choice :
    (a b c d e : Bool) (x y z w : PersonaDecision)
    → x.should_apply ≡ false
    → y.should_apply ≡ false
    → z.should_apply ≡ false
    → (a ≡ true) ⊎ ((b ≡ true) ⊎ (c ≡ true))
    → Spares (
        if a
        then none
        else if b
        then some x
        else if c
        then some y
        else if d
        then none
        else if e
        then some z
        else some w)
Spares-choice true b c d e x y z w hx hy hz h = tt
Spares-choice false true c d e x y z w hx hy hz h = hx
Spares-choice false false true d e x y z w hx hy hz h = hy
Spares-choice false false false true e x y z w hx hy hz h = tt
Spares-choice false false false false true x y z w hx hy hz h = hz
Spares-choice false false false false false x y z w hx hy hz h = ground arith

-- The three tests that skip a fleeting item
tests_skip :
    (item : MemoryItem)
    → IsFleeting item
    → let field = map_semantic_category_to_persona_field item in
      ((field == "") ≡ true)
      ⊎ ((not (trim item.stability == "stable") ≡ true)
          ⊎ ((trim item.kind == "user_fact" && not (field == "taboos_and_preferences")) ≡ true))
unfolding map_semantic_category_to_persona_field
tests_skip item (inl none_of) = inl (rw (map_semantic_category_to_persona_field, none_of) refl)
tests_skip item (inr (inl unstable)) = inr (inl (rw unstable refl))
tests_skip item (inr (inr (user, other))) =
    let category = trim item.semantic_category in
    elim (Bool-cases (member category persona_fields)) [
      | inl e ↦ inr (inr (rw (map_semantic_category_to_persona_field, e, user, other) refl))
      | inr e ↦ inl (rw (map_semantic_category_to_persona_field, e) refl)
    ]

module _ (to_lower : String → List ℕ) (is_mark : ℕ → Bool) where
  decide-Spares :
      (item : MemoryItem) (bot : Bot)
      → IsFleeting item
      → Spares (decide_persona_change to_lower is_mark item bot)
  unfolding decide_persona_change
  decide-Spares item bot h = Spares-choice _ _ _ _ _ _ _ _ _ refl refl refl (tests_skip item h)

pub log_event-bots :
    (d : Draws) (n : ℕ) (s : Store) (event : PersonaChangeEvent)
    → (log_event d n s event).0.bots_by_id ≡ s.bots_by_id
unfolding create_persona_change_event
log_event-bots d n s event = ground arith

-- Nothing happened to the bots, and nothing is reported.
abbrev IsQuiet : Store → Progress → Type 0
IsQuiet s p =
    (p.store.bots_by_id ≡ s.bots_by_id) × (p.persona_updated ≡ false) × (p.accepted_changes ≡ [])

module _ (deps : Deps) (d : Draws) (i : Input) (s : Store) where
  carry_out-IsQuiet :
      (n : ℕ) (p : Progress) (item : MemoryItem) (decision : PersonaDecision)
      → decision.should_apply ≡ false
      → IsQuiet s p
      → IsQuiet s (carry_out d i n p item decision)
  unfolding carry_out
  carry_out-IsQuiet n p item decision e (bots, updated, accepted) =
      rw e (log_event-bots d n p.store (event_of i item decision) ∙ bots, updated, accepted)

  apply_decisions-IsQuiet :
      (items : List MemoryItem) (n : ℕ) (p : Progress)
      → All IsFleeting items
      → IsQuiet s p
      → IsQuiet s (apply_decisions deps d i n p items)
  unfolding apply_decisions
  apply_decisions-IsQuiet [] n p h quiet = quiet
  apply_decisions-IsQuiet (item ∷ items) n p (h, hs) quiet =
      apply_decisions-IsQuiet items (suc n) _ hs (
        go (decide_persona_change deps.to_lower deps.is_mark item p.bot)
          (decide-Spares deps.to_lower deps.is_mark item p.bot h))
    where
      go :
          (r : Option PersonaDecision)
          → Spares r
          → IsQuiet s (elim r [ none ↦ p | some decision ↦ carry_out d i n p item decision ])
      go none spares = quiet
      go (some decision) spares = carry_out-IsQuiet n p item decision spares quiet

-- Where every item is a fact that does not last, one on the user that is no taboo or preference, or
-- one of no field of a persona, applyPersonaDecisions leaves all bots as they were and reports no
-- update of the persona.
pub fleeting_facts_spare :
    (deps : Deps) (d : Draws) (i : Input) (s : Store) (items : List MemoryItem)
    → All IsFleeting items
    → let (t, result) = apply_persona_decisions deps d i s items in
      (t.bots_by_id ≡ s.bots_by_id) × (result.persona_updated ≡ false)
unfolding apply_persona_decisions
fleeting_facts_spare deps d i s items h = elim (Option-cases (get_bot s i.user_id i.bot_id)) [
  | inl e ↦ rw (apply_persona_decisions, e) (refl, refl)
  | inr (bot, e) ↦
      let quiet = apply_decisions-IsQuiet deps d i s items 0 (start s bot) h (refl, refl, refl) in
      rw (apply_persona_decisions, e)
        (finish-quiet (apply_decisions deps d i 0 (start s bot) items) quiet)
]
  where
    finish-quiet :
        (p : Progress)
        → IsQuiet s p
        → let (t, result) = finish deps p in
          (t.bots_by_id ≡ s.bots_by_id) × (result.persona_updated ≡ false)
    finish-quiet p (bots, updated, accepted) = rw (accepted, updated) (bots, refl)
