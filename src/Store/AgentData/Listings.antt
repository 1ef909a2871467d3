-- ===== src/Store/AgentData/Listings.antt =====
-- What ListMemoryItems and ListPersonaChangeEvents of internal/store/agentx_data.go return.
use mathlib.Core.List.{Perm}
use nukara.Base.{
  ◌≤◌, String, Bool, true, false, ◌==◌, ◌&&◌, ◌||◌, ◌≡◌, ◌⊎◌, refl, sym, ◌∙◌, ap, arith, values, ℤ,
  pos, negsuc, positive_or, List, [], ◌∷◌, ◌++◌, keep, length, min, All, trim, equal_fold, ltb, eqb,
  eqb_iff, eqb_int, ltb_int, ltb_int-asymm, IsOrdered, listing_lem, listing-arranged, Bool-cases,
  absurd_bool, inl, inr,
}
use nukara.Store.Types.{CaseRules, after}
use nukara.Store.AgentTypes.{MemoryItem, PersonaChangeEvent}
use nukara.Store.State.{Store}
use nukara.Store.AgentData.Memories.{list_memory_items, is_listed_memory, more_important}
use nukara.Store.AgentData.Changes.{list_persona_change_events, newer_event, concerns, has_status}

newer_event-asymm : (a b : PersonaChangeEvent) → newer_event a b ≡ true → newer_event b a ≡ false
unfolding newer_event
newer_event-asymm a b h = ground arith

eqb_int-sym : (a b : ℤ) → eqb_int a b ≡ eqb_int b a
eqb_int-sym (pos m) (pos n) = ground arith
eqb_int-sym (pos m) (negsuc n) = refl
eqb_int-sym (negsuc m) (pos n) = refl
eqb_int-sym (negsuc m) (negsuc n) = ground arith

more_important-asymm : (a b : MemoryItem) → more_important a b ≡ true → more_important b a ≡ false
unfolding more_important
more_important-asymm a b h =
    ground (arith, eqb_int-sym a.importance b.importance, ltb_int-asymm b.importance a.importance)

-- An item of that user and bot, active or without a status
abbrev pub qualifies : String → String → MemoryItem → Bool
qualifies u b item =
    (trim item.user_id == trim u && trim item.bot_id == trim b)
    && (trim item.status == "" || equal_fold (trim item.status) "active")

-- `y` may stand behind `x`: it is less important, or as important and not later.
abbrev pub Ranks : MemoryItem → MemoryItem → Type 0
Ranks x y =
    (ltb_int y.importance x.importance ≡ true)
    ⊎ ((x.importance ≡ y.importance) × (y.occurred_at ≤ x.occurred_at))

abbrev pub IsRanked : List MemoryItem → Type 0
IsRanked [] = Unit
IsRanked (x ∷ []) = Unit
IsRanked (x ∷ y ∷ items) = Ranks x y × IsRanked (y ∷ items)

int_order :
    (a b : ℤ)
    → ((eqb_int a b ≡ true) × (b ≡ a))
      ⊎ ((eqb_int a b ≡ false) × ((ltb_int a b ≡ true) ⊎ (ltb_int b a ≡ true)))
int_order (pos m) (pos n) = elim (Bool-cases (eqb m n)) [
  | inl e ↦ inl (e, ap pos (sym ((eqb_iff m n).0 e)))
  | inr e ↦ elim (Bool-cases (ltb m n)) [
    | inl f ↦ inr (e, inl f)
    | inr f ↦ inr (e, inr (ground (arith, eqb_iff m n)))
  ]
]
int_order (pos m) (negsuc n) = inr (refl, inr refl)
int_order (negsuc m) (pos n) = inr (refl, inl refl)
int_order (negsuc m) (negsuc n) = elim (Bool-cases (eqb m n)) [
  | inl e ↦ inl (e, ap negsuc (sym ((eqb_iff m n).0 e)))
  | inr e ↦ elim (Bool-cases (ltb m n)) [
    | inl f ↦ inr (e, inr f)
    | inr f ↦ inr (e, inl (ground (arith, eqb_iff m n)))
  ]
]

more_important-Ranks : (x y : MemoryItem) → more_important y x ≡ false → Ranks x y
unfolding more_important
more_important-Ranks x y h = elim (int_order y.importance x.importance) [
  | inl (e, same) ↦
      let late : after y.occurred_at x.occurred_at ≡ false = rw e at h in
      inr (same, ground (arith, late))
  | inr (e, inl less) ↦ inl less
  | inr (e, inr more) ↦
      let none_more : ltb_int x.importance y.importance ≡ false = rw e at h in
      absurd_bool (sym more ∙ none_more)
]

IsOrdered-IsRanked : (items : List MemoryItem) → IsOrdered more_important items → IsRanked items
IsOrdered-IsRanked [] h = tt
IsOrdered-IsRanked (x ∷ []) h = tt
IsOrdered-IsRanked (x ∷ y ∷ items) h =
    (more_important-Ranks x y h.0, IsOrdered-IsRanked (y ∷ items) h.1)

-- ListMemoryItems returns the first items, as many as the limit allows (20 for a limit that is not
-- positive) and there are, of an arrangement of exactly the stored items that are of that user and bot
-- and active or without a status; it is by falling importance and, at the same importance, the latest
-- first.
pub list_memory_items_lem :
    (s : Store) (u b : String) (limit : ℤ)
    → let out = list_memory_items s u b limit in
      let all = keep (qualifies u b) (values s.memory_items_by_id) in
      (rest : List MemoryItem) × Perm (out ++ rest) all
      × (length out ≡ min (positive_or 20 limit) (length all))
      × IsRanked (out ++ rest)
unfolding list_memory_items is_listed_memory
list_memory_items_lem s u b limit =
    let (rest, perm, size, ordered) =
      listing-arranged more_important more_important-asymm (is_listed_memory u b)
        (positive_or 20 limit) (values s.memory_items_by_id) in
    (rest, perm, size, IsOrdered-IsRanked _ ordered)

-- ListPersonaChangeEvents returns at most `limit` events (20 for a limit that is not positive), all of
-- that user and bot and of the status asked for, the newest first.
pub list_persona_change_events_lem :
    (rules : CaseRules) (s : Store) (u b status : String) (limit : ℤ)
    → let out = list_persona_change_events rules s u b status limit in
      (length out ≤ positive_or 20 limit)
      × All (λ e. (concerns u b e && has_status rules status e) ≡ true) out
      × IsOrdered newer_event out
unfolding list_persona_change_events
list_persona_change_events_lem rules s u b status limit =
    listing_lem newer_event newer_event-asymm (λ e. concerns u b e && has_status rules status e)
      (positive_or 20 limit) (values s.persona_change_events_by_id)
