-- ===== src/Memory/Reachable.antt =====
-- collectComponent of internal/agentx/memorygraph/recall.go returns what can be reached from its start.
use nukara.Base.{
  ℕ, zero, suc, String, Bool, true, false, ◌||◌, ◌==◌, Option, none, some, ◌≡◌, refl, ap, ◌∙◌, sym,
  subst, arith, ◌⊎◌, ◌↔◌, inl, inr, Map, List, [], ◌∷◌, ◌++◌, member, length, eq_iff, Bool-cases,
  or_left, or_right, absurd_bool,
}
use nukara.Memory.Component.{
  nexts, visit, collect, collect_component, member-append, all_targets, collect_component-ends,
}

-- A node that can be reached along the lists of the map.
pub data Reach (adjacency : Map (List String)) (start : String) : String → Type 0 where
  here : Reach adjacency start start
  step :
      (a b : String)
      → Reach adjacency start a
      → member b (nexts adjacency a) ≡ true
      → Reach adjacency start b

or_cases : (a b : Bool) → (a || b) ≡ true → (a ≡ true) ⊎ (b ≡ true)
or_cases true b h = inl refl
or_cases false b h = inr h

visit-out :
    (ids queue out : List String) (x : String)
    → member x (visit ids queue out).1 ≡ (member x out || member x ids)
unfolding visit member
visit-out [] queue out x = ground arith
visit-out (next ∷ ids) queue out x = elim (Bool-cases (member next out)) [
  | inl e ↦ rw (visit, e) (visit-out ids queue out x ∙ seen e (Bool-cases (next == x)))
  | inr e ↦
      rw (visit, e)
        (visit-out ids (queue ++ next ∷ []) (out ++ next ∷ []) x
          ∙ ground (arith, member-append x out (next ∷ [])))
]
  where
    seen :
        member next out ≡ true
        → ((next == x) ≡ true) ⊎ ((next == x) ≡ false)
        → (member x out || member x ids) ≡ (member x out || (next == x || member x ids))
    seen e (inl same) =
        let held : member x out ≡ true =
          ap (λ y. member y out) (sym ((eq_iff next x).0 same)) ∙ e in
        rw held refl
    seen e (inr other) = rw other refl

visit-queue :
    (ids queue out : List String) (x : String)
    → member x queue ≡ true
    → member x (visit ids queue out).0 ≡ true
unfolding visit
visit-queue [] queue out x h = h
visit-queue (next ∷ ids) queue out x h = elim (Bool-cases (member next out)) [
  | inl e ↦ rw (visit, e) (visit-queue ids queue out x h)
  | inr e ↦
      rw (visit, e)
        (visit-queue ids (queue ++ next ∷ []) (out ++ next ∷ []) x
          (member-append x queue (next ∷ []) ∙ or_left (member x queue) (member x (next ∷ [])) h))
]

visit-new :
    (ids queue out : List String) (x : String)
    → member x (visit ids queue out).1 ≡ true
    → (member x out ≡ true) ⊎ (member x (visit ids queue out).0 ≡ true)
unfolding visit
visit-new [] queue out x h = inl h
visit-new (next ∷ ids) queue out x h = elim (Bool-cases (member next out)) [
  | inl e ↦ rw (visit, e) (visit-new ids queue out x (rw (visit, e) at h))
  | inr e ↦
      rw (visit, e)
        elim (visit-new ids (queue ++ next ∷ []) (out ++ next ∷ []) x (rw (visit, e) at h)) [
          | inr k ↦ inr k
          | inl k ↦
              elim (or_cases (member x out) (member x (next ∷ []))
                (sym (member-append x out (next ∷ [])) ∙ k)) [
                  | inl a ↦ inl a
                  | inr a ↦ inr (
                      visit-queue ids (queue ++ next ∷ []) (out ++ next ∷ []) x (
                        member-append x queue (next ∷ [])
                        ∙ or_right (member x queue) (member x (next ∷ [])) a))
                ]
        ]
]

-- What is queued is collected.
visit-queued :
    (ids queue out : List String)
    → ((x : String) → member x queue ≡ true → member x out ≡ true)
    → (x : String) → member x (visit ids queue out).0 ≡ true
    → member x (visit ids queue out).1 ≡ true
unfolding visit
visit-queued [] queue out h x m = h x m
visit-queued (next ∷ ids) queue out h x m = elim (Bool-cases (member next out)) [
  | inl e ↦ rw (visit, e) (visit-queued ids queue out h x (rw (visit, e) at m))
  | inr e ↦
      rw (visit, e)
        (visit-queued ids (queue ++ next ∷ []) (out ++ next ∷ []) both x (rw (visit, e) at m))
]
  where
    both : (y : String) → member y (queue ++ next ∷ []) ≡ true → member y (out ++ next ∷ []) ≡ true
    both y k =
        elim (or_cases (member y queue) (member y (next ∷ []))
          (sym (member-append y queue (next ∷ [])) ∙ k)) [
            | inl a ↦
                member-append y out (next ∷ [])
                ∙ or_left (member y out) (member y (next ∷ [])) (h y a)
            | inr a ↦
                member-append y out (next ∷ []) ∙ or_right (member y out) (member y (next ∷ [])) a
          ]

or_empty : Option (List String) → List String
or_empty none = []
or_empty (some ids) = ids

module _ (adjacency : Map (List String)) (start : String) where
  -- Everything collected can be reached.
  abbrev IsSound : List String → Type 0
  IsSound out = (x : String) → member x out ≡ true → Reach adjacency start x

  -- What is collected is queued, or all its successors are collected.
  abbrev IsClosed : List String → List String → Type 0
  IsClosed queue out =
      (x : String)
      → member x out ≡ true
      → (member x queue ≡ true)
        ⊎ ((y : String) → member y (nexts adjacency x) ≡ true → member y out ≡ true)

  visit-IsClosed :
      (current : String) (queue out : List String)
      → IsClosed (current ∷ queue) out
      → let (queue', out') = visit (nexts adjacency current) queue out in IsClosed queue' out'
  unfolding member
  visit-IsClosed current queue out closed x h =
      let ids = nexts adjacency current in
      elim (visit-new ids queue out x h) [
        | inr k ↦ inl k
        | inl k ↦ elim (closed x k) [
          | inl q ↦ elim (or_cases (current == x) (member x queue) q) [
            | inl same ↦ inr (λ y m.
                let m' =
                  subst (λ z. member y (nexts adjacency z) ≡ true) (sym ((eq_iff current x).0 same))
                    m in
                visit-out ids queue out y ∙ or_right (member y out) (member y ids) m')
            | inr r ↦ inl (visit-queue ids queue out x r)
          ]
          | inr all ↦
              inr
                (λ y m. visit-out ids queue out y ∙ or_left (member y out) (member y ids) (all y m))
        ]
      ]

  Exact : List String → Type 0
  Exact result =
      (x : String)
      → (member x result ≡ true → Reach adjacency start x)
        × (Reach adjacency start x → member x result ≡ true)

  closed-Reach :
      (out : List String)
      → member start out ≡ true
      → IsClosed [] out
      → (x : String) → Reach adjacency start x
      → member x out ≡ true
  unfolding member
  closed-Reach out has closed x here = has
  closed-Reach out has closed x (step a b r m) = elim (closed a (closed-Reach out has closed a r)) [
    | inl bad ↦ absurd_bool (sym bad)
    | inr all ↦ all b m
  ]

  collect-Exact :
      (fuel : ℕ) (queue out result : List String)
      → collect fuel adjacency queue out ≡ some result
      → IsSound out
      → ((x : String) → member x queue ≡ true → member x out ≡ true)
      → IsClosed queue out
      → member start out ≡ true
      → Exact result
  unfolding collect member Exact or_empty
  collect-Exact fuel [] out result e sound queued closed has =
      subst Exact (ap or_empty e) (λ x. (sound x, closed-Reach out has closed x))
  collect-Exact zero (current ∷ queue) out result e sound queued closed has = ground arith
  collect-Exact (suc fuel) (current ∷ queue) out result e sound queued closed has =
      let ids = nexts adjacency current in
      let (queue', out') = visit ids queue out in
      let grown = λ (y : String) (h : member y out ≡ true).
        visit-out ids queue out y ∙ or_left (member y out) (member y ids) h in
      let at_current = sound current (
        queued current (
          or_left (current == current) (member current queue)
            (ground (arith, eq_iff current current)))) in
      collect-Exact fuel queue' out' result e
        (λ x h.
          elim (or_cases (member x out) (member x ids) (sym (visit-out ids queue out x) ∙ h)) [
            | inl a ↦ sound x a
            | inr m ↦ step current x at_current m
          ])
        (visit-queued ids queue out (λ x h. queued x (or_right (current == x) (member x queue) h)))
        (visit-IsClosed current queue out closed) (grown start has)

-- collectComponent returns the identifiers that can be reached from the start along the lists of the
-- map, and no others; in particular it returns.
pub collect_component-reaches :
    (start : String) (adjacency : Map (List String))
    → (result : List String) × (collect_component start adjacency ≡ some result)
      × ((x : String) → (member x result ≡ true) ↔ Reach adjacency start x)
unfolding collect_component Exact member
collect_component-reaches start adjacency =
    let (result, e) = collect_component-ends start adjacency in
    let self : member start (start ∷ []) ≡ true = ground (arith, eq_iff start start) in
    (
      result,
      e,
      collect-Exact adjacency start (suc (length (all_targets adjacency.entries))) (start ∷ [])
          (start ∷ []) result e
          (λ x h. elim (or_cases (start == x) false h) [
            | inl a ↦ subst (Reach adjacency start) ((eq_iff start x).0 a) here
            | inr b ↦ absurd_bool (sym b)
          ])
          (λ x h. h) (λ x h. inl h) self,
    )
