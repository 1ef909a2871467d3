-- ===== src/Memory/Component.antt =====
-- collectComponent of internal/agentx/memorygraph/recall.go: a breadth-first search, and that it ends.
use nukara.Base.{
  ℕ, zero, suc, ◌+◌, ◌≤◌, ◌<◌, String, true, false, ◌==◌, ◌||◌, Option, none, some, ◌≡◌, refl, ap,
  ◌∙◌, sym, arith, if◌then◌else◌, Map, get, get_or, find, List, [], ◌∷◌, ◌++◌, member, length, All,
  eq_iff, length-append, Bool-cases, inl, inr, absurd_bool, or_right,
}

-- The `[]string` values of a map, one behind the other
unfoldable pub all_targets : List (String × List String) → List String
all_targets [] = []
all_targets ((k, ids) ∷ m) = ids ++ all_targets m

abbrev pub nexts : Map (List String) → String → List String
nexts adjacency id = get_or adjacency id []

-- The inner loop. `out` has what `seen` has: every write goes to both.
unfoldable pub visit : List String → List String → List String → List String × List String
unfolding member
visit [] queue out = (queue, out)
visit (next ∷ ids) queue out =
    if member next out
    then visit ids queue out
    else visit ids (queue ++ next ∷ []) (out ++ next ∷ [])

-- The outer loop; `none` while it has not ended.
unfoldable pub collect : ℕ → Map (List String) → List String → List String → Option (List String)
unfolding visit
collect fuel adjacency [] out = some out
collect zero adjacency (current ∷ queue) out = none
collect (suc fuel) adjacency (current ∷ queue) out =
    let (queue', out') = visit (nexts adjacency current) queue out in
    collect fuel adjacency queue' out'

-- The fuel: every round takes one entry off the queue, and no identifier is queued twice.
unfoldable pub collect_component : String → Map (List String) → Option (List String)
unfolding collect all_targets
collect_component start adjacency =
    collect (suc (length (all_targets adjacency.entries))) adjacency (start ∷ []) (start ∷ [])

pub member-append :
    (x : String) (xs ys : List String) → member x (xs ++ ys) ≡ (member x xs || member x ys)
unfolding member
member-append x [] ys = refl
member-append x (y ∷ xs) ys = ground (arith, member-append x xs ys)

member_self : (x : String) → member x (x ∷ []) ≡ true
unfolding member
member_self x = ground (arith, eq_iff x x)

-- How many of the targets are not collected yet
unfoldable unseen : List String → List String → ℕ
unfolding member
unseen [] out = 0
unseen (t ∷ ts) out = let rest = unseen ts out in if member t out then rest else suc rest

unseen-grows_le : (ts out : List String) (x : String) → unseen ts (out ++ x ∷ []) ≤ unseen ts out
unfolding unseen
unseen-grows_le [] out x = omega arith
unseen-grows_le (t ∷ ts) out x =
    ground (arith, unseen-grows_le ts out x, member-append t out (x ∷ []))

unseen-grows_lt :
    (ts out : List String) (x : String)
    → member x ts ≡ true
    → member x out ≡ false
    → unseen ts (out ++ x ∷ []) < unseen ts out
unfolding unseen member
unseen-grows_lt [] out x h k = absurd_bool (sym h)
unseen-grows_lt (t ∷ ts) out x h k = elim (Bool-cases (t == x)) [
  | inl e ↦
      let same : t ≡ x = (eq_iff t x).0 e in
      let old : member t out ≡ false = ap (λ y. member y out) same ∙ k in
      let new : member t (out ++ x ∷ []) ≡ true =
        ap (λ y. member t (out ++ y ∷ [])) (sym same)
        ∙ member-append t out (t ∷ [])
        ∙ or_right (member t out) (member t (t ∷ [])) (member_self t) in
      rw (unseen, new, old) (omega (arith, unseen-grows_le ts out x))
  | inr e ↦
      let less = unseen-grows_lt ts out x (rw (member, e) at h) k in
      ground (arith, less, member-append t out (x ∷ []))
]

-- All the identifiers of a list are targets.
abbrev AllIn : List String → List String → Type 0
AllIn ts ids = All (λ x. member x ts ≡ true) ids

visit-measure :
    (ts ids queue out : List String)
    → AllIn ts ids
    → let (queue', out') = visit ids queue out in
      unseen ts out' + length queue' ≤ unseen ts out + length queue
unfolding visit
visit-measure ts [] queue out h = omega arith
visit-measure ts (next ∷ ids) queue out h = elim (Bool-cases (member next out)) [
  | inl e ↦ rw (visit, e) (visit-measure ts ids queue out h.1)
  | inr e ↦
      rw (visit, e)
        (omega (
          arith,
          visit-measure ts ids (queue ++ next ∷ []) (out ++ next ∷ []) h.1,
          unseen-grows_lt ts out next h.0 e,
          length-append queue (next ∷ []),
        ))
]

AllIn-behind : (zs ts ids : List String) → AllIn ts ids → AllIn (zs ++ ts) ids
AllIn-behind zs ts [] h = tt
AllIn-behind zs ts (x ∷ ids) h =
    (member-append x zs ts ∙ or_right (member x zs) (member x ts) h.0, AllIn-behind zs ts ids h.1)

AllIn-front : (ids ts : List String) → AllIn (ids ++ ts) ids
unfolding member
AllIn-front [] ts = tt
AllIn-front (x ∷ ids) ts =
    (ground (arith, eq_iff x x), AllIn-behind (x ∷ []) (ids ++ ts) ids (AllIn-front ids ts))

find-AllIn :
    (k : String) (m : List (String × List String))
    → AllIn (all_targets m) (elim (find k m) [ none ↦ [] | some ids ↦ ids ])
unfolding find all_targets
find-AllIn k [] = tt
find-AllIn k ((j, ids) ∷ m) = elim (Bool-cases (j == k)) [
  | inl e ↦ rw (find, e) (AllIn-front ids (all_targets m))
  | inr e ↦
      rw (find, e)
        (AllIn-behind ids (all_targets m) (elim (find k m) [ none ↦ [] | some ids ↦ ids ])
          (find-AllIn k m))
]

-- With as much fuel as there are targets to see and entries in the queue the search ends.
collect-ends :
    (fuel : ℕ) (adjacency : Map (List String)) (queue out : List String)
    → unseen (all_targets adjacency.entries) out + length queue ≤ fuel
    → (result : List String) × (collect fuel adjacency queue out ≡ some result)
unfolding collect get
collect-ends fuel adjacency [] out h = (out, refl)
collect-ends zero adjacency (current ∷ queue) out h = absurd (omega (arith, h))
collect-ends (suc fuel) adjacency (current ∷ queue) out h =
    let ts = all_targets adjacency.entries in
    let ids = nexts adjacency current in
    let (queue', out') = visit ids queue out in
    collect-ends fuel adjacency queue' out'
      (omega (arith, visit-measure ts ids queue out (find-AllIn current adjacency.entries), h))

unseen-le : (ts out : List String) → unseen ts out ≤ length ts
unfolding unseen
unseen-le [] out = omega arith
unseen-le (t ∷ ts) out = ground (arith, unseen-le ts out)

-- collectComponent ends, for every start and every graph.
pub collect_component-ends :
    (start : String) (adjacency : Map (List String))
    → (result : List String) × (collect_component start adjacency ≡ some result)
unfolding collect_component
collect_component-ends start adjacency =
    let ts = all_targets adjacency.entries in
    collect-ends (suc (length ts)) adjacency (start ∷ []) (start ∷ [])
      (omega (arith, unseen-le ts (start ∷ [])))
