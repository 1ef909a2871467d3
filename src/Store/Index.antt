-- ===== src/Store/Index.antt =====
-- A table by identifier with a list of identifiers for each owner, as the store keeps them of bots
-- and of conversations (internal/store/store.go: botsByID and botsByUser, conversationsByID and
-- conversationsByUser).
use mathlib.Core.Bool.{or-true, true-or}
use nukara.Base.{
  String, Bool, true, false, ◌||◌, ◌==◌, eq_iff, eq_refl, ◌≡◌, ◌⊎◌, refl, sym, ◌∙◌, none, some,
  List, [], ◌∷◌, ◌++◌, arith, Map, get, put, get_or, get-put, member, empty_map, Bool-cases, inl,
  inr, if◌then◌else◌, subst,
}

module _ {V : Type 0} (owner ident : V → String) where
  -- Each listed identifier is in the table, under its owner; each entry of the table has its key for
  -- identifier, and is listed for its owner.
  pub record IsIndexed (by_id : Map V) (by_user : Map (List String)) : Type 0 where
    pub listed :
        (u id : String)
        → member id (get_or by_user u []) ≡ true
        → (v : V) × (get by_id id ≡ some v) × (owner v ≡ u)
    pub known :
        (id : String) (v : V)
        → get by_id id ≡ some v
        → (ident v ≡ id) × (member id (get_or by_user (owner v) []) ≡ true)

pub IsIndexed-empty :
    {V : Type 0} (owner ident : V → String) → IsIndexed owner ident empty_map empty_map
unfolding empty_map get member
IsIndexed-empty owner ident = record { listed = λ u id e. cc; known = λ id v e. cc }

member-append :
    (x : String) (xs ys : List String) → member x (xs ++ ys) ≡ (member x xs || member x ys)
unfolding member
member-append x [] ys = refl
member-append x (y ∷ xs) ys = ground (arith, member-append x xs ys)

pub member-concat :
    (x y : String) (xs : List String) → member x (xs ++ y ∷ []) ≡ (member x xs || (y == x))
unfolding member
member-concat x y xs = ground (arith, member-append x xs (y ∷ []))

get_or-put :
    (m : Map (List String)) (k j : String) (v : List String)
    → get_or (put m k v) j [] ≡ (if k == j then v else get_or m j [])
get_or-put m k j v = ground (arith, get-put m k j v)

-- The lists after an identifier was added to that of `u`.
module _ (by_user : Map (List String)) (u id : String) where
  abbrev extended : Map (List String)
  extended = put by_user u (get_or by_user u [] ++ id ∷ [])

  member-extended :
      (j w : String)
      → member j (get_or extended w []) ≡ (
          if u == w
          then member j (get_or by_user w []) || (id == j)
          else member j (get_or by_user w []))
  member-extended j w =
      rw (get_or-put by_user u w (get_or by_user u [] ++ id ∷ [])) (elim (Bool-cases (u == w)) [
        | inl e ↦ rw e (rw (← (eq_iff u w).0 e) (member-concat j id (get_or by_user u [])))
        | inr e ↦ rw e
      ])

  old_or_new :
      (j w : String)
      → member j (get_or extended w []) ≡ true
      → (member j (get_or by_user w []) ≡ true) ⊎ ((u ≡ w) × (id ≡ j))
  old_or_new j w e =
      let split = sym (member-extended j w) ∙ e in
      elim (Bool-cases (member j (get_or by_user w []))) [
        | inl old ↦ inl old
        | inr new ↦ inr (picked (u == w) (id == j) (eq_iff u w).0 (eq_iff id j).0 (rw new at split))
      ]
    where
      picked :
          (a b : Bool)
          → (a ≡ true → u ≡ w)
          → (b ≡ true → id ≡ j)
          → (if a then false || b else false) ≡ true
          → (u ≡ w) × (id ≡ j)
      picked true true f g h = (f refl, g refl)
      picked true false f g h = cc
      picked false b f g h = cc

  added : (j : String) → (id == j) ≡ true → member j (get_or extended u []) ≡ true
  added j same = rw (member-extended j u) (rw (eq_refl u) (rw same (or-true _)))

  kept :
      (j w : String)
      → member j (get_or by_user w []) ≡ true
      → member j (get_or extended w []) ≡ true
  kept j w m =
      rw (member-extended j w)
        (elim (Bool-cases (u == w)) [ inl e ↦ rw e (rw m (true-or (id == j))) | inr e ↦ rw e m ])

put_same :
    {V : Type 0} (m : Map V) (id j : String) (v x : V)
    → (id == j) ≡ true
    → get (put m id v) j ≡ some x
    → v ≡ x
put_same m id j v x same e = ground (arith, get-put m id j v)

module _ {V : Type 0} (owner ident : V → String) (by_id : Map V) (by_user : Map (List String)) where
  -- A new entry under a fresh identifier, at the end of its owner's list.
  pub IsIndexed-insert :
      (u id : String) (v : V)
      → get by_id id ≡ none
      → owner v ≡ u
      → ident v ≡ id
      → IsIndexed owner ident by_id by_user
      → IsIndexed owner ident (put by_id id v) (put by_user u (get_or by_user u [] ++ id ∷ []))
  IsIndexed-insert u id v fresh owned named h = record {
    listed = λ w j e. elim (old_or_new by_user u id j w e) [
      | inl m ↦
          let (x, g, o) = h.listed w j m in
          (x, ground (arith, get-put by_id id j v, eq_iff id j), o)
      | inr (uw, ij) ↦ (v, ground (arith, get-put by_id id j v, eq_iff id j), owned ∙ uw)
    ];
    known = λ j x e. elim (Bool-cases (id == j)) [
      | inl same ↦
          subst
            (λ y. (ident y ≡ j) × (member j (get_or (extended by_user u id) (owner y) []) ≡ true))
            (put_same by_id id j v x same e)
            (named ∙ (eq_iff id j).0 same, rw owned (added by_user u id j same))
      | inr other ↦
          let k = h.known j x (ground (arith, get-put by_id id j v)) in
          (k.0, kept by_user u id j (owner x) k.1)
    ];
  }

  -- A changed entry that keeps its owner and its identifier.
  pub IsIndexed-update :
      (id : String) (v v' : V)
      → get by_id id ≡ some v
      → owner v' ≡ owner v
      → ident v' ≡ ident v
      → IsIndexed owner ident by_id by_user
      → IsIndexed owner ident (put by_id id v') by_user
  IsIndexed-update id v v' found owned named h = record {
    listed = λ w j e.
        let (x, g, o) = h.listed w j e in
        elim (Bool-cases (id == j)) [
          | inl same ↦ (v', ground (arith, get-put by_id id j v'), ground (arith, eq_iff id j))
          | inr other ↦ (x, ground (arith, get-put by_id id j v'), o)
        ];
    known = λ j x e. elim (Bool-cases (id == j)) [
      | inl same ↦
          let k = h.known id v found in
          let ij = (eq_iff id j).0 same in
          subst (λ y. (ident y ≡ j) × (member j (get_or by_user (owner y) []) ≡ true))
            (put_same by_id id j v' x same e)
            (
              named ∙ k.0 ∙ ij,
              rw owned (subst (λ i. member i (get_or by_user (owner v) []) ≡ true) ij k.1),
            )
      | inr other ↦ h.known j x (ground (arith, get-put by_id id j v'))
    ];
  }
