-- ===== src/Chat/Counts.antt =====
-- Counting over maps: what a write and a deletion do to the sum of a weight over the values.
use nukara.Base.{
  ℕ, suc, ◌+◌, String, ◌==◌, eq_iff, ◌≡◌, refl, subst, ap, ◌∙◌, Option, none, some, List, [], ◌∷◌,
  ◌++◌, arith, find, store_at, without, values_of, find-store_at, find-without, if◌then◌else◌, All,
  Bool-cases, inl, inr,
}

-- How often a message identifier stands in a list.
abbrev pub occurrences : String → List String → ℕ
occurrences x [] = 0
occurrences x (y ∷ ys) = let rest = occurrences x ys in if y == x then suc rest else rest

pub occurrences-append :
    (x : String) (ys zs : List String)
    → occurrences x (ys ++ zs) ≡ occurrences x ys + occurrences x zs
occurrences-append x [] zs = omega arith
occurrences-append x (y ∷ ys) zs = ground (arith, occurrences-append x ys zs)

absurd_option {ℓ κ} : {A : Type ℓ} {B : Type κ} (x : B) → some x ≡ none → A
absurd_option x h = ground arith

some_injective : {V : Type 0} {x y : V} → some x ≡ some y → x ≡ y
some_injective {V} {x} {y} e = ap (λ o. elim o as (λ _. V) [ none ↦ x | some v ↦ v ]) e

module _ {V : Type 0} where
  -- No key stands twice.
  abbrev pub Unique : List (String × V) → Type 0
  Unique [] = Unit
  Unique ((k, v) ∷ m) = (find k m ≡ none) × Unique m

  without-absent : (k : String) (m : List (String × V)) → find k m ≡ none → without k m ≡ m
  unfolding find without
  without-absent k [] h = refl
  without-absent k ((j, w) ∷ m) h = elim (Bool-cases (j == k)) [
    | inl e ↦ absurd_option w (rw e at h)
    | inr e ↦ rw e (ap (◌∷◌ (j, w)) (without-absent k m (rw e at h)))
  ]

  pub Unique-store_at :
      (k : String) (v : V) (m : List (String × V)) → Unique m → Unique (store_at k v m)
  unfolding store_at find
  Unique-store_at k v [] u = (refl, tt)
  Unique-store_at k v ((j, w) ∷ m) u = elim (Bool-cases (j == k)) [
    | inl e ↦ rw e (subst (λ i. find i m ≡ none) ((eq_iff j k).0 e) u.0, u.1)
    | inr e ↦ rw e (
      find-store_at k j v m ∙ ground (arith, eq_iff k j, eq_iff j k, u.0),
      Unique-store_at k v m u.1,
    )
  ]

  pub Unique-without : (k : String) (m : List (String × V)) → Unique m → Unique (without k m)
  unfolding without
  Unique-without k [] u = tt
  Unique-without k ((j, w) ∷ m) u = elim (Bool-cases (j == k)) [
    | inl e ↦ rw e (Unique-without k m u.1)
    | inr e ↦
        rw e
          (find-without k j m ∙ ground (arith, eq_iff k j, eq_iff j k, u.0), Unique-without k m u.1)
  ]

module _ {V : Type 0} (P : V → Type 0) where
  pub All-store_at :
      (k : String) (v : V) (m : List (String × V))
      → P v
      → All P (values_of m)
      → All P (values_of (store_at k v m))
  unfolding store_at values_of
  All-store_at k v [] p h = (p, tt)
  All-store_at k v ((j, w) ∷ m) p h = elim (Bool-cases (j == k)) [
    | inl e ↦ rw e (p, h.1)
    | inr e ↦ rw e (h.0, All-store_at k v m p h.1)
  ]

  pub All-without :
      (k : String) (m : List (String × V)) → All P (values_of m) → All P (values_of (without k m))
  unfolding without values_of
  All-without k [] h = tt
  All-without k ((j, w) ∷ m) h = elim (Bool-cases (j == k)) [
    | inl e ↦ rw e (All-without k m h.1)
    | inr e ↦ rw e (h.0, All-without k m h.1)
  ]

  pub All-found :
      (k : String) (v : V) (m : List (String × V)) → All P (values_of m) → find k m ≡ some v → P v
  unfolding find values_of
  All-found k v [] h e = ground arith
  All-found k v ((j, w) ∷ m) h e = elim (Bool-cases (j == k)) [
    | inl f ↦ subst P (some_injective (rw f at e)) h.0
    | inr f ↦ All-found k v m h.1 (rw f at e)
  ]

module _ {V : Type 0} (weight : V → ℕ) where
  abbrev pub total : List V → ℕ
  total [] = 0
  total (v ∷ vs) = weight v + total vs

  abbrev pub weight_at : Option V → ℕ
  weight_at none = 0
  weight_at (some v) = weight v

  pub total-append : (vs ws : List V) → total (vs ++ ws) ≡ total vs + total ws
  total-append [] ws = omega arith
  total-append (v ∷ vs) ws = omega (arith, total-append vs ws)

  pub total-store_at :
      (k : String) (v : V) (m : List (String × V))
      → total (values_of (store_at k v m)) + weight_at (find k m) ≡ total (values_of m) + weight v
  unfolding store_at values_of find
  total-store_at k v [] = omega arith
  total-store_at k v ((j, w) ∷ m) = ground (arith, total-store_at k v m)

  pub total-without :
      (k : String) (m : List (String × V))
      → Unique m
      → total (values_of (without k m)) + weight_at (find k m) ≡ total (values_of m)
  unfolding without values_of find
  total-without k [] u = omega arith
  total-without k ((j, w) ∷ m) u = elim (Bool-cases (j == k)) [
    | inl e ↦
        let gone : without k m ≡ m =
          without-absent k m (subst (λ i. find i m ≡ none) ((eq_iff j k).0 e) u.0) in
        rw e (omega (arith, ap (λ l. total (values_of l)) gone))
    | inr e ↦ rw e (omega (arith, total-without k m u.1))
  ]
