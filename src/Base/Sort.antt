-- ===== src/Base/Sort.antt =====
-- sort.Slice by a strict order `less`, as an insertion sort. sort.Slice is not stable: where `less`
-- holds in neither direction, the order of the model is one of those that it may return.
use mathlib.Core.Path.{◌≡◌, refl, sym, ap, ◌∙◌, subst}
use mathlib.Core.Bool.{Bool, true, false, ◌||◌}
use mathlib.Core.List.{List, [], ◌∷◌, ◌++◌, Perm}
use mathlib.Core.List.Perm
use Prim.Native.Nat.{ℕ, zero, suc, ◌≤◌, min}
use native.Mathlib.Omega.{arith}
use nukara.Base.Lists.{
  any, All, All-take, keep, keep-All, take, drop, length, length-take, take-append-drop,
}
use nukara.Base.Tests.{if◌then◌else◌, Bool-cases}
use mathlib.Core.Logic.{inl, inr}

module _ {ℓ} {A : Type ℓ} (less : A → A → Bool) where
  unfoldable pub insert_by : A → List A → List A
  insert_by x [] = x ∷ []
  insert_by x (y ∷ ys) = let rest = insert_by x ys in if less y x then y ∷ rest else x ∷ y ∷ ys

  unfoldable pub sort_by : List A → List A
  unfolding insert_by
  sort_by [] = []
  sort_by (x ∷ xs) = insert_by x (sort_by xs)

  insert_by-perm : (x : A) (xs : List A) → Perm (insert_by x xs) (x ∷ xs)
  unfolding insert_by
  insert_by-perm x [] = Perm.refl (x ∷ [])
  insert_by-perm x (y ∷ ys) = elim (Bool-cases (less y x)) [
    | inl e ↦ rw e (Perm.trans (Perm.cons y (insert_by-perm x ys)) (Perm.swap x y ys))
    | inr e ↦ rw e (Perm.refl (x ∷ y ∷ ys))
  ]

  pub sort_by-perm : (xs : List A) → Perm (sort_by xs) xs
  unfolding sort_by
  sort_by-perm [] = Perm.refl []
  sort_by-perm (x ∷ xs) = Perm.trans (insert_by-perm x (sort_by xs)) (Perm.cons x (sort_by-perm xs))

  length-insert_by : (x : A) (xs : List A) → length (insert_by x xs) ≡ suc (length xs)
  unfolding insert_by
  length-insert_by x [] = refl
  length-insert_by x (y ∷ ys) = elim (Bool-cases (less y x)) [
    | inl e ↦ rw e (ap suc (length-insert_by x ys))
    | inr e ↦ rw e refl
  ]

  length-sort_by : (xs : List A) → length (sort_by xs) ≡ length xs
  unfolding sort_by
  length-sort_by [] = refl
  length-sort_by (x ∷ xs) = length-insert_by x (sort_by xs) ∙ ap suc (length-sort_by xs)

  -- No element is less than the one before it.
  abbrev pub IsOrdered : List A → Type 0
  IsOrdered [] = Unit
  IsOrdered (x ∷ []) = Unit
  IsOrdered (x ∷ y ∷ ys) = (less y x ≡ false) × IsOrdered (y ∷ ys)

  module _ (asymm : (x y : A) → less x y ≡ true → less y x ≡ false) where
    insert_by-IsOrdered : (x : A) (xs : List A) → IsOrdered xs → IsOrdered (insert_by x xs)
    unfolding insert_by
    insert_by-IsOrdered x [] h = tt
    insert_by-IsOrdered x (y ∷ []) h = elim (Bool-cases (less y x)) [
      | inl e ↦ rw e (asymm y x e, tt)
      | inr e ↦ rw e (e, tt)
    ]
    insert_by-IsOrdered x (y ∷ z ∷ zs) h =
        let ih = insert_by-IsOrdered x (z ∷ zs) h.1 in
        elim (Bool-cases (less y x)) [
          | inl e ↦ elim (Bool-cases (less z x)) [
            | inl f ↦ rw (e, f) (h.0, rw f at ih)
            | inr f ↦ rw (e, f) (asymm y x e, (f, h.1))
          ]
          | inr e ↦ rw e (e, h)
        ]

    pub sort_by-IsOrdered : (xs : List A) → IsOrdered (sort_by xs)
    unfolding sort_by
    sort_by-IsOrdered [] = tt
    sort_by-IsOrdered (x ∷ xs) = insert_by-IsOrdered x (sort_by xs) (sort_by-IsOrdered xs)

  All-insert_by {κ} :
      (P : A → Type κ) (x : A) (xs : List A) → P x → All P xs → All P (insert_by x xs)
  unfolding insert_by
  All-insert_by P x [] p h = (p, tt)
  All-insert_by P x (y ∷ ys) p h = elim (Bool-cases (less y x)) [
    | inl e ↦ rw e (h.0, All-insert_by P x ys p h.1)
    | inr e ↦ rw e (p, h)
  ]

  pub All-sort_by {κ} : (P : A → Type κ) (xs : List A) → All P xs → All P (sort_by xs)
  unfolding sort_by
  All-sort_by P [] h = tt
  All-sort_by P (x ∷ xs) h = All-insert_by P x (sort_by xs) h.0 (All-sort_by P xs h.1)

  All-insert_by_inv {κ} :
      (P : A → Type κ) (x : A) (xs : List A) → All P (insert_by x xs) → P x × All P xs
  unfolding insert_by
  All-insert_by_inv P x [] h = h
  All-insert_by_inv P x (y ∷ ys) h = elim (Bool-cases (less y x)) [
    | inl e ↦ let k = rw e at h in let r = All-insert_by_inv P x ys k.1 in (r.0, (k.0, r.1))
    | inr e ↦ rw e at h
  ]

  pub All-sort_by_inv {κ} : (P : A → Type κ) (xs : List A) → All P (sort_by xs) → All P xs
  unfolding sort_by
  All-sort_by_inv P [] h = tt
  All-sort_by_inv P (x ∷ xs) h =
      let r = All-insert_by_inv P x (sort_by xs) h in (r.0, All-sort_by_inv P xs r.1)

  any-insert_by : (p : A → Bool) (x : A) (xs : List A) → any p (insert_by x xs) ≡ (p x || any p xs)
  unfolding insert_by
  any-insert_by p x [] = refl
  any-insert_by p x (y ∷ ys) = ground (arith, any-insert_by p x ys)

  pub any-sort_by : (p : A → Bool) (xs : List A) → any p (sort_by xs) ≡ any p xs
  unfolding sort_by
  any-sort_by p [] = refl
  any-sort_by p (x ∷ xs) = rw (any-insert_by p x (sort_by xs), any-sort_by p xs) refl

  pub IsOrdered-take : (n : ℕ) (xs : List A) → IsOrdered xs → IsOrdered (take n xs)
  IsOrdered-take zero xs h = tt
  IsOrdered-take (suc n) [] h = tt
  IsOrdered-take (suc zero) (x ∷ xs) h = tt
  IsOrdered-take (suc (suc n)) (x ∷ []) h = tt
  IsOrdered-take (suc (suc n)) (x ∷ y ∷ ys) h = (h.0, IsOrdered-take (suc n) (y ∷ ys) h.1)

  module _ (asymm : (x y : A) → less x y ≡ true → less y x ≡ false) (p : A → Bool) where
    -- The common end of the listings: filter, sort, cut off.
    pub listing_lem :
        (n : ℕ) (xs : List A)
        → let out = take n (sort_by (keep p xs)) in
          (length out ≤ n) × All (λ x. p x ≡ true) out × IsOrdered out
    listing_lem n xs = (
      omega (arith, length-take n (sort_by (keep p xs))),
      All-take (λ x. p x ≡ true) n (sort_by (keep p xs))
          (All-sort_by (λ x. p x ≡ true) (keep p xs) (keep-All p xs)),
      IsOrdered-take n (sort_by (keep p xs)) (sort_by-IsOrdered asymm (keep p xs)),
    )

    -- The listing is the beginning of an arrangement, in order, of all that passes the filter.
    pub listing-arranged :
        (n : ℕ) (xs : List A)
        → let out = take n (sort_by (keep p xs)) in
          (rest : List A) × Perm (out ++ rest) (keep p xs)
          × (length out ≡ min n (length (keep p xs)))
          × IsOrdered (out ++ rest)
    listing-arranged n xs =
        let all = sort_by (keep p xs) in
        let whole = take-append-drop n all in
        (
          drop n all,
          subst (λ l. Perm l (keep p xs)) (sym whole) (sort_by-perm (keep p xs)),
          length-take n all ∙ ap (min n) (length-sort_by (keep p xs)),
          subst IsOrdered (sym whole) (sort_by-IsOrdered asymm (keep p xs)),
        )
