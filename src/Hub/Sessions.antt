-- ===== src/Hub/Sessions.antt =====
-- Lists of sessions without an entry twice.
use nukara.Base.{
  suc, Bool, true, false, not, ◌==◌, eqb, ◌≡◌, refl, ap, arith, List, [], ◌∷◌, any, keep, length,
  Bool-cases, inl, inr, eq_iff, absurd_bool, and_split, eqb_iff, ap₂, subst,
}
use nukara.Hub.{WsSession, same}

abbrev pub gone : WsSession → WsSession → Bool
gone x y = not (same y x)

abbrev pub IsDistinct : List WsSession → Type 0
IsDistinct [] = Unit
IsDistinct (x ∷ xs) = (any (λ y. same y x) xs ≡ false) × IsDistinct xs

pub same_refl : (x : WsSession) → same x x ≡ true
same_refl x = ground (arith, eq_iff x.user_id x.user_id)

pub keep-none :
    (x : WsSession) (xs : List WsSession) → any (λ y. same y x) xs ≡ false → keep (gone x) xs ≡ xs
keep-none x [] h = refl
keep-none x (y ∷ ys) h = elim (Bool-cases (same y x)) [
  | inl e ↦ absurd_bool (rw e at h)
  | inr e ↦ rw e (ap (◌∷◌ y) (keep-none x ys (rw e at h)))
]

keep_preserves_none :
    (q p : WsSession → Bool) (xs : List WsSession) → any q xs ≡ false → any q (keep p xs) ≡ false
keep_preserves_none q p [] h = refl
keep_preserves_none q p (x ∷ xs) h = elim (Bool-cases (q x)) [
  | inl e ↦ absurd_bool (rw e at h)
  | inr e ↦ elim (Bool-cases (p x)) [
    | inl f ↦ rw (f, e) (keep_preserves_none q p xs (rw e at h))
    | inr f ↦ rw f (keep_preserves_none q p xs (rw e at h))
  ]
]

same_eq : (x y : WsSession) → same x y ≡ true → x ≡ y
same_eq x y h =
    let both = and_split (eqb x.number y.number) (x.user_id == y.user_id) h in
    ap₂ {C = WsSession} (λ n u. record { number = n; user_id = u })
      ((eqb_iff x.number y.number).0 both.0) ((eq_iff x.user_id y.user_id).0 both.1)

pub IsDistinct-keep :
    (p : WsSession → Bool) (xs : List WsSession) → IsDistinct xs → IsDistinct (keep p xs)
IsDistinct-keep p [] h = tt
IsDistinct-keep p (x ∷ xs) h = elim (Bool-cases (p x)) [
  | inl e ↦ rw e (keep_preserves_none (λ y. same y x) p xs h.0, IsDistinct-keep p xs h.1)
  | inr e ↦ rw e (IsDistinct-keep p xs h.1)
]

pub removal_shortens :
    (x : WsSession) (xs : List WsSession)
    → IsDistinct xs
    → any (λ y. same y x) xs ≡ true
    → suc (length (keep (gone x) xs)) ≡ length xs
removal_shortens x [] d h = ground arith
removal_shortens x (y ∷ ys) d h = elim (Bool-cases (same y x)) [
  | inl e ↦
      let none_left = subst (λ z. any (λ w. same w z) ys ≡ false) (same_eq y x e) d.0 in
      rw e (ap (λ zs. suc (length zs)) (keep-none x ys none_left))
  | inr e ↦ rw e (ap suc (removal_shortens x ys d.1 (rw e at h)))
]

pub keep-keep :
    (p q : WsSession → Bool) (xs : List WsSession) → keep p (keep q xs) ≡ keep q (keep p xs)
keep-keep p q [] = refl
keep-keep p q (x ∷ xs) = ground (arith, keep-keep p q xs)
