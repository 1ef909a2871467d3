-- ===== src/Hub/Refinement.antt =====
-- The hub of internal/api/ws_hub.go implements one set of sessions: its map by user, its counter and
-- the gauge of the store agree with the set after any calls.
use nukara.Base.{
  append_nil, ℕ, suc, ◌+◌, ◌<◌, String, Bool, true, false, ◌==◌, ◌&&◌, eqb, if◌then◌else◌, ◌≡◌,
  refl, sym, ap, ◌∙◌, subst, arith, ℤ, pos, inc, inc-pos, max_int, put, delete, Map, get_or,
  get_or-put, get_or-delete, List, [], ◌∷◌, ◌++◌, any, any-append, keep, keep-append, length,
  length-append, All, All-append, All-keep, Bool-cases, ◌⊎◌, inl, inr, eq_iff, is_empty,
  absurd_bool, and_split,
}
use nukara.Store.State.{Store}
use nukara.Hub.{WsSession, WsHub, same, sessions_of, register, unregister, one_less, publish_to}
use nukara.Hub.Sessions.{gone, IsDistinct, keep-none, IsDistinct-keep, removal_shortens, keep-keep}

abbrev pub of_user : String → WsSession → Bool
of_user u x = x.user_id == u

-- The hub `h` holds the sessions `ss`.
pub record Holds (h : WsHub) (ss : List WsSession) : Type 0 where
  pub lists : (u : String) → sessions_of h u ≡ keep (of_user u) ss
  pub counted : h.total ≡ pos (length ss)
  pub distinct : IsDistinct ss
  pub older : All (λ (x : WsSession). x.number < h.next) ss

-- The gauge that SetWSConnections writes
abbrev pub gauge : Store → ℤ
gauge s = s.metrics.active_ws_connections

fresh_not_same :
    (n : ℕ) (u : String) (ss : List WsSession)
    → All (λ (x : WsSession). x.number < n) ss
    → any (λ y. same y (record { number = n; user_id = u })) ss ≡ false
fresh_not_same n u [] h = refl
fresh_not_same n u (x ∷ ss) h = ground (arith, fresh_not_same n u ss h.1, h.0)

same-sym : (x y : WsSession) → same x y ≡ same y x
same-sym x y = ground (arith, eq_iff x.user_id y.user_id, eq_iff y.user_id x.user_id)

IsDistinct-snoc :
    (x : WsSession) (ss : List WsSession)
    → IsDistinct ss
    → any (λ y. same y x) ss ≡ false
    → IsDistinct (ss ++ x ∷ [])
IsDistinct-snoc x [] d h = (refl, tt)
IsDistinct-snoc x (y ∷ ss) d h = elim (Bool-cases (same y x)) [
  | inl e ↦ absurd_bool (rw e at h)
  | inr e ↦
      let rest : any (λ z. same z x) ss ≡ false = rw e at h in
      let none_same : any (λ z. same z y) (ss ++ x ∷ []) ≡ false =
        any-append (λ z. same z y) ss (x ∷ []) ∙ rw (d.0, same-sym x y, e) refl in
      (none_same, IsDistinct-snoc x ss d.1 rest)
]

older-more :
    (n : ℕ) (ss : List WsSession)
    → All (λ (x : WsSession). x.number < n) ss
    → All (λ (x : WsSession). x.number < suc n) ss
older-more n [] h = tt
older-more n (x ∷ ss) h = (omega (arith, h.0), older-more n ss h.1)

-- A session is the same only as one of its own user.
any-of_user :
    (x : WsSession) (u : String) (ss : List WsSession)
    → any (λ y. same y x) (keep (of_user u) ss) ≡ ((x.user_id == u) && any (λ y. same y x) ss)
any-of_user x u [] = ground arith
any-of_user x u (y ∷ ss) = elim (Bool-cases (same y x)) [
  | inl f ↦
      let both = and_split (eqb y.number x.number) (y.user_id == x.user_id) f in
      let owner : y.user_id ≡ x.user_id = (eq_iff y.user_id x.user_id).0 both.1 in
      elim (Bool-cases (y.user_id == u)) [
        | inl e ↦
            let e' : (x.user_id == u) ≡ true = sym (ap (λ v. v == u) owner) ∙ e in
            rw (e, f, e') refl
        | inr e ↦
            let e' : (x.user_id == u) ≡ false = sym (ap (λ v. v == u) owner) ∙ e in
            rw (e, e') (any-of_user x u ss ∙ rw e' refl)
      ]
  | inr f ↦ elim (Bool-cases (y.user_id == u)) [
    | inl e ↦ rw (e, f) (any-of_user x u ss)
    | inr e ↦ rw (e, f) (any-of_user x u ss)
  ]
]

pub register-Holds :
    (h : WsHub) (s : Store) (ss : List WsSession) (u : String)
    → Holds h ss
    → length ss < max_int
    → let (h', s', x) = register h s u in
      Holds h' (ss ++ x ∷ []) × (gauge s' ≡ pos (length (ss ++ x ∷ [])))
unfolding register
register-Holds h s ss u holds small =
    let x : WsSession = record { number = h.next; user_id = u } in
    let more : length (ss ++ x ∷ []) ≡ length ss + 1 = omega (arith, length-append ss (x ∷ [])) in
    let count : inc h.total ≡ pos (length (ss ++ x ∷ [])) =
      ap inc holds.counted ∙ inc-pos (length ss) small ∙ ap pos (sym more) in
    (
      record {
        lists = λ v.
            get_or-put h.by_user u v (sessions_of h u ++ x ∷ []) [] ∙ elim (Bool-cases (u == v)) [
              | inl e ↦
                  let same_user = (eq_iff u v).0 e in
                  rw (keep-append (of_user v) ss (x ∷ []), e)
                    (ap (λ l. l ++ x ∷ [])
                      (holds.lists u ∙ ap (λ w. keep (of_user w) ss) same_user))
              | inr e ↦
                  rw (keep-append (of_user v) ss (x ∷ []), e)
                    (holds.lists v ∙ sym (append_nil (keep (of_user v) ss)))
            ];
        counted = count;
        distinct = IsDistinct-snoc x ss holds.distinct (fresh_not_same h.next u ss holds.older);
        older =
            All-append (λ (y : WsSession). y.number < suc h.next) ss (x ∷ [])
              (older-more h.next ss holds.older) (omega arith, tt);
      },
      count,
    )

keep_other :
    (x : WsSession) (v : String) (ss : List WsSession)
    → (x.user_id == v) ≡ false
    → keep (of_user v) (keep (gone x) ss) ≡ keep (of_user v) ss
keep_other x v ss e =
    keep-keep (of_user v) (gone x) ss
    ∙ keep-none x (keep (of_user v) ss) (any-of_user x v ss ∙ rw e refl)

without-lists :
    (m : Map (List WsSession)) (u v : String) (rest : List WsSession)
    → get_or (if is_empty rest then delete m u else put m u rest) v []
      ≡ (if u == v then rest else get_or m v [])
without-lists m u v [] = get_or-delete m u v []
without-lists m u v (y ∷ ys) = get_or-put m u v (y ∷ ys) []

pub unregister-Holds :
    (h : WsHub) (s : Store) (ss : List WsSession) (x : WsSession)
    → Holds h ss
    → let (h', s') = unregister h s x in
      Holds h' (keep (gone x) ss) × (gauge s' ≡ pos (length (keep (gone x) ss)))
unfolding unregister
unregister-Holds h s ss x holds =
    let u = x.user_id in
    let self : (u == u) ≡ true = ground (arith, eq_iff u u) in
    let mine : any (λ y. same y x) (sessions_of h u) ≡ any (λ y. same y x) ss =
      ap (any (λ y. same y x)) (holds.lists u) ∙ any-of_user x u ss ∙ rw self refl in
    elim (Bool-cases (any (λ y. same y x) ss)) [
      | inl e ↦
          let found = mine ∙ e in
          let count : one_less h.total ≡ pos (length (keep (gone x) ss)) =
            ap one_less (holds.counted ∙ ap pos (sym (removal_shortens x ss holds.distinct e))) in
          let lists' = λ (v : String).
            without-lists h.by_user u v (keep (gone x) (sessions_of h u))
            ∙ left v (Bool-cases (u == v)) in
          rw (unregister, found)
            (
              record {
                lists = lists';
                counted = count;
                distinct = IsDistinct-keep (gone x) ss holds.distinct;
                older = All-keep (λ (y : WsSession). y.number < h.next) (gone x) ss holds.older;
              },
              count,
            )
      | inr e ↦
          let none_found = mine ∙ e in
          rw (unregister, none_found)
            (subst (λ l. Holds h l × (h.total ≡ pos (length l))) (sym (keep-none x ss e))
              (holds, holds.counted))
    ]
  where
    left :
        (v : String)
        → ((x.user_id == v) ≡ true) ⊎ ((x.user_id == v) ≡ false)
        → (if x.user_id == v then keep (gone x) (sessions_of h x.user_id) else sessions_of h v)
          ≡ keep (of_user v) (keep (gone x) ss)
    left v (inl e) = rw e (
        ap (keep (gone x)) (holds.lists x.user_id)
        ∙ ap (λ w. keep (gone x) (keep (of_user w) ss)) ((eq_iff x.user_id v).0 e)
        ∙ keep-keep (gone x) (of_user v) ss)
    left v (inr e) = rw e (holds.lists v ∙ sym (keep_other x v ss e))

-- What is left of the set after a message: the sessions of the snapshot whose connection fails are
-- taken out.
unfoldable pub after_writes : (WsSession → Bool) → List WsSession → List WsSession → List WsSession
after_writes writes [] ss = ss
after_writes writes (x ∷ xs) ss = after_writes writes xs (if writes x then ss else keep (gone x) ss)

pub publish_to-Holds :
    (writes : WsSession → Bool) (h : WsHub) (s : Store) (xs ss : List WsSession)
    → Holds h ss
    → gauge s ≡ pos (length ss)
    → let (h', s', delivered) = publish_to writes h s xs in
      Holds h' (after_writes writes xs ss)
      × (gauge s' ≡ pos (length (after_writes writes xs ss)))
      × (delivered ≡ length (keep writes xs))
unfolding publish_to after_writes
publish_to-Holds writes h s [] ss holds g = (holds, g, refl)
publish_to-Holds writes h s (x ∷ xs) ss holds g = elim (Bool-cases (writes x)) [
  | inl e ↦
      let (a, b, c) = publish_to-Holds writes h s xs ss holds g in
      rw (publish_to, after_writes, e) (a, b, ap suc c)
  | inr e ↦
      let (h1, s1) = unregister h s x in
      let (k, l) = unregister-Holds h s ss x holds in
      rw (publish_to, after_writes, e) (publish_to-Holds writes h1 s1 xs (keep (gone x) ss) k l)
]
