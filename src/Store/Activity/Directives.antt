-- ===== src/Store/Activity/Directives.antt =====
-- What the directives of internal/store/store.go promise: SaveDirective, ListDirectives and
-- RevokeDirective.
use nukara.Base.{
  String, Bool, true, false, ◌==◌, ◌||◌, eq_iff, ◌≡◌, refl, ap, ◌∙◌, none, some, List, [], ◌∷◌,
  ◌++◌, arith, put, get_or, get-put_self, delete, delete-put, if◌then◌else◌, keep, keep-append, any,
  Bool-cases, inl, inr, get_or-found,
}
use nukara.Store.Types.{Time, Directive}
use nukara.Store.State.{Store, pair_key}
use nukara.Store.Activity.{save_directive, list_directives, revoke_first, revoke_directive}

-- The status that a listing filters by.
abbrev pub matches : String → Directive → Bool
matches status d = status == "" || d.status == status

status_or : (status : String) → ((if status == "" then "active" else status) == "") ≡ false
status_or status = elim (Bool-cases (status == "")) [ inl e ↦ rw e refl | inr e ↦ rw e e ]

-- SaveDirective adds the directive at the end of its bot's list, "active" if it had no status: a
-- listing by status shows it exactly if it has that status, after what it showed before.
pub save_directive_then_list :
    (s : Store) (now : Time) (id status : String) (d : Directive)
    → let (t, saved) = save_directive s now id d in
      (list_directives t d.user_id d.bot_id status
        ≡ list_directives s d.user_id d.bot_id status ++ keep (matches status) (saved ∷ []))
      × ((saved.status == "") ≡ false)
      × (saved.id ≡ id)
unfolding save_directive list_directives
save_directive_then_list s now id status d =
    let key = pair_key d.user_id d.bot_id in
    let before = get_or s.directives_by_bot key [] in
    let saved = (save_directive s now id d).1 in
    (
      ap (keep (matches status)) (
            get_or-found (put s.directives_by_bot key (before ++ saved ∷ [])) key []
              (before ++ saved ∷ []) (get-put_self s.directives_by_bot key (before ++ saved ∷ [])))
          ∙ (keep-append (matches status) before (saved ∷ [])),
      status_or d.status,
      refl,
    )

abbrev pub has_id : String → Directive → Bool
has_id id d = d.id == id

-- The same list but for the first entry of that identifier, which is revoked.
abbrev pub IsRevoked : Time → String → List Directive → List Directive → Type 0
IsRevoked now id before later =
    (front rest : List Directive) × (d : Directive) × (before ≡ front ++ d ∷ rest)
    × (later ≡ front ++ record d { status = "revoked"; updated_at = now } ∷ rest)
    × (d.id ≡ id)
    × (any (has_id id) front ≡ false)

revoke-absent :
    (now : Time) (id : String) (ds : List Directive)
    → any (has_id id) ds ≡ false
    → revoke_first now id ds ≡ none
unfolding revoke_first
revoke-absent now id [] h = refl
revoke-absent now id (d ∷ ds) h = ground (arith, revoke-absent now id ds)

revoke-present :
    (now : Time) (id : String) (ds : List Directive)
    → any (has_id id) ds ≡ true
    → (out : List Directive) × (revoke_first now id ds ≡ some out) × IsRevoked now id ds out
unfolding revoke_first
revoke-present now id [] h = ground arith
revoke-present now id (d ∷ ds) h = elim (Bool-cases (has_id id d)) [
  | inl e ↦ (
    record d { status = "revoked"; updated_at = now } ∷ ds,
    rw e refl,
    ([], ds, d, refl, refl, (eq_iff d.id id).0 e, refl),
  )
  | inr e ↦
      let (out, r, (front, rest, d', b, a, i, n)) = revoke-present now id ds (rw e at h) in
      (d ∷ out, rw (e, r) refl, (d ∷ front, rest, d', ap (◌∷◌ d) b, ap (◌∷◌ d) a, i, rw e n))
]

keep-always :
    (p : Directive → Bool) (ds : List Directive) → ((d : Directive) → p d ≡ true) → keep p ds ≡ ds
keep-always p [] h = refl
keep-always p (d ∷ ds) h = rw (h d) (ap (◌∷◌ d) (keep-always p ds h))

-- All directives of a bot.
abbrev pub listed : Store → String → String → List Directive
listed s u b = list_directives s u b ""

listed-all :
    (s : Store) (u b : String) → listed s u b ≡ get_or s.directives_by_bot (pair_key u b) []
unfolding list_directives
listed-all s u b =
    keep-always (matches "") (get_or s.directives_by_bot (pair_key u b) []) (λ d. refl)

-- RevokeDirective marks the first directive of the bot with that identifier as revoked at that time and
-- leaves the bot's other directives, and all other bots', as they are.
pub revoke_directive-present :
    (s : Store) (now : Time) (u b id : String)
    → any (has_id id) (listed s u b) ≡ true
    → let (t, ok) = revoke_directive s now u b id in
      (ok ≡ true)
      × IsRevoked now id (listed s u b) (listed t u b)
      × (delete t.directives_by_bot (pair_key u b) ≡ delete s.directives_by_bot (pair_key u b))
unfolding revoke_directive
revoke_directive-present s now u b id h =
    let key = pair_key u b in
    let ds = get_or s.directives_by_bot key [] in
    let (out, r, revoked) = revoke-present now id ds (rw (listed-all s u b) at h) in
    let t : Store = record s { directives_by_bot = put s.directives_by_bot key out } in
    let kept =
      listed-all t u b
      ∙ get_or-found (put s.directives_by_bot key out) key [] out
          (get-put_self s.directives_by_bot key out) in
    rw (r, revoke_directive)
      (refl, rw (listed-all s u b, kept) revoked, delete-put s.directives_by_bot key out)

-- RevokeDirective fails and leaves the store as it was if the bot has no directive with that identifier.
pub revoke_directive-absent :
    (s : Store) (now : Time) (u b id : String)
    → any (has_id id) (listed s u b) ≡ false
    → revoke_directive s now u b id ≡ (s, false)
unfolding revoke_directive
revoke_directive-absent s now u b id h =
    rw
      (
        revoke-absent now id (get_or s.directives_by_bot (pair_key u b) [])
            (rw (listed-all s u b) at h),
        revoke_directive,
      )
      refl
