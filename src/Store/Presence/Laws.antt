-- ===== src/Store/Presence/Laws.antt =====
-- What a client of the presence methods of internal/store/store.go can observe.
use nukara.Base.{
  ℕ, ◌+◌, ◌*◌, ◌≤◌, ◌<◌, String, Bool, true, false, ◌==◌, eq_iff, ◌≡◌, refl, Option, none, some,
  arith, if◌then◌else◌, leb, ℤ, positive_or, positive_or-pos, trim, Map, get, put, get-put,
  get-delete, Bool-cases, eq_refl, inl, inr, ap, not, ◌&&◌, and_split, get_or,
}
use nukara.Store.Types.{Time, is_zero, after, PresenceState}
use nukara.Store.State.{Store}
use nukara.Store.Presence.{
  second, no_presence, touch_ws_presence, drop_expired, check_online, is_user_ws_online,
  read_last_message, get_last_user_message_at,
}

-- The answers of the two queries at time `now`.
abbrev pub online_at : Store → Time → String → Bool
online_at s now user_id = (is_user_ws_online s now user_id).1

abbrev pub last_message_at : Store → Time → String → Option Time
last_message_at s now user_id = (get_last_user_message_at s now user_id).1

-- What the entry of a user says.
abbrev entry_online : Time → Option PresenceState → Bool
entry_online now none = false
entry_online now (some st) = if is_zero st.ws_expires_at then false else leb now st.ws_expires_at

abbrev entry_last : Option PresenceState → Option Time
entry_last none = none
entry_last (some st) = if is_zero st.last_user_msg_at then none else some st.last_user_msg_at

check_online-entry :
    (s : Store) (now : Time) (user : String) (o : Option PresenceState)
    → (check_online s now user o).1 ≡ entry_online now o
unfolding check_online
check_online-entry s now user none = refl
check_online-entry s now user (some st) = ground arith

read_last-entry :
    (s : Store) (now : Time) (user : String) (o : Option PresenceState)
    → (read_last_message s now user o).1 ≡ entry_last o
unfolding read_last_message
read_last-entry s now user none = refl
read_last-entry s now user (some st) = ground arith

online_lem :
    (s : Store) (now : Time) (u : String)
    → online_at s now u
      ≡ (if trim u == "" then false else entry_online now (get s.presence_by_user (trim u)))
unfolding is_user_ws_online
online_lem s now u =
    ground (arith, check_online-entry s now (trim u) (get s.presence_by_user (trim u)))

last_lem :
    (s : Store) (now : Time) (u : String)
    → last_message_at s now u
      ≡ (if trim u == "" then none else entry_last (get s.presence_by_user (trim u)))
unfolding get_last_user_message_at
last_lem s now u = ground (arith, read_last-entry s now (trim u) (get s.presence_by_user (trim u)))

-- Two maps of presence that no query can tell apart from time `now` on.
abbrev SameEntries : Time → Map PresenceState → Map PresenceState → Type 0
SameEntries now m n =
    (later : Time) (v : String)
    → now ≤ later
    → (entry_online later (get m v) ≡ entry_online later (get n v))
      × (entry_last (get m v) ≡ entry_last (get n v))

drop_expired-SameEntries :
    (now : Time) (m : Map PresenceState) (user : String) (st : PresenceState)
    → get m user ≡ some st
    → after now st.ws_expires_at ≡ true
    → SameEntries now (drop_expired m user st) m
unfolding drop_expired
drop_expired-SameEntries now m user st found over later v le =
    let cleared = record st { ws_expires_at = 0 } in
    (
      ground (arith, get-delete m user v, get-put m user v cleared, eq_iff user v),
      ground (arith, get-delete m user v, get-put m user v cleared, eq_iff user v),
    )

cleared-SameEntries :
    (now : Time) (m : Map PresenceState) (user : String) (st : PresenceState)
    → get m user ≡ some st
    → after now st.ws_expires_at ≡ true
    → SameEntries now (put m user (record st { ws_expires_at = 0 })) m
cleared-SameEntries now m user st found over later v le =
    let cleared = record st { ws_expires_at = 0 } in
    (
      ground (arith, get-put m user v cleared, eq_iff user v),
      ground (arith, get-put m user v cleared, eq_iff user v),
    )

check_online-SameEntries :
    (s : Store) (now : Time) (user : String) (o : Option PresenceState)
    → get s.presence_by_user user ≡ o
    → SameEntries now (check_online s now user o).0.presence_by_user s.presence_by_user
unfolding check_online
check_online-SameEntries s now user none found later v le = (refl, refl)
check_online-SameEntries s now user (some st) found later v le =
    elim (Bool-cases (is_zero st.ws_expires_at)) [
      | inl e ↦ rw e (refl, refl)
      | inr e ↦ elim (Bool-cases (after now st.ws_expires_at)) [
        | inl over ↦ rw e (
            rw over (drop_expired-SameEntries now s.presence_by_user user st found over later v le))
        | inr fresh ↦ rw e (rw fresh (refl, refl))
      ]
    ]

read_last-SameEntries :
    (s : Store) (now : Time) (user : String) (o : Option PresenceState)
    → get s.presence_by_user user ≡ o
    → SameEntries now (read_last_message s now user o).0.presence_by_user s.presence_by_user
unfolding read_last_message
read_last-SameEntries s now user none found later v le = (refl, refl)
read_last-SameEntries s now user (some st) found later v le =
    elim (Bool-cases (is_zero st.last_user_msg_at)) [
      | inl e ↦ rw e (refl, refl)
      | inr e ↦ elim (Bool-cases (not (is_zero st.ws_expires_at) && after now st.ws_expires_at)) [
        | inl over ↦ rw e (
            rw over (
              cleared-SameEntries now s.presence_by_user user st found (and_split _ _ over).1 later
                v le))
        | inr fresh ↦ rw e (rw fresh (refl, refl))
      ]
    ]

online-SameEntries :
    (s : Store) (now : Time) (u : String)
    → SameEntries now (is_user_ws_online s now u).0.presence_by_user s.presence_by_user
unfolding is_user_ws_online
online-SameEntries s now u later v le = elim (Bool-cases (trim u == "")) [
  | inl e ↦ rw e (refl, refl)
  | inr e ↦
      rw e
        (check_online-SameEntries s now (trim u) (get s.presence_by_user (trim u)) refl later v le)
]

last-SameEntries :
    (s : Store) (now : Time) (u : String)
    → SameEntries now (get_last_user_message_at s now u).0.presence_by_user s.presence_by_user
unfolding get_last_user_message_at
last-SameEntries s now u later v le = elim (Bool-cases (trim u == "")) [
  | inl e ↦ rw e (refl, refl)
  | inr e ↦
      rw e (read_last-SameEntries s now (trim u) (get s.presence_by_user (trim u)) refl later v le)
]

SameEntries-same_answers :
    (s t : Store) (now later : Time) (v : String)
    → now ≤ later
    → SameEntries now t.presence_by_user s.presence_by_user
    → (online_at t later v ≡ online_at s later v)
      × (last_message_at t later v ≡ last_message_at s later v)
SameEntries-same_answers s t now later v le same =
    let (on, last) = same later (trim v) le in
    (
      rw (online_lem t later v, online_lem s later v)
          (ap (λ b. if trim v == "" then false else b) on),
      rw (last_lem t later v, last_lem s later v) (ap (λ b. if trim v == "" then none else b) last),
    )

-- IsUserWSOnline and GetLastUserMessageAt drop expired leases as they read. No client can tell: at
-- the same time or later, both answer for every user as they would without the earlier query.
pub queries_unobservable :
    (s : Store) (now later : Time) (u v : String)
    → now ≤ later
    → (online_at (is_user_ws_online s now u).0 later v ≡ online_at s later v)
      × (last_message_at (is_user_ws_online s now u).0 later v ≡ last_message_at s later v)
      × (online_at (get_last_user_message_at s now u).0 later v ≡ online_at s later v)
      × (last_message_at (get_last_user_message_at s now u).0 later v ≡ last_message_at s later v)
queries_unobservable s now later u v le =
    let a =
      SameEntries-same_answers s (is_user_ws_online s now u).0 now later v le
        (online-SameEntries s now u) in
    let b =
      SameEntries-same_answers s (get_last_user_message_at s now u).0 now later v le
        (last-SameEntries s now u) in
    (a.0, a.1, b.0, b.1)

touch-map :
    (s : Store) (now : Time) (u : String) (ttl : ℤ)
    → (trim u == "") ≡ false
    → (touch_ws_presence s now u ttl).presence_by_user
      ≡ put s.presence_by_user (trim u) (record (get_or s.presence_by_user (trim u) no_presence) {
        ws_expires_at = now + positive_or (90 * second) ttl;
      })
unfolding touch_ws_presence
touch-map s now u ttl named = rw named

put-entry :
    (m : Map PresenceState) (user v : String) (st : PresenceState) (later : Time)
    → (entry_online later (get (put m user st) v)
        ≡ (if user == v then entry_online later (some st) else entry_online later (get m v)))
      × (entry_last (get (put m user st) v)
          ≡ (if user == v then entry_last (some st) else entry_last (get m v)))
put-entry m user v st later =
    (ground (arith, get-put m user v st), ground (arith, get-put m user v st))

leased :
    (o : Option PresenceState) (now later life : ℕ)
    → 0 < life
    → let st : PresenceState = elim o [ none ↦ no_presence | some x ↦ x ] in
      (entry_online later (some (record st { ws_expires_at = now + life }))
        ≡ leb later (now + life))
      × (entry_last (some (record st { ws_expires_at = now + life })) ≡ entry_last o)
leased none now later life h = (ground arith, refl)
leased (some st) now later life h = (ground arith, refl)

if_named {ℓ} :
    {A : Type ℓ} (a b : String) (x y z : A)
    → (a == "") ≡ false
    → (if b == "" then z else if a == b then x else y)
      ≡ (if a == b then x else if b == "" then z else y)
if_named a b x y z named = elim (Bool-cases (a == b)) [
  | inl e ↦ rw (← (eq_iff a b).0 e) (rw (named, eq_refl a) refl)
  | inr e ↦ rw e refl
]

if_same {ℓ} : {A : Type ℓ} (f : String → A) (a b : String) → (if a == b then f a else f b) ≡ f b
if_same f a b = elim (Bool-cases (a == b)) [ inl e ↦ rw e (ap f ((eq_iff a b).0 e)) | inr e ↦ rw e ]

-- After TouchWSPresence for a user that is not blank, with a time to live (90 seconds if it is not
-- positive), that user is online exactly until the lease ends, both ends included; every other user,
-- and the time of every user's last message, is as before.
pub touch_lem :
    (s : Store) (now later : Time) (u v : String) (ttl : ℤ)
    → (trim u == "") ≡ false
    → let t = touch_ws_presence s now u ttl in
      (online_at t later v ≡ (
        if trim u == trim v
        then leb later (now + positive_or (90 * second) ttl)
        else online_at s later v))
      × (last_message_at t later v ≡ last_message_at s later v)
touch_lem s now later u v ttl named =
    let m = s.presence_by_user in
    let life = positive_or (90 * second) ttl in
    let entry =
      leased (get m (trim u)) now later life (positive_or-pos (90 * second) ttl (omega arith)) in
    let seen =
      put-entry m (trim u) (trim v)
        (record (get_or m (trim u) no_presence) { ws_expires_at = now + life }) later in
    (
      rw
          (
            online_lem (touch_ws_presence s now u ttl) later v,
            online_lem s later v,
            touch-map s now u ttl named,
            seen.0,
            entry.0,
          )
          (if_named (trim u) (trim v) (leb later (now + life)) (entry_online later (get m (trim v)))
            false named),
      rw
          (
            last_lem (touch_ws_presence s now u ttl) later v,
            last_lem s later v,
            touch-map s now u ttl named,
            seen.1,
            entry.1,
          )
          (ap (λ (o : Option Time). if trim v == "" then none else o)
            (if_same (λ k. entry_last (get m k)) (trim u) (trim v))),
    )
