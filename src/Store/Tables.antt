-- ===== src/Store/Tables.antt =====
-- The tables of users, bots and conversations of internal/store/store.go, and when they agree.
use nukara.Base.{
  String, eq_iff, ◌≡◌, sym, none, some, List, arith, Map, get, put, get-put, empty_map, subst,
}
use nukara.Store.Types.{User, Bot, Conversation}
use nukara.Store.Index.{IsIndexed}
use nukara.Store.State.{Store}

pub record Tables : Type 0 where
  pub users_by_email : Map User
  pub users_by_id : Map User
  pub bots_by_id : Map Bot
  pub bots_by_user : Map (List String)
  pub conversations_by_id : Map Conversation
  pub conversations_by_user : Map (List String)

abbrev pub tables : Store → Tables
tables s = record {
  users_by_email = s.users_by_email;
  users_by_id = s.users_by_id;
  bots_by_id = s.bots_by_id;
  bots_by_user = s.bots_by_user;
  conversations_by_id = s.conversations_by_id;
  conversations_by_user = s.conversations_by_user;
}

-- Each user is in both tables, under the own e-mail address and the own identifier.
pub record IsUserTable (by_email by_id : Map User) : Type 0 where
  pub at_email :
      (e : String) (u : User) → get by_email e ≡ some u → (u.email ≡ e) × (get by_id u.id ≡ some u)
  pub at_id :
      (i : String) (u : User) → get by_id i ≡ some u → (u.id ≡ i) × (get by_email u.email ≡ some u)

pub record AreConsistent (t : Tables) : Type 0 where
  pub users : IsUserTable t.users_by_email t.users_by_id
  pub bots : IsIndexed (λ (b : Bot). b.user_id) (λ b. b.id) t.bots_by_id t.bots_by_user
  pub conversations :
      IsIndexed
        (λ (c : Conversation). c.user_id)
        (λ c. c.id)
        t.conversations_by_id
        t.conversations_by_user

abbrev pub IsConsistent : Store → Type 0
IsConsistent s = AreConsistent (tables s)

pub IsConsistent-frame : (s t : Store) → tables t ≡ tables s → IsConsistent s → IsConsistent t
IsConsistent-frame s t e h = subst AreConsistent (sym e) h

pub IsUserTable-empty : IsUserTable empty_map empty_map
unfolding empty_map get
IsUserTable-empty = record { at_email = λ e u found. cc; at_id = λ i u found. cc }

-- A new user under an e-mail address and an identifier that are not in use.
pub IsUserTable-insert :
    (by_email by_id : Map User) (user : User)
    → get by_email user.email ≡ none
    → get by_id user.id ≡ none
    → IsUserTable by_email by_id
    → IsUserTable (put by_email user.email user) (put by_id user.id user)
IsUserTable-insert by_email by_id user free fresh h = record {
  at_email = λ e u found. ground (
    arith,
    get-put by_email user.email e user,
    get-put by_id user.id u.id user,
    eq_iff user.email e,
    eq_iff user.id u.id,
    eq_iff user.id user.id,
    h.at_email e u,
  );
  at_id = λ i u found. ground (
    arith,
    get-put by_id user.id i user,
    get-put by_email user.email u.email user,
    eq_iff user.id i,
    eq_iff user.email u.email,
    eq_iff user.email user.email,
    h.at_id i u,
  );
}
