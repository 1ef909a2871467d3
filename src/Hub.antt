-- ===== src/Hub.antt =====
-- The web-socket sessions of internal/api/ws_hub.go. A session is a pointer, of which the model keeps
-- its number and its user; the set of sessions of a user is a list without an entry twice. The
-- connection behind a session and Redis are outside.
pub mod Sessions
pub mod Refinement
pub mod Runs
use nukara.Base.{
  ℕ, zero, suc, ◌+◌, String, Bool, true, false, not, ◌==◌, ◌&&◌, eqb, if◌then◌else◌, ℤ, pos, negsuc,
  inc, Map, get, put, delete, get_or, empty_map, List, [], ◌∷◌, ◌++◌, any, keep, is_empty, length,
}
use nukara.Store.State.{Store}
use nukara.Store.Accounts.{set_ws_connections}

pub record WsSession : Type 0 where
  pub number : ℕ
  pub user_id : String

-- Pointer equality
abbrev pub same : WsSession → WsSession → Bool
same a b = eqb a.number b.number && a.user_id == b.user_id

-- `next` is the number of the next session.
pub record WsHub : Type 0 where
  pub by_user : Map (List WsSession)
  pub total : ℤ
  pub next : ℕ

unfoldable pub new_ws_hub : WsHub
unfolding empty_map
new_ws_hub = record { by_user = empty_map; total = pos 0; next = 0 }

abbrev pub sessions_of : WsHub → String → List WsSession
sessions_of h user_id = get_or h.by_user user_id []

unfoldable pub register : WsHub → Store → String → WsHub × Store × WsSession
unfolding set_ws_connections
register h s user_id =
    let session : WsSession = record { number = h.next; user_id = user_id } in
    let total = inc h.total in
    (
      record {
        by_user = put h.by_user user_id (sessions_of h user_id ++ session ∷ []);
        total = total;
        next = suc h.next;
      },
      set_ws_connections s total,
      session,
    )

-- `if h.total > 0 { h.total-- }`
abbrev pub one_less : ℤ → ℤ
one_less (pos zero) = pos 0
one_less (pos (suc n)) = pos n
one_less (negsuc n) = negsuc n

-- The sessions of the user behind `delete`, where a set that became empty is removed
abbrev without_session : WsHub → WsSession → Map (List WsSession)
without_session h session =
    let rest = keep (λ x. not (same x session)) (sessions_of h session.user_id) in
    if is_empty rest then delete h.by_user session.user_id else put h.by_user session.user_id rest

unfoldable pub unregister : WsHub → Store → WsSession → WsHub × Store
unfolding set_ws_connections
unregister h s session =
    if any (λ x. same x session) (sessions_of h session.user_id)
    then (
      record { by_user = without_session h session; total = one_less h.total; next = h.next },
      set_ws_connections s (one_less h.total),
    )
    else (h, set_ws_connections s h.total)

-- The loop over a snapshot; `writes` tells which connections take the message.
unfoldable pub publish_to : (WsSession → Bool) → WsHub → Store → List WsSession → WsHub × Store × ℕ
unfolding unregister
publish_to writes h s [] = (h, s, 0)
publish_to writes h s (session ∷ sessions) =
    let (h1, s1) = unregister h s session in
    let failed = publish_to writes h1 s1 sessions in
    let (h2, s2, delivered) = publish_to writes h s sessions in
    if writes session then (h2, s2, suc delivered) else failed

unfoldable pub publish_local_to_user :
    (WsSession → Bool) → WsHub → Store → String → WsHub × Store × ℕ
unfolding publish_to
publish_local_to_user writes h s user_id = publish_to writes h s (sessions_of h user_id)
