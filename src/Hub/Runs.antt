-- ===== src/Hub/Runs.antt =====
-- Any sequence of calls of the hub of internal/api/ws_hub.go.
use nukara.Base.{
  ℕ, suc, ◌+◌, ◌<◌, ◌≤◌, String, Bool, ◌≡◌, refl, ◌∙◌, subst, arith, pos, max_int, get, List, [],
  ◌∷◌, ◌++◌, keep, length, length-append, Bool-cases, inl, inr,
}
use nukara.Store.State.{Store}
use nukara.Hub.{
  WsSession, WsHub, sessions_of, new_ws_hub, register, unregister, publish_to,
  publish_local_to_user,
}
use nukara.Hub.Sessions.{gone}
use nukara.Hub.Refinement.{
  of_user, Holds, gauge, after_writes, register-Holds, unregister-Holds, publish_to-Holds,
}

-- The calls of a hub, each from start to end, and what they mean for the set of sessions.
pub data Call : Type 0 where
  registers : String → Call
  unregisters : WsSession → Call
  publishes : String → (WsSession → Bool) → Call

unfoldable pub run : WsHub × Store → List Call → WsHub × Store
unfolding register unregister publish_local_to_user
run (h, s) [] = (h, s)
run (h, s) (registers u ∷ calls) = let (h', s', x) = register h s u in run (h', s') calls
run (h, s) (unregisters x ∷ calls) = run (unregister h s x) calls
run (h, s) (publishes u writes ∷ calls) =
    let (h', s', n) = publish_local_to_user writes h s u in run (h', s') calls

-- `next` counts the sessions so far.
unfoldable pub meaning : ℕ → List WsSession → List Call → List WsSession
meaning next ss [] = ss
meaning next ss (registers u ∷ calls) =
    meaning (suc next) (ss ++ record { number = next; user_id = u } ∷ []) calls
meaning next ss (unregisters x ∷ calls) = meaning next (keep (gone x) ss) calls
meaning next ss (publishes u writes ∷ calls) =
    meaning next (after_writes writes (keep (of_user u) ss) ss) calls

abbrev Agree : WsHub × Store → List WsSession → Type 0
Agree (h, s) ss = Holds h ss × (gauge s ≡ pos (length ss))

next-unregister : (h : WsHub) (s : Store) (x : WsSession) → (unregister h s x).0.next ≡ h.next
unfolding unregister
next-unregister h s x = ground arith

next-publish_to :
    (writes : WsSession → Bool) (h : WsHub) (s : Store) (xs : List WsSession)
    → (publish_to writes h s xs).0.next ≡ h.next
unfolding publish_to
next-publish_to writes h s [] = refl
next-publish_to writes h s (x ∷ xs) = elim (Bool-cases (writes x)) [
  | inl e ↦ rw (publish_to, e) (next-publish_to writes h s xs)
  | inr e ↦
      let (h1, s1) = unregister h s x in
      rw (publish_to, e) (next-publish_to writes h1 s1 xs ∙ next-unregister h s x)
]

length-keep_le : (p : WsSession → Bool) (ss : List WsSession) → length (keep p ss) ≤ length ss
length-keep_le p [] = omega arith
length-keep_le p (x ∷ ss) = ground (arith, length-keep_le p ss)

length-after_writes_le :
    (writes : WsSession → Bool) (xs ss : List WsSession)
    → length (after_writes writes xs ss) ≤ length ss
unfolding after_writes
length-after_writes_le writes [] ss = omega arith
length-after_writes_le writes (x ∷ xs) ss = elim (Bool-cases (writes x)) [
  | inl e ↦ rw (after_writes, e) (length-after_writes_le writes xs ss)
  | inr e ↦
      rw (after_writes, e)
        (omega
          (arith, length-after_writes_le writes xs (keep (gone x) ss), length-keep_le (gone x) ss))
]

run-Agree :
    (calls : List Call) (h : WsHub) (s : Store) (ss : List WsSession)
    → Agree (h, s) ss
    → length ss + length calls < max_int
    → Agree (run (h, s) calls) (meaning h.next ss calls)
unfolding run meaning publish_local_to_user register
run-Agree [] h s ss agree small = agree
run-Agree (registers u ∷ calls) h s ss agree small =
    let (h', s', x) = register h s u in
    run-Agree calls h' s' (ss ++ x ∷ []) (register-Holds h s ss u agree.0 (omega (arith, small)))
      (omega (arith, small, length-append ss (x ∷ [])))
run-Agree (unregisters x ∷ calls) h s ss agree small =
    let (h', s') = unregister h s x in
    subst (λ n. Agree (run (h', s') calls) (meaning n (keep (gone x) ss) calls))
      (next-unregister h s x)
      (run-Agree calls h' s' (keep (gone x) ss) (unregister-Holds h s ss x agree.0)
        (omega (arith, small, length-keep_le (gone x) ss)))
run-Agree (publishes u writes ∷ calls) h s ss agree small =
    let xs = sessions_of h u in
    let left = after_writes writes xs ss in
    let (h', s', n) = publish_to writes h s xs in
    let (a, b, c) = publish_to-Holds writes h s xs ss agree.0 agree.1 in
    rw⁻¹ (agree.0.lists u) (
      subst (λ n. Agree (run (h', s') calls) (meaning n left calls)) (next-publish_to writes h s xs)
        (run-Agree calls h' s' left (a, b)
          (omega (arith, small, length-after_writes_le writes xs ss))))

-- From the empty hub and a store whose gauge is zero, after any calls one after the other (fewer than
-- 2^63 - 1), the hub holds exactly the sessions that were registered and neither unregistered nor
-- found dead by a message to their user: its lists by user are these sessions, without one twice, and
-- its counter and the gauge of the store are their number.
pub run-Holds :
    (s : Store) (calls : List Call)
    → gauge s ≡ pos 0
    → length calls < max_int
    → let (h', s') = run (new_ws_hub, s) calls in
      let ss = meaning 0 [] calls in Holds h' ss × (gauge s' ≡ pos (length ss))
unfolding new_ws_hub
run-Holds s calls g small =
    run-Agree calls new_ws_hub s []
      (record { lists = λ u. unfold get in refl; counted = refl; distinct = tt; older = tt }, g)
      (omega (arith, small))
