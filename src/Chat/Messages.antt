-- ===== src/Chat/Messages.antt =====
-- What becomes of the messages that the aggregator of internal/api/ws_chat_aggregate.go takes in, over
-- any history of its calls and timers.
use nukara.Base.{
  ℕ, zero, suc, ◌+◌, String, false, ◌≡◌, refl, ap, ◌∙◌, List, [], ◌∷◌, ◌++◌, arith, values,
  values_of, empty_map, is_blank, All, All-append_left, All-append_right, length,
}
use nukara.Chat.Aggregate.{
  AggregateInput, AggregateBuffer, MessageAggregator, new_message_aggregator, close_all, deliver,
  remove_nth,
}
use nukara.Chat.Counts.{occurrences, occurrences-append, total}
use nukara.Chat.Delivery.{
  held, in_turn, in_buffer, IsSound, Step, adds, fires, delivers, closes, Runs, starts, goes_on,
  add-Takes, flush-Takes, close_all-Takes, deliver-held,
}

abbrev pub sent_ids : {X : Type 0} → List (AggregateInput X) → List String
sent_ids [] = []
sent_ids (i ∷ is) = i.user_message_id ∷ sent_ids is

module _ {X : Type 0} where
  abbrev pub HasText : AggregateInput X → Type 0
  HasText input = is_blank input.prompt ≡ false

  Step-held :
      (x : String) {ma v : MessageAggregator X} {ins : List (AggregateInput X)}
      → Step ma ins v
      → All HasText ins
      → IsSound ma
      → IsSound v × (held x v ≡ held x ma + occurrences x (sent_ids ins))
  Step-held x {ma} (adds input) full ok = let (s, h) = add-Takes ma input full.0 ok in (s, h x)
  Step-held x {ma} (fires c) full ok = let (s, h) = flush-Takes ma c ok in (s, h x)
  Step-held x {ma} (delivers n) full ok =
      let (s, h) = deliver-held x ma n ok in (s, omega (arith, h))
  Step-held x {ma} closes full ok = let (s, h) = close_all-Takes ma ok in (s, h x)

  sent_ids-append :
      (is js : List (AggregateInput X)) → sent_ids (is ++ js) ≡ sent_ids is ++ sent_ids js
  sent_ids-append [] js = refl
  sent_ids-append (i ∷ is) js = ap (◌∷◌ i.user_message_id) (sent_ids-append is js)

  Runs-held :
      (x : String) {ins : List (AggregateInput X)} {ma : MessageAggregator X}
      → Runs new_message_aggregator ins ma
      → All HasText ins
      → IsSound ma × (held x ma ≡ occurrences x (sent_ids ins))
  unfolding new_message_aggregator empty_map values
  Runs-held x starts full = ((tt, tt, tt), refl)
  Runs-held x (goes_on {seen} {more} r st) full =
      let (ok, h) = Runs-held x r (All-append_right HasText more seen full) in
      let (s, k) = Step-held x st (All-append_left HasText more seen full) ok in
      (
        s,
        omega (
          arith,
          k,
          h,
          occurrences-append x (sent_ids more) (sent_ids seen),
          ap (occurrences x) (sent_ids-append more seen),
        ),
      )

-- Over any history of messages with a text, timers that fire and deliveries, in any order, each message
-- that was taken in is, as often as it was taken in, in a buffer, in flight or in the queue.
pub every_message_held :
    (X : Type 0) (x : String) (ins : List (AggregateInput X)) (ma : MessageAggregator X)
    → Runs new_message_aggregator ins ma
    → All HasText ins
    → held x ma ≡ occurrences x (sent_ids ins)
every_message_held X x ins ma r full = (Runs-held x r full).1

module _ {X : Type 0} where
  -- So many deliveries of the first buffer in flight.
  abbrev pub deliver_first : ℕ → MessageAggregator X → MessageAggregator X
  deliver_first zero ma = ma
  deliver_first (suc n) ma = deliver_first n (deliver ma 0)

  deliver_head :
      (ma : MessageAggregator X) (b : AggregateBuffer X) (bs : List (AggregateBuffer X))
      → ma.in_flight ≡ b ∷ bs
      → ((deliver ma 0).in_flight ≡ bs) × ((deliver ma 0).buffers ≡ ma.buffers)
  unfolding deliver remove_nth
  deliver_head ma b bs e = rw (e, deliver, remove_nth) (refl, refl)

  drained :
      (x : String) (l : List (AggregateBuffer X)) (ma : MessageAggregator X)
      → ma.in_flight ≡ l
      → IsSound ma
      → let out = deliver_first (length l) ma in
        (out.in_flight ≡ []) × (out.buffers ≡ ma.buffers) × (held x out ≡ held x ma)
  drained x [] ma e ok = (e, refl, refl)
  drained x (b ∷ bs) ma e ok =
      let (s, h) = deliver-held x ma 0 ok in
      let (f, m) = deliver_head ma b bs e in
      let (i, k, g) = drained x bs (deliver ma 0) f s in (i, k ∙ m, g ∙ h)

  closed_buffers : (ma : MessageAggregator X) → values (close_all ma).buffers ≡ []
  unfolding close_all empty_map values values_of
  closed_buffers ma = refl

-- After any history of messages with a text, timers that fire and deliveries, in any order: when the
-- aggregator is closed and the buffers in flight are delivered, each message that was taken in is in
-- the queue, as often as it was taken in.
pub every_message_sent :
    (X : Type 0) (x : String) (ins : List (AggregateInput X)) (ma : MessageAggregator X)
    → Runs new_message_aggregator ins ma
    → All HasText ins
    → let closed = close_all ma in
      total (in_turn x) (deliver_first (length closed.in_flight) closed).queue
      ≡ occurrences x (sent_ids ins)
every_message_sent X x ins ma r full =
    let (ok, h) = Runs-held x r full in
    let (s, k) = close_all-Takes ma ok in
    let closed = close_all ma in
    let (i, m, g) = drained x closed.in_flight closed refl s in
    omega (
      arith,
      h,
      k x,
      g,
      ap (total (in_buffer x)) i,
      ap (λ b. total (in_buffer x) (values b)) m,
      ap (total (in_buffer x)) (closed_buffers ma),
    )
