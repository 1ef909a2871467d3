-- ===== src/Chat/Delivery.antt =====
-- Every message that the aggregator of internal/api/ws_chat_aggregate.go takes in comes out once.
use nukara.Base.{
  ℕ, zero, suc, ◌+◌, String, true, false, ◌≡◌, ◌⊎◌, refl, sym, ap, ◌∙◌, none, some, List, [], ◌∷◌,
  ◌++◌, arith, get, put, delete, values, empty_map, values_of, leb, is_blank, All, All-append,
  Option-cases, Bool-cases, inl, inr, length,
}
use nukara.Chat.Aggregate.{
  AggregateInput, AggregateBuffer, QueuedTurn, MessageAggregator, add, add_to, flush, close_all,
  deliver, remove_nth, flush_buffer, grown, new_buffer, turn_of, max_aggregate_messages,
}
use nukara.Chat.Prompts.{says, says-append, format-says}
use nukara.Chat.Counts.{
  occurrences, occurrences-append, Unique, Unique-store_at, Unique-without, All-store_at,
  All-without, All-found, total, weight_at, total-append, total-store_at, total-without,
}

module _ {X : Type 0} where
  abbrev pub in_buffer : String → AggregateBuffer X → ℕ
  in_buffer x buf = occurrences x buf.user_message_ids

  abbrev pub in_turn : String → QueuedTurn X → ℕ
  in_turn x turn = occurrences x turn.user_message_ids

  -- How often a message is in the buffers, in flight and in the queue, together.
  abbrev pub held : String → MessageAggregator X → ℕ
  held x ma =
      total (in_buffer x) (values ma.buffers)
      + (total (in_buffer x) ma.in_flight + total (in_turn x) ma.queue)

  -- The buffer has a text to send.
  abbrev pub Says : AggregateBuffer X → Type 0
  Says buf = says buf.prompts ≡ true

  abbrev pub IsSound : MessageAggregator X → Type 0
  IsSound ma = Unique ma.buffers.entries × All Says (values ma.buffers) × All Says ma.in_flight

  -- The aggregator is sound, and holds so many messages more than before.
  abbrev pub Takes : List String → MessageAggregator X → MessageAggregator X → Type 0
  Takes ids ma out = IsSound out × ((x : String) → held x out ≡ held x ma + occurrences x ids)

  stores :
      (ma : MessageAggregator X) (k : String) (v : AggregateBuffer X) (ids : List String)
      → Says v
      → ((x : String)
          → in_buffer x v ≡ weight_at (in_buffer x) (get ma.buffers k) + occurrences x ids)
      → IsSound ma
      → Takes ids ma (record ma { buffers = put ma.buffers k v })
  unfolding get put values
  stores ma k v ids full more (u, b, f) =
      let m = ma.buffers.entries in
      (
        (Unique-store_at k v m u, All-store_at Says k v m full b, f),
        λ x. omega (arith, total-store_at (in_buffer x) k v m, more x),
      )

  detaches :
      (ma : MessageAggregator X) (k : String) (v : AggregateBuffer X) (ids : List String)
      → Says v
      → ((x : String)
          → in_buffer x v ≡ weight_at (in_buffer x) (get ma.buffers k) + occurrences x ids)
      → IsSound ma
      → Takes ids ma (record ma { buffers = delete ma.buffers k; in_flight = v ∷ ma.in_flight })
  unfolding get delete values
  detaches ma k v ids full more (u, b, f) =
      let m = ma.buffers.entries in
      (
        (Unique-without k m u, All-without Says k m b, (full, f)),
        λ x. omega (arith, total-without (in_buffer x) k m u, more x),
      )

  stored-Says :
      (ma : MessageAggregator X) (k : String) (buf : AggregateBuffer X)
      → get ma.buffers k ≡ some buf
      → IsSound ma
      → Says buf
  unfolding get values
  stored-Says ma k buf e (u, b, f) = All-found Says k buf ma.buffers.entries b e

  pub add-Takes :
      (ma : MessageAggregator X) (input : AggregateInput X)
      → is_blank input.prompt ≡ false
      → IsSound ma
      → Takes (input.user_message_id ∷ []) ma (add ma input)
  unfolding add add_to
  add-Takes ma input full ok =
      let k = input.conversation.id in
      let id = input.user_message_id in
      elim (Option-cases (get ma.buffers k)) [
        | inl e ↦
            rw (e, add)
              (stores ma k (new_buffer input) (id ∷ []) (rw full refl)
                (λ x. omega (arith, ap (weight_at (in_buffer x)) e)) ok)
        | inr (buf, e) ↦
            let v = grown buf input in
            let says_more = says-append buf.prompts input.prompt (stored-Says ma k buf e ok) in
            let more : (x : String)
                → in_buffer x v
                  ≡ weight_at (in_buffer x) (get ma.buffers k) + occurrences x (id ∷ []) =
              λ x.
                occurrences-append x buf.user_message_ids (id ∷ [])
                ∙ ap (λ o. weight_at (in_buffer x) o + occurrences x (id ∷ [])) (sym e) in
            elim (Bool-cases (leb max_aggregate_messages (length v.prompts))) [
              | inl g ↦ rw (e, g, add, add_to) (detaches ma k v (id ∷ []) says_more more ok)
              | inr g ↦ rw (e, g, add, add_to) (stores ma k v (id ∷ []) says_more more ok)
            ]
      ]

  pub flush-Takes : (ma : MessageAggregator X) (c : String) → IsSound ma → Takes [] ma (flush ma c)
  unfolding flush
  flush-Takes ma c ok = elim (Option-cases (get ma.buffers c)) [
    | inl e ↦ rw (e, flush) (ok, λ x. omega arith)
    | inr (buf, e) ↦
        rw (e, flush)
          (detaches ma c buf [] (stored-Says ma c buf e ok)
            (λ x. omega (arith, ap (weight_at (in_buffer x)) e)) ok)
  ]

  pub close_all-Takes : (ma : MessageAggregator X) → IsSound ma → Takes [] ma (close_all ma)
  unfolding close_all empty_map values values_of
  close_all-Takes ma (u, b, f) = (
    (tt, tt, All-append Says (values ma.buffers) ma.in_flight b f),
    λ x. omega (arith, total-append (in_buffer x) (values ma.buffers) ma.in_flight),
  )

  remove_nth_lem :
      (x : String) (n : ℕ) (l : List (AggregateBuffer X))
      → All Says l
      → (remove_nth n l ≡ none)
        ⊎ ((buf : AggregateBuffer X) × (rest : List (AggregateBuffer X)) × (remove_nth n l
              ≡ some (buf, rest))
            × Says buf
            × All Says rest
            × (total (in_buffer x) l ≡ in_buffer x buf + total (in_buffer x) rest))
  unfolding remove_nth
  remove_nth_lem x n [] h = inl refl
  remove_nth_lem x zero (b ∷ bs) h = inr (b, bs, refl, h.0, h.1, refl)
  remove_nth_lem x (suc n) (b ∷ bs) h = elim (remove_nth_lem x n bs h.1) [
    | inl e ↦ inl (rw (e, remove_nth) refl)
    | inr (buf, rest, e, s, a, q) ↦
        inr (buf, b ∷ rest, rw (e, remove_nth) refl, s, (h.0, a), omega (arith, q))
  ]

  flush_buffer-Says :
      (queue : List (QueuedTurn X)) (buf : AggregateBuffer X)
      → Says buf
      → flush_buffer queue buf ≡ queue ++ turn_of buf ∷ []
  unfolding flush_buffer
  flush_buffer-Says queue buf h = rw (format-says buf.prompts h) refl

  pub deliver-held :
      (x : String) (ma : MessageAggregator X) (n : ℕ)
      → IsSound ma
      → IsSound (deliver ma n) × (held x (deliver ma n) ≡ held x ma)
  unfolding deliver
  deliver-held x ma n (u, b, f) = elim (remove_nth_lem x n ma.in_flight f) [
    | inl e ↦ rw (e, deliver) ((u, b, f), refl)
    | inr (buf, rest, e, s, a, q) ↦
        rw (e, deliver)
          (
            (u, b, a),
            rw (flush_buffer-Says ma.queue buf s)
                (omega (arith, q, total-append (in_turn x) ma.queue (turn_of buf ∷ []))),
          )
  ]

-- What may happen to an aggregator, with the input that is taken in.
pub data Step {X : Type 0} (ma : MessageAggregator X)
    : List (AggregateInput X) → MessageAggregator X → Type 0 where
  adds : (input : AggregateInput X) → Step ma (input ∷ []) (add ma input)
  fires : (conversation_id : String) → Step ma [] (flush ma conversation_id)
  delivers : (n : ℕ) → Step ma [] (deliver ma n)
  closes : Step ma [] (close_all ma)

pub data Runs {X : Type 0} (ma : MessageAggregator X)
    : List (AggregateInput X) → MessageAggregator X → Type 0 where
  starts : Runs ma [] ma
  goes_on :
      {seen more : List (AggregateInput X)} {t v : MessageAggregator X}
      → Runs ma seen t
      → Step t more v
      → Runs ma (more ++ seen) v
