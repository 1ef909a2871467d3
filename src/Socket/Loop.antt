-- ===== src/Socket/Loop.antt =====
-- The loop of ReadText of internal/api/ws_conn.go, over the bytes that a client sends.
use nukara.Base.{
  ℕ, zero, suc, ◌<◌, Bool, true, false, ◌||◌, Option, none, some, eqb, if◌then◌else◌, List, [],
  ◌++◌, length, ◌≡◌, refl, ap, arith, Bool-cases, inl, inr,
}
use nukara.Socket.Bytes.{Byte}
use nukara.Socket.Frames.{
  FrameError, FrameResult, failed, frame, op_continuation, op_text, op_binary, op_close, op_ping,
  op_pong, read_frame, write_frame,
}
use nukara.Socket.Reading.{IsBounded, read_frame-IsBounded}

pub data Outcome : Type 0 where
  got_text : List Byte → List Byte → Outcome
  closed : Outcome
  read_error : FrameError → Outcome
  write_error : Outcome
  unsupported : ℕ → Outcome

-- How ReadText returned, and the bytes that it wrote; `none` while it has not returned.
abbrev pub Reply : Type 0
Reply = Option (Outcome × List Byte)

abbrev pub behind : List Byte → Reply → Reply
behind bytes none = none
behind bytes (some (o, out)) = some (o, bytes ++ out)

-- What `writable` tells is whether the writer takes bytes.
abbrev pub answer : Bool → Option (List Byte) → Reply → Reply
answer writable none rest = some (write_error, [])
answer true (some bytes) rest = behind bytes rest
answer false (some bytes) rest = some (write_error, [])

abbrev farewell : Bool → Option (List Byte) → List Byte
farewell writable none = []
farewell true (some bytes) = bytes
farewell false (some bytes) = []

-- Whether the loop goes on without an answer.
abbrev pub is_skipped : ℕ → Bool
is_skipped opcode = eqb opcode op_binary || eqb opcode op_continuation || eqb opcode op_pong

-- One round; `again` is what the following rounds return.
unfoldable pub handle : Bool → ℕ → List Byte → List Byte → Reply → Reply
unfolding write_frame
handle writable opcode payload rest again =
    if eqb opcode op_text
    then some (got_text payload rest, [])
    else if is_skipped opcode
    then again
    else if eqb opcode op_ping
    then answer writable (write_frame op_pong payload) again
    else if eqb opcode op_close
    then some (closed, farewell writable (write_frame op_close []))
    else some (unsupported opcode, [])

unfoldable pub read_text : Bool → ℕ → List Byte → Reply
unfolding read_frame handle
read_text writable zero input = none
read_text writable (suc fuel) input = elim (read_frame input) [
  | failed e ↦ some (read_error e, [])
  | frame opcode payload rest ↦ handle writable opcode payload rest (read_text writable fuel rest)
]

Returned : Reply → Type 0
Returned o = (r : Outcome × List Byte) × (o ≡ some r)

answer-Returned :
    (writable : Bool) (bytes : Option (List Byte)) (again : Reply)
    → Returned again
    → Returned (answer writable bytes again)
unfolding Returned
answer-Returned writable none again h = (_, refl)
answer-Returned false (some bytes) again h = (_, refl)
answer-Returned true (some bytes) again ((o, out), e) = ((o, bytes ++ out), ap (behind bytes) e)

handle-Returned :
    (writable : Bool) (opcode : ℕ) (payload rest : List Byte) (again : Reply)
    → Returned again
    → Returned (handle writable opcode payload rest again)
unfolding handle Returned
handle-Returned writable opcode payload rest again h = elim (Bool-cases (eqb opcode op_text)) [
  | inl a ↦ ((got_text payload rest, []), rw (handle, a) refl)
  | inr a ↦ elim (Bool-cases (is_skipped opcode)) [
    | inl b ↦ (h.0, rw (handle, a, b) h.1)
    | inr b ↦ elim (Bool-cases (eqb opcode op_ping)) [
      | inl c ↦
          let r = answer-Returned writable (write_frame op_pong payload) again h in
          (r.0, rw (handle, a, b, c) r.1)
      | inr c ↦ elim (Bool-cases (eqb opcode op_close)) [
        | inl d ↦
            let out = farewell writable (write_frame op_close []) in
            ((closed, out), rw (handle, a, b, c, d) refl)
        | inr d ↦ ((unsupported opcode, []), rw (handle, a, b, c, d) refl)
      ]
    ]
  ]
]

-- With more rounds than the input has bytes ReadText returns, whatever the client sent.
pub read_text-returns :
    (writable : Bool) (fuel : ℕ) (input : List Byte)
    → length input < fuel
    → (r : Outcome × List Byte) × (read_text writable fuel input ≡ some r)
unfolding read_text Returned IsBounded
read_text-returns writable zero input h = absurd (omega (arith, h))
read_text-returns writable (suc fuel) input h =
    go (read_frame input) (read_frame-IsBounded input) (read_text-returns writable fuel)
  where
    go :
        (f : FrameResult)
        → IsBounded input f
        → ((rest : List Byte) → length rest < fuel → Returned (read_text writable fuel rest))
        → Returned (elim f [
          | failed e ↦ some (read_error e, [])
          | frame opcode payload rest ↦
              handle writable opcode payload rest (read_text writable fuel rest)
        ])
    go (failed e) b ih = ((read_error e, []), refl)
    go (frame opcode payload rest) b ih =
        handle-Returned writable opcode payload rest (read_text writable fuel rest)
          (ih rest (omega (arith, h, b.2)))
