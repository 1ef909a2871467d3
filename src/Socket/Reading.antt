-- ===== src/Socket/Reading.antt =====
-- What readFrame of internal/api/ws_conn.go makes of the frames of a client, and how much it reads.
use nukara.Base.{
  append_assoc, ℕ, ◌+◌, ◌%◌, ◌^◌, ◌≤◌, ◌<◌, Bool, true, false, ◌&&◌, not, Option, none, some, ltb,
  leb, eqb, ℤ, pos, negsuc, signed, List, [], ◌∷◌, ◌++◌, length, ◌≡◌, refl, ap, ◌∙◌, subst, arith,
  All, Bool-cases, inl, inr, Option-cases,
}
use nukara.Socket.Bytes.{
  Byte, IsByte, read_full, read_full-append, length-read_full, big_endian, put_uint,
  big_endian-put_uint, unmask, unmask-unmask, length-unmask, mask_bytes, mask_bytes-unmask,
}
use nukara.Socket.Frames.{
  input_ended, failed, frame, FrameResult, max_frame_size, read_length, finish_frame, read_masked,
  read_body, high_bit, read_frame, length_bytes, client_frame, is_data,
}

-- The length part of a masked frame reads back.
Reads : ℕ → List Byte → List Byte → Type 0
Reads n rest [] = ⊥
Reads n rest (second ∷ input) =
    (read_length (second % 128) (input ++ rest) ≡ some (pos n, rest)) × (high_bit second ≡ true)

short_length :
    (n : ℕ) (rest : List Byte) → n < 126 → read_length ((128 + n) % 128) rest ≡ some (pos n, rest)
unfolding read_length
short_length n rest h = let same : (128 + n) % 128 ≡ n = omega arith in rw same (go n h)
  where
    go : (m : ℕ) → m < 126 → read_length m rest ≡ some (pos m, rest)
    go m k = ground arith

length_bytes-Reads :
    (n : ℕ) (rest : List Byte) → n ≤ max_frame_size → Reads n rest (length_bytes 128 n)
unfolding Reads read_length length_bytes put_uint read_full big_endian
length_bytes-Reads n rest h = elim (Bool-cases (ltb n 126)) [
  | inl e ↦ rw e (short_length n rest (ground arith), ground arith)
  | inr e ↦ elim (Bool-cases (leb n 65535)) [
    | inl f ↦
        let small : n < 256 ^ 2 = ground arith in
        rw (e, f) (ap (λ x. some (pos x, rest)) (big_endian-put_uint 2 n small), refl)
    | inr f ↦
        let small : n < 256 ^ 8 = omega arith in
        let low : signed n ≡ pos n = ground arith in
        rw (e, f)
          (
            ap (λ x. some (signed x, rest)) (big_endian-put_uint 8 n small)
                ∙ ap (λ x. some (x, rest)) low,
            refl,
          )
  ]
]

read_body-client :
    (opcode : ℕ) (mask payload rest : List Byte)
    → length mask ≡ 4
    → All IsByte payload
    → length payload ≤ max_frame_size
    → read_body true opcode true (pos (length payload)) (mask ++ (unmask mask 0 payload ++ rest))
      ≡ frame opcode payload rest
unfolding read_body read_masked
read_body-client opcode mask payload rest m bytes h =
    let masked = unmask mask 0 payload in
    let small : ltb max_frame_size (length payload) ≡ false = ground arith in
    let first : read_full 4 (mask ++ (masked ++ rest)) ≡ some (mask, masked ++ rest) =
      subst (λ j. read_full j (mask ++ (masked ++ rest)) ≡ some (mask, masked ++ rest)) m
        (read_full-append mask (masked ++ rest)) in
    let second : read_full (length payload) (masked ++ rest) ≡ some (masked, rest) =
      subst (λ j. read_full j (masked ++ rest) ≡ some (masked, rest)) (length-unmask mask 0 payload)
        (read_full-append masked rest) in
    let zero_le : ltb (length payload) 0 ≡ false = ground arith in
    rw (zero_le, small, read_masked, first, second)
      (ap (λ p. frame opcode p rest) (unmask-unmask mask 0 payload bytes))

-- A frame that a client masks and sends, of at most 4 MiB, is read back with its operation and its
-- payload, and the bytes behind it are left.
pub read_frame-client_frame :
    (opcode : ℕ) (mask payload rest : List Byte)
    → opcode < 16
    → length mask ≡ 4
    → All IsByte payload
    → length payload ≤ max_frame_size
    → read_frame (client_frame opcode mask payload ++ rest) ≡ frame opcode payload rest
unfolding client_frame Reads read_frame
read_frame-client_frame opcode mask payload rest op m bytes h =
    let size = length_bytes 128 (length payload) in
    let masked = unmask mask 0 payload in
    let regroup : (size ++ (mask ++ masked)) ++ rest ≡ size ++ (mask ++ (masked ++ rest)) =
      append_assoc size (mask ++ masked) rest ∙ ap (◌++◌ size) (append_assoc mask masked rest) in
    let same : mask_bytes mask payload ≡ masked = mask_bytes-unmask mask payload m in
    ap (λ l. read_frame ((128 + opcode) ∷ ((size ++ (mask ++ l)) ++ rest))) same
    ∙ ap read_frame (ap (◌∷◌ (128 + opcode)) regroup)
    ∙ go size (length_bytes-Reads (length payload) (mask ++ (masked ++ rest)) h)
  where
    go :
        (size : List Byte)
        → Reads (length payload) (mask ++ (unmask mask 0 payload ++ rest)) size
        → read_frame ((128 + opcode) ∷ (size ++ (mask ++ (unmask mask 0 payload ++ rest))))
          ≡ frame opcode payload rest
    go [] bad = absurd bad
    go (second ∷ input) (e, bit) =
        let fin : high_bit (128 + opcode) ≡ true = ground arith in
        let code : (128 + opcode) % 16 ≡ opcode = omega arith in
        rw (read_frame, e, fin, code, bit) (read_body-client opcode mask payload rest m bytes h)

-- What a frame that was read is bounded by.
unfoldable pub IsBounded : List Byte → FrameResult → Type 0
IsBounded input (failed e) = Unit
IsBounded input (frame opcode payload rest) =
    (length payload ≤ max_frame_size)
    × (opcode < 16)
    × (6 + length payload + length rest ≤ length input)

finish_frame-IsBounded :
    (fin : Bool) (opcode : ℕ) (mask bytes rest input : List Byte)
    → length bytes ≤ max_frame_size
    → opcode < 16
    → 6 + length bytes + length rest ≤ length input
    → IsBounded input (finish_frame fin opcode mask bytes rest)
unfolding IsBounded
finish_frame-IsBounded fin opcode mask bytes rest input h op k =
    elim (Bool-cases (not fin && is_data opcode)) [
      | inl e ↦ rw e tt
      | inr e ↦ rw (e, length-unmask mask 0 bytes) (h, op, k)
    ]

read_masked-IsBounded :
    (fin : Bool) (opcode size : ℕ) (input : List Byte) (whole : List Byte)
    → opcode < 16
    → size ≤ max_frame_size
    → 2 + length input ≤ length whole
    → IsBounded whole (read_masked fin opcode size input)
unfolding read_masked
read_masked-IsBounded fin opcode size input whole op h k = elim (Option-cases (read_full 4 input)) [
  | inl e ↦ rw (read_masked, e) (unfold IsBounded in tt)
  | inr ((mask, more), e) ↦ elim (Option-cases (read_full size more)) [
    | inl f ↦ rw (read_masked, e, f) (unfold IsBounded in tt)
    | inr ((bytes, rest), f) ↦
        let a = length-read_full 4 input mask more e in
        let b = length-read_full size more bytes rest f in
        rw (read_masked, e, f)
          (finish_frame-IsBounded fin opcode mask bytes rest whole (omega (arith, b.0)) op
            (omega (arith, a.1, b.0, b.1)))
  ]
]

read_body-IsBounded :
    (fin masked : Bool) (opcode : ℕ) (size : ℤ) (input whole : List Byte)
    → opcode < 16
    → 2 + length input ≤ length whole
    → IsBounded whole (read_body fin opcode masked size input)
unfolding read_body IsBounded
read_body-IsBounded fin false opcode size input whole op k = tt
read_body-IsBounded fin true opcode (negsuc n) input whole op k = tt
read_body-IsBounded fin true opcode (pos n) input whole op k =
    elim (Bool-cases (ltb max_frame_size n)) [
      | inl e ↦ rw (read_body, e) (ground arith)
      | inr e ↦
          let zero_le : ltb n 0 ≡ false = ground arith in
          rw (read_body, zero_le, e)
            (read_masked-IsBounded fin opcode n input whole op (ground arith) k)
    ]

Shorter : List Byte → Option (ℤ × List Byte) → Type 0
Shorter input none = Unit
Shorter input (some (size, rest)) = length rest ≤ length input

extended-Shorter :
    (k : ℕ) (input : List Byte) (size : List Byte → ℤ)
    → Shorter input
        (elim (read_full k input) [ none ↦ none | some (ext, rest) ↦ some (size ext, rest) ])
unfolding Shorter
extended-Shorter k input size = elim (Option-cases (read_full k input)) [
  | inl e ↦ rw e tt
  | inr ((ext, rest), e) ↦ rw e (omega (arith, (length-read_full k input ext rest e).1))
]

read_length-Shorter : (short : ℕ) (input : List Byte) → Shorter input (read_length short input)
unfolding read_length
read_length-Shorter short input = elim (Bool-cases (eqb short 126)) [
  | inl e ↦ rw (read_length, e) (extended-Shorter 2 input (λ ext. pos (big_endian 0 ext)))
  | inr e ↦ elim (Bool-cases (eqb short 127)) [
    | inl f ↦ rw (read_length, e, f) (extended-Shorter 8 input (λ ext. signed (big_endian 0 ext)))
    | inr f ↦ rw (read_length, e, f) (unfold Shorter in omega arith)
  ]
]

-- A frame that is read, from whatever input, has a payload of at most 4 MiB and one of sixteen
-- operations, and it used up at least six bytes more than its payload.
pub read_frame-IsBounded : (input : List Byte) → IsBounded input (read_frame input)
unfolding read_frame IsBounded Shorter
read_frame-IsBounded [] = unfold IsBounded in tt
read_frame-IsBounded (first ∷ []) = unfold IsBounded in tt
read_frame-IsBounded (first ∷ second ∷ input) =
    go (read_length (second % 128) input) (read_length-Shorter (second % 128) input)
  where
    go :
        (o : Option (ℤ × List Byte))
        → Shorter input o
        → IsBounded (first ∷ second ∷ input) (elim o [
          | none ↦ failed input_ended
          | some (size, rest) ↦ read_body (high_bit first) (first % 16) (high_bit second) size rest
        ])
    go none h = tt
    go (some (size, rest)) h =
        read_body-IsBounded (high_bit first) (high_bit second) (first % 16) size rest
          (first ∷ second ∷ input) (omega arith) (omega (arith, h))
