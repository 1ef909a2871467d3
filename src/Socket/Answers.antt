-- ===== src/Socket/Answers.antt =====
-- What ReadText of internal/api/ws_conn.go returns for the frames of a client, and what it answers.
use nukara.Base.{
  ℕ, zero, suc, ◌+◌, ◌/◌, ◌%◌, ◌≤◌, ◌<◌, Bool, true, false, ◌||◌, some, eqb, ltb, leb,
  if◌then◌else◌, List, [], ◌∷◌, ◌++◌, length, All, ◌≡◌, refl, arith, Bool-cases, inl, inr,
}
use nukara.Socket.Bytes.{Byte, IsByte, put_uint}
use nukara.Socket.Frames.{op_text, op_pong, write_frame, length_bytes, client_frame, max_frame_size}
use nukara.Socket.Reading.{read_frame-client_frame}
use nukara.Socket.Loop.{Outcome, got_text, handle, is_skipped, read_text}

-- A frame that a client sends.
pub record ClientFrame : Type 0 where
  pub opcode : ℕ
  pub mask : List Byte
  pub payload : List Byte

abbrev pub encode : List ClientFrame → List Byte → List Byte
encode [] rest = rest
encode (f ∷ fs) rest = client_frame f.opcode f.mask f.payload ++ encode fs rest

pub record IsValid (f : ClientFrame) : Type 0 where
  pub short_code : f.opcode < 16
  pub four_bytes : length f.mask ≡ 4
  pub of_bytes : All IsByte f.payload
  pub fits : length f.payload ≤ max_frame_size

-- The frames that ReadText passes over, by the numbers of RFC 6455: continuations, binary data, pings
-- and pongs.
abbrev pub is_passed : ClientFrame → Bool
is_passed f = eqb f.opcode 0 || eqb f.opcode 2 || eqb f.opcode 9 || eqb f.opcode 10

-- The length of an unmasked frame by RFC 6455, for a length below 2^32.
abbrev pub rfc_length : ℕ → List Byte
rfc_length n =
    if ltb n 126
    then n ∷ []
    else if ltb n 65536
    then 126 ∷ n / 256 ∷ n % 256 ∷ []
    else 127 ∷ 0 ∷ 0 ∷ 0 ∷ 0 ∷ n / 16777216 ∷ n / 65536 % 256 ∷ n / 256 % 256 ∷ n % 256 ∷ []

-- The final, unmasked pong of RFC 6455: 0x8A, the length, the payload.
abbrev pub rfc_pong : List Byte → List Byte
rfc_pong payload = 0x8a ∷ (rfc_length (length payload) ++ payload)

-- The pongs for the pings among the frames, in their order
abbrev pub pongs : List ClientFrame → List Byte
pongs [] = []
pongs (f ∷ fs) = if eqb f.opcode 9 then rfc_pong f.payload ++ pongs fs else pongs fs

put_two : (n : ℕ) → n < 65536 → put_uint 2 n ≡ n / 256 ∷ n % 256 ∷ []
unfolding put_uint
put_two n h = let high : n / 256 % 256 ≡ n / 256 = omega arith in rw high refl

put_eight :
    (n : ℕ)
    → n < 4294967296
    → put_uint 8 n ≡ 0 ∷ 0 ∷ 0 ∷ 0 ∷ n / 16777216 ∷ n / 65536 % 256 ∷ n / 256 % 256 ∷ n % 256 ∷ []
unfolding put_uint
put_eight n h =
    let two : n / 256 / 256 ≡ n / 65536 = omega arith in
    let three : n / 65536 / 256 ≡ n / 16777216 = omega arith in
    let four : n / 16777216 / 256 ≡ 0 = omega arith in
    let low : n / 16777216 % 256 ≡ n / 16777216 = omega arith in rw (two, three, four, low) refl

length_bytes-rfc : (n : ℕ) → n ≤ max_frame_size → length_bytes 0 n ≡ rfc_length n
unfolding length_bytes
length_bytes-rfc n fits = elim (Bool-cases (ltb n 126)) [
  | inl e ↦ let plain : 0 + n ≡ n = omega arith in rw (length_bytes, e, plain) refl
  | inr e ↦ elim (Bool-cases (ltb n 65536)) [
    | inl f ↦
        let le : leb n 65535 ≡ true = ground arith in
        rw (length_bytes, e, f, le, put_two n (ground arith)) refl
    | inr f ↦
        let le : leb n 65535 ≡ false = ground arith in
        rw (length_bytes, e, f, le, put_eight n (omega (arith, fits))) refl
  ]
]

write_frame-rfc :
    (payload : List Byte)
    → length payload ≤ max_frame_size
    → write_frame op_pong payload ≡ some (rfc_pong payload)
unfolding write_frame
write_frame-rfc payload fits =
    let k : ltb max_frame_size (length payload) ≡ false = ground arith in
    rw (write_frame, k, length_bytes-rfc (length payload) fits) refl

-- One frame that is passed over
passed_lem :
    (f : ClientFrame) (rest again_out : List Byte) (o : Outcome)
    → length f.payload ≤ max_frame_size
    → is_passed f ≡ true
    → handle true f.opcode f.payload rest (some (o, again_out))
      ≡ some (o, (if eqb f.opcode 9 then rfc_pong f.payload ++ again_out else again_out))
unfolding handle
passed_lem f rest again_out o fits passed = elim (Bool-cases (eqb f.opcode 9)) [
  | inl c ↦
      let a : eqb f.opcode op_text ≡ false = ground arith in
      let b : is_skipped f.opcode ≡ false = ground arith in
      rw (handle, a, b, c, write_frame-rfc f.payload fits) refl
  | inr c ↦
      let a : eqb f.opcode op_text ≡ false = ground arith in
      let b : is_skipped f.opcode ≡ true = ground arith in rw (handle, a, b, c) refl
]

-- Behind continuations, binary data, pings and pongs, ReadText returns the text of the first text
-- frame and leaves what follows; where the writer takes the bytes, it has written, for every ping in
-- their order, the unmasked pong of RFC 6455 with the same payload, and nothing else.
pub read_text-encode :
    (fs : List ClientFrame) (mask text rest : List Byte) (fuel : ℕ)
    → All IsValid fs
    → All (λ f. is_passed f ≡ true) fs
    → IsValid (record { opcode = op_text; mask = mask; payload = text })
    → length fs < fuel
    → read_text true fuel (encode fs (client_frame op_text mask text ++ rest))
      ≡ some (got_text text rest, pongs fs)
unfolding read_text
read_text-encode fs mask text rest zero valid passed v h = absurd (omega (arith, h))
read_text-encode [] mask text rest (suc fuel) valid passed v h =
    rw
      (
        read_text,
        read_frame-client_frame op_text mask text rest v.short_code v.four_bytes v.of_bytes v.fits,
      )
      refl
read_text-encode (f ∷ fs) mask text rest (suc fuel) valid passed v h =
    let tail = encode fs (client_frame op_text mask text ++ rest) in
    let w = valid.0 in
    rw
      (
        read_text,
        read_frame-client_frame f.opcode f.mask f.payload tail w.short_code w.four_bytes w.of_bytes
            w.fits,
        read_text-encode fs mask text rest fuel valid.1 passed.1 v (omega (arith, h)),
      )
      (passed_lem f tail (pongs fs) (got_text text rest) w.fits passed.0)
