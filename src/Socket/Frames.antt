-- ===== src/Socket/Frames.antt =====
-- readFrame and writeFrame of internal/api/ws_conn.go. A connection is the bytes that are still to be
-- read and the bytes that were written.
use nukara.Base.{
  ℕ, ◌+◌, ◌%◌, Bool, ◌&&◌, ◌||◌, not, Option, none, some, ltb, leb, eqb, if◌then◌else◌, ℤ, pos,
  ltb_int, signed, pos_part, List, [], ◌∷◌, ◌++◌, length, ◌≡◌, refl,
}
use nukara.Socket.Bytes.{Byte, read_full, big_endian, put_uint, unmask, mask_bytes}

abbrev pub max_frame_size : ℕ
max_frame_size = 4194304

abbrev pub op_continuation : ℕ
op_continuation = 0

abbrev pub op_text : ℕ
op_text = 1

abbrev pub op_binary : ℕ
op_binary = 2

abbrev pub op_close : ℕ
op_close = 8

abbrev pub op_ping : ℕ
op_ping = 9

abbrev pub op_pong : ℕ
op_pong = 10

pub data FrameError : Type 0 where
  input_ended : FrameError
  not_masked : FrameError
  too_large : FrameError
  fragmented : FrameError

pub data FrameResult : Type 0 where
  failed : FrameError → FrameResult
  frame : ℕ → List Byte → List Byte → FrameResult

-- The length behind the first two bytes, as an `int64`, and the rest of the input
unfoldable pub read_length : ℕ → List Byte → Option (ℤ × List Byte)
unfolding read_full big_endian
read_length short input =
    if eqb short 126
    then elim (read_full 2 input) [
      | none ↦ none
      | some (ext, rest) ↦ some (pos (big_endian 0 ext), rest)
    ]
    else if eqb short 127
    then elim (read_full 8 input) [
      | none ↦ none
      | some (ext, rest) ↦ some (signed (big_endian 0 ext), rest)
    ]
    else some (pos short, input)

abbrev pub is_data : ℕ → Bool
is_data opcode = eqb opcode op_text || eqb opcode op_binary || eqb opcode op_continuation

abbrev pub finish_frame : Bool → ℕ → List Byte → List Byte → List Byte → FrameResult
finish_frame fin opcode mask bytes rest =
    if not fin && is_data opcode then failed fragmented else frame opcode (unmask mask 0 bytes) rest

unfoldable pub read_masked : Bool → ℕ → ℕ → List Byte → FrameResult
unfolding read_full unmask
read_masked fin opcode size input = elim (read_full 4 input) [
  | none ↦ failed input_ended
  | some (mask, more) ↦ elim (read_full size more) [
    | none ↦ failed input_ended
    | some (bytes, rest) ↦ finish_frame fin opcode mask bytes rest
  ]
]

-- The two tests behind the length
unfoldable pub read_body : Bool → ℕ → Bool → ℤ → List Byte → FrameResult
unfolding read_masked
read_body fin opcode masked size input =
    if not masked
    then failed not_masked
    else if ltb_int size (pos 0) || ltb_int (pos max_frame_size) size
    then failed too_large
    else read_masked fin opcode (pos_part size) input

-- `b & 0x80 != 0` on a byte
abbrev pub high_bit : Byte → Bool
high_bit b = leb 128 b

unfoldable pub read_frame : List Byte → FrameResult
unfolding read_length read_body
read_frame [] = failed input_ended
read_frame (first ∷ []) = failed input_ended
read_frame (first ∷ second ∷ input) = elim (read_length (second % 128) input) [
  | none ↦ failed input_ended
  | some (size, rest) ↦ read_body (high_bit first) (first % 16) (high_bit second) size rest
]

-- The length part of a frame; `mark` is 128 where the frame is masked.
unfoldable pub length_bytes : ℕ → ℕ → List Byte
unfolding put_uint
length_bytes mark n =
    if ltb n 126
    then (mark + n) ∷ []
    else if leb n 65535
    then (mark + 126) ∷ put_uint 2 n
    else (mark + 127) ∷ put_uint 8 n

-- `0x80 | opcode` on a byte
abbrev with_fin : ℕ → Byte
with_fin opcode = if ltb opcode 128 then 128 + opcode else opcode

-- The bytes that writeFrame hands to the writer; `none` for a payload that is too large.
unfoldable pub write_frame : ℕ → List Byte → Option (List Byte)
unfolding length_bytes
write_frame opcode payload =
    if ltb max_frame_size (length payload)
    then none
    else some (with_fin opcode ∷ (length_bytes 0 (length payload) ++ payload))

-- The frame of a client (RFC 6455): the same layout, with a mask.
unfoldable pub client_frame : ℕ → List Byte → List Byte → List Byte
unfolding length_bytes mask_bytes
client_frame opcode mask payload =
    (128 + opcode) ∷ (length_bytes 128 (length payload) ++ (mask ++ mask_bytes mask payload))

-- The example of RFC 6455: a masked "Hello".
test_hello :
    read_frame (0x81 ∷ 0x85 ∷ 0x37 ∷ 0xfa ∷ 0x21 ∷ 0x3d ∷ 0x7f ∷ 0x9f ∷ 0x4d ∷ 0x51 ∷ 0x58 ∷ [])
    ≡ frame op_text (72 ∷ 101 ∷ 108 ∷ 108 ∷ 111 ∷ []) []
unfolding read_frame
test_hello = refl

test_unmasked : read_frame (0x81 ∷ 0x00 ∷ []) ≡ failed not_masked
unfolding read_frame
test_unmasked = refl
