-- ===== src/Tests/Frames.antt =====
-- The theorems on web-socket frames at short inputs.
use nukara.Base.{true, some, ◌≡◌, refl, List, [], ◌∷◌, ◌++◌, arith}
use nukara.Socket.Bytes.{Byte}
use nukara.Socket.Frames.{frame, read_frame, client_frame, op_text, op_ping, op_binary}
use nukara.Socket.Reading.{read_frame-client_frame, IsBounded, read_frame-IsBounded}
use nukara.Socket.Loop.{Outcome, got_text, read_text, read_text-returns}
use nukara.Socket.Answers.{read_text-encode, ClientFrame, encode, IsValid, pongs}

abbrev mask : List Byte
mask = 55 ∷ 250 ∷ 33 ∷ 61 ∷ []

abbrev hello : List Byte
hello = 72 ∷ 101 ∷ 108 ∷ 108 ∷ 111 ∷ []

read_frame-client_frame_example :
    read_frame (client_frame op_text mask hello ++ 1 ∷ 2 ∷ []) ≡ frame op_text hello (1 ∷ 2 ∷ [])
read_frame-client_frame_example =
    read_frame-client_frame op_text mask hello (1 ∷ 2 ∷ []) (omega arith) refl
      (omega arith, (omega arith, (omega arith, (omega arith, (omega arith, tt))))) (omega arith)

read_frame-IsBounded_example :
    IsBounded (client_frame op_text mask hello) (read_frame (client_frame op_text mask hello))
read_frame-IsBounded_example = read_frame-IsBounded (client_frame op_text mask hello)

read_text-returns_example :
    (r : Outcome × List Byte) × (read_text true 20 (client_frame op_ping mask hello) ≡ some r)
unfolding client_frame
read_text-returns_example =
    read_text-returns true 20 (client_frame op_ping mask hello) (omega arith)

abbrev ping : ClientFrame
ping = record { opcode = op_ping; mask = mask; payload = 7 ∷ [] }

abbrev binary : ClientFrame
binary = record { opcode = op_binary; mask = mask; payload = [] }

abbrev text : ClientFrame
text = record { opcode = op_text; mask = mask; payload = hello }

ping-IsValid : IsValid ping
ping-IsValid = record {
  short_code = omega arith;
  four_bytes = refl;
  of_bytes = (omega arith, tt);
  fits = omega arith;
}

binary-IsValid : IsValid binary
binary-IsValid = record {
  short_code = omega arith;
  four_bytes = refl;
  of_bytes = tt;
  fits = omega arith;
}

text-IsValid : IsValid text
text-IsValid = record {
  short_code = omega arith;
  four_bytes = refl;
  of_bytes = (omega arith, (omega arith, (omega arith, (omega arith, (omega arith, tt)))));
  fits = omega arith;
}

read_text-encode_example :
    read_text true 3 (encode (ping ∷ binary ∷ []) (client_frame op_text mask hello ++ []))
    ≡ some (got_text hello [], pongs (ping ∷ binary ∷ []))
read_text-encode_example =
    read_text-encode (ping ∷ binary ∷ []) mask hello [] 3 (ping-IsValid, (binary-IsValid, tt))
      (refl, (refl, tt)) text-IsValid (omega arith)
