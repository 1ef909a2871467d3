-- ===== src/Socket/Bytes.antt =====
-- Bytes as numbers below 256: io.ReadFull, the big-endian numbers of encoding/binary, and the `^=`
-- with a mask of internal/api/ws_conn.go.
use nukara.Base.{
  ℕ, zero, suc, ◌+◌, ◌*◌, ◌/◌, ◌%◌, ◌^◌, ◌<◌, Option, none, some, ◌≡◌, refl, ap, ap₂, subst, sym,
  arith, List, [], ◌∷◌, ◌++◌, length, length-append, All,
}

abbrev pub Byte : Type 0
Byte = ℕ

abbrev pub IsByte : Byte → Type 0
IsByte b = b < 256

-- The first `n` bytes and the rest; `none` where the input ends before.
unfoldable pub read_full : ℕ → List Byte → Option (List Byte × List Byte)
read_full zero input = some ([], input)
read_full (suc n) [] = none
read_full (suc n) (b ∷ input) = elim (read_full n input) [
  | none ↦ none
  | some (bytes, rest) ↦ some (b ∷ bytes, rest)
]

pub read_full-append :
    (bytes rest : List Byte) → read_full (length bytes) (bytes ++ rest) ≡ some (bytes, rest)
unfolding read_full
read_full-append [] rest = refl
read_full-append (b ∷ bytes) rest = rw (read_full-append bytes rest) refl

Split : ℕ → List Byte → Option (List Byte × List Byte) → Type 0
Split n input none = Unit
Split n input (some (bytes, rest)) = (length bytes ≡ n) × (length input ≡ n + length rest)

read_full-Split : (n : ℕ) (input : List Byte) → Split n input (read_full n input)
unfolding read_full Split
read_full-Split zero input = (refl, omega arith)
read_full-Split (suc n) [] = tt
read_full-Split (suc n) (b ∷ input) = go (read_full n input) (read_full-Split n input)
  where
    go :
        (o : Option (List Byte × List Byte))
        → Split n input o
        → Split
            (suc n)
            (b ∷ input)
            (elim o [ none ↦ none | some (bytes, rest) ↦ some (b ∷ bytes, rest) ])
    go none h = tt
    go (some (bytes, rest)) h = (ap suc h.0, omega (arith, h.1))

pub length-read_full :
    (n : ℕ) (input bytes rest : List Byte)
    → read_full n input ≡ some (bytes, rest)
    → (length bytes ≡ n) × (length input ≡ n + length rest)
unfolding Split
length-read_full n input bytes rest e = subst (Split n input) e (read_full-Split n input)

-- binary.BigEndian.Uint16 and Uint64
unfoldable pub big_endian : ℕ → List Byte → ℕ
big_endian acc [] = acc
big_endian acc (b ∷ bytes) = big_endian (acc * 256 + b) bytes

-- The `k` bytes of binary.BigEndian.PutUint16 and PutUint64, the low one last
unfoldable pub put_uint : ℕ → ℕ → List Byte
put_uint zero n = []
put_uint (suc k) n = put_uint k (n / 256) ++ (n % 256) ∷ []

big_endian-append :
    (acc b : ℕ) (bytes : List Byte)
    → big_endian acc (bytes ++ b ∷ []) ≡ big_endian acc bytes * 256 + b
unfolding big_endian
big_endian-append acc b [] = refl
big_endian-append acc b (x ∷ bytes) = big_endian-append (acc * 256 + x) b bytes

pub big_endian-put_uint : (k n : ℕ) → n < 256 ^ k → big_endian 0 (put_uint k n) ≡ n
unfolding big_endian put_uint
big_endian-put_uint zero n h = omega arith
big_endian-put_uint (suc k) n h =
    let small : n / 256 < 256 ^ k = omega arith in
    rw (big_endian-append 0 (n % 256) (put_uint k (n / 256)), big_endian-put_uint k (n / 256) small)
      omega arith

pub length-put_uint : (k n : ℕ) → length (put_uint k n) ≡ k
unfolding put_uint
length-put_uint zero n = refl
length-put_uint (suc k) n =
    omega
      (arith, length-append (put_uint k (n / 256)) ((n % 256) ∷ []), length-put_uint k (n / 256))

-- `^` on the lowest `n` binary digits
unfoldable pub xor_digits : ℕ → ℕ → ℕ → ℕ
xor_digits zero a b = 0
xor_digits (suc n) a b = (a + b) % 2 + 2 * xor_digits n (a / 2) (b / 2)

-- `a ^ b` on bytes
abbrev pub bit_xor : Byte → Byte → Byte
bit_xor a b = xor_digits 8 a b

pub xor_digits-twice : (n a b : ℕ) → a < 2 ^ n → xor_digits n (xor_digits n a b) b ≡ a
unfolding xor_digits
xor_digits-twice zero a b h = omega arith
xor_digits-twice (suc n) a b h =
    let small : a / 2 < 2 ^ n = omega arith in
    go (xor_digits n (a / 2) (b / 2)) (xor_digits-twice n (a / 2) (b / 2) small)
  where
    go :
        (x : ℕ)
        → xor_digits n x (b / 2) ≡ a / 2
        → ((a + b) % 2 + 2 * x + b) % 2 + 2 * xor_digits n (((a + b) % 2 + 2 * x) / 2) (b / 2) ≡ a
    go x e = let half : ((a + b) % 2 + 2 * x) / 2 ≡ x = omega arith in rw (half, e) (omega arith)

-- `mask[i]`; the code indexes it below its length.
abbrev nth : List Byte → ℕ → Byte
nth [] i = 0
nth (b ∷ bytes) zero = b
nth (b ∷ bytes) (suc i) = nth bytes i

-- The loop over the payload, from position `i` on
unfoldable pub unmask : List Byte → ℕ → List Byte → List Byte
unfolding xor_digits
unmask mask i [] = []
unmask mask i (b ∷ bytes) = bit_xor b (nth mask (i % 4)) ∷ unmask mask (suc i) bytes

pub length-unmask :
    (mask : List Byte) (i : ℕ) (bytes : List Byte) → length (unmask mask i bytes) ≡ length bytes
unfolding unmask
length-unmask mask i [] = refl
length-unmask mask i (b ∷ bytes) = ap suc (length-unmask mask (suc i) bytes)

-- Masking twice with the same mask gives the bytes back.
pub unmask-unmask :
    (mask : List Byte) (i : ℕ) (bytes : List Byte)
    → All IsByte bytes
    → unmask mask i (unmask mask i bytes) ≡ bytes
unfolding unmask
unmask-unmask mask i [] h = refl
unmask-unmask mask i (b ∷ bytes) h =
    ap₂ (◌∷◌) (xor_digits-twice 8 b (nth mask (i % 4)) h.0) (unmask-unmask mask (suc i) bytes h.1)

-- A client's masking by RFC 6455: the mask is used round and round.
unfoldable pub mask_bytes : List Byte → List Byte → List Byte
unfolding xor_digits
mask_bytes mask [] = []
mask_bytes [] (b ∷ bytes) = b ∷ bytes
mask_bytes (m ∷ ms) (b ∷ bytes) = bit_xor b m ∷ mask_bytes (ms ++ m ∷ []) bytes

module _ (a b c d : Byte) where
  abbrev four : List Byte
  four = a ∷ b ∷ c ∷ d ∷ []

  unmask-turns :
      (bytes : List Byte) (i : ℕ)
      → (i % 4 ≡ 0 → unmask four i bytes ≡ mask_bytes (a ∷ b ∷ c ∷ d ∷ []) bytes)
        × (i % 4 ≡ 1 → unmask four i bytes ≡ mask_bytes (b ∷ c ∷ d ∷ a ∷ []) bytes)
        × (i % 4 ≡ 2 → unmask four i bytes ≡ mask_bytes (c ∷ d ∷ a ∷ b ∷ []) bytes)
        × (i % 4 ≡ 3 → unmask four i bytes ≡ mask_bytes (d ∷ a ∷ b ∷ c ∷ []) bytes)
  unfolding unmask mask_bytes
  unmask-turns [] i = ((λ h. refl), (λ h. refl), (λ h. refl), (λ h. refl))
  unmask-turns (x ∷ bytes) i =
      let (zeroth, first, second, third) = unmask-turns bytes (suc i) in
      (
        (λ h. ap₂ (◌∷◌) (ap (λ r. bit_xor x (nth four r)) h) (first (omega (arith, h)))),
        (λ h. ap₂ (◌∷◌) (ap (λ r. bit_xor x (nth four r)) h) (second (omega (arith, h)))),
        (λ h. ap₂ (◌∷◌) (ap (λ r. bit_xor x (nth four r)) h) (third (omega (arith, h)))),
        (λ h. ap₂ (◌∷◌) (ap (λ r. bit_xor x (nth four r)) h) (zeroth (omega (arith, h)))),
      )

-- The loop of readFrame undoes it: from the first byte on it is the same function.
pub mask_bytes-unmask :
    (mask bytes : List Byte) → length mask ≡ 4 → mask_bytes mask bytes ≡ unmask mask 0 bytes
mask_bytes-unmask [] bytes h = absurd (omega (arith, h))
mask_bytes-unmask (a ∷ []) bytes h = absurd (omega (arith, h))
mask_bytes-unmask (a ∷ b ∷ []) bytes h = absurd (omega (arith, h))
mask_bytes-unmask (a ∷ b ∷ c ∷ []) bytes h = absurd (omega (arith, h))
mask_bytes-unmask (a ∷ b ∷ c ∷ d ∷ []) bytes h = sym ((unmask-turns a b c d bytes 0).0 refl)
mask_bytes-unmask (a ∷ b ∷ c ∷ d ∷ e ∷ rest) bytes h = absurd (omega (arith, h))
