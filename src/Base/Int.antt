-- ===== src/Base/Int.antt =====
-- Go's `int`: a signed 64-bit number, as an integer that wraps around where the code adds to it.
use Prim.Native.Nat.{ℕ, zero, suc, ◌+◌, ◌-◌, ◌*◌, ◌%◌, ◌<◌, ◌≤◌}
use mathlib.Core.Path.{◌≡◌, refl}
use mathlib.Core.Bool.{Bool, true, false, not}
use native.Mathlib.Omega.{arith}
use nukara.Base.Tests.{eqb, ltb, leb, if◌then◌else◌}

-- `negsuc n` is -(n + 1).
pub data ℤ : Type 0 where
  pos : ℕ → ℤ
  negsuc : ℕ → ℤ

-- `n <= 0`
abbrev pub is_nonpos : ℤ → Bool
is_nonpos (pos n) = eqb n 0
is_nonpos (negsuc n) = true

abbrev pub pos_part : ℤ → ℕ
pos_part (pos n) = n
pos_part (negsuc n) = 0

-- `if n <= 0 {n = d }`, for a default `d` that is positive.
abbrev pub positive_or : ℕ → ℤ → ℕ
positive_or d (pos n) = if eqb n 0 then d else n
positive_or d (negsuc n) = d

abbrev pub max_int : ℕ
max_int = 9223372036854775807

-- `n++` on an `int`
unfoldable pub inc : ℤ → ℤ
inc (pos n) = if eqb n max_int then negsuc max_int else pos (n + 1)
inc (negsuc zero) = pos 0
inc (negsuc (suc n)) = negsuc n

-- Without wrap-around: below the largest `int`, `n++` is the successor.
pub inc-pos : (n : ℕ) → n < max_int → inc (pos n) ≡ pos (n + 1)
unfolding inc
inc-pos n h = ground arith

pub positive_or-pos : (d : ℕ) (n : ℤ) → 0 < d → 0 < positive_or d n
positive_or-pos d (pos n) h = ground arith
positive_or-pos d (negsuc n) h = h

abbrev pub eqb_int : ℤ → ℤ → Bool
eqb_int (pos m) (pos n) = eqb m n
eqb_int (pos m) (negsuc n) = false
eqb_int (negsuc m) (pos n) = false
eqb_int (negsuc m) (negsuc n) = eqb m n

-- `a < b`
abbrev pub ltb_int : ℤ → ℤ → Bool
ltb_int (pos m) (pos n) = ltb m n
ltb_int (pos m) (negsuc n) = false
ltb_int (negsuc m) (pos n) = true
ltb_int (negsuc m) (negsuc n) = ltb n m

pub ltb_int-asymm : (a b : ℤ) → ltb_int a b ≡ true → ltb_int b a ≡ false
ltb_int-asymm (pos m) (pos n) h = ground arith
ltb_int-asymm (pos m) (negsuc n) h = ground arith
ltb_int-asymm (negsuc m) (pos n) h = refl
ltb_int-asymm (negsuc m) (negsuc n) h = ground arith

-- `a <= b`
abbrev pub leb_int : ℤ → ℤ → Bool
leb_int a b = not (ltb_int b a)

-- 2^64
abbrev pub word_size : ℕ
word_size = 18446744073709551616

-- The `int` of a 64-bit word.
abbrev pub signed : ℕ → ℤ
signed w = if leb w max_int then pos w else negsuc (word_size - 1 - w)

-- The word of an `int`.
abbrev pub word : ℤ → ℕ
word (pos n) = n % word_size
word (negsuc n) = word_size - 1 - n % word_size

-- `a * b` for a factor that is not negative, wrapped to 64 bits
unfoldable pub times : ℤ → ℕ → ℤ
times a b = signed (word a * b % word_size)

-- Without wrap-around it is the product.
pub times-pos : (a b : ℕ) → a * b ≤ max_int → a ≤ max_int → times (pos a) b ≡ pos (a * b)
unfolding times
times-pos a b h k = let e : a % word_size ≡ a = omega arith in rw e (go (a * b) h)
  where
    go : (p : ℕ) → p ≤ max_int → signed (p % word_size) ≡ pos p
    go p q = ground arith
