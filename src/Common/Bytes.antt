-- ===== src/Common/Bytes.antt =====
-- Memory as lists of bytes, and numbers in it as a little-endian machine stores them.
use Prim.Native.Nat.{ℕ, zero, suc, ◌+◌, ◌*◌, ◌/◌, ◌%◌, ◌<◌, ◌≤◌}
use mathlib.Core.Path.{◌≡◌, refl}
use mathlib.Core.List.{List, [], ◌∷◌, ◌++◌}
use native.Mathlib.Omega.{arith}
use bb_eventloop.Common.Lists.{length, take, drop, length-append, length-take, length-drop}

abbrev pub zeros : ℕ → List ℕ
zeros zero = []
zeros (suc n) = 0 ∷ zeros n

-- A 16-bit and a 32-bit number, as the machine stores them.
abbrev pub word : ℕ → List ℕ
word n = n % 256 ∷ n / 256 % 256 ∷ []

abbrev pub dword : ℕ → List ℕ
dword n = n % 256 ∷ n / 256 % 256 ∷ n / 65536 % 256 ∷ n / 16777216 % 256 ∷ []

abbrev pub byte_at : List ℕ → ℕ → ℕ
byte_at [] i = 0
byte_at (b ∷ bs) zero = b
byte_at (b ∷ bs) (suc i) = byte_at bs i

-- memcpy of `src` to the byte `offset`
abbrev pub put_at : ℕ → List ℕ → List ℕ → List ℕ
put_at offset src bs = take offset bs ++ (src ++ drop (offset + length src) bs)

-- A number in a given count of bytes, and the number that bytes stand for.
abbrev pub little : ℕ → ℕ → List ℕ
little zero n = []
little (suc count) n = n % 256 ∷ little count (n / 256)

abbrev pub number : List ℕ → ℕ
number [] = 0
number (b ∷ bs) = b + 256 * number bs

abbrev pub bytes_limit : ℕ → ℕ
bytes_limit zero = 1
bytes_limit (suc count) = 256 * bytes_limit count

pub number-little : (count n : ℕ) → n < bytes_limit count → number (little count n) ≡ n
number-little zero n h = omega arith
number-little (suc count) n h = omega (arith, number-little count (n / 256) (omega arith))

pub length-zeros : (n : ℕ) → length (zeros n) ≡ n
length-zeros zero = refl
length-zeros (suc n) = omega (arith, length-zeros n)

pub length-put_at :
    (offset : ℕ) (src bs : List ℕ)
    → offset + length src ≤ length bs
    → length (put_at offset src bs) ≡ length bs
length-put_at offset src bs h = omega (
  arith,
  length-append (take offset bs) (src ++ drop (offset + length src) bs),
  length-append src (drop (offset + length src) bs),
  length-take offset bs,
  length-drop (offset + length src) bs,
)
