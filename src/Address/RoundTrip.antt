-- ===== src/Address/RoundTrip.antt =====
-- What operator << of SocketAddress prints of a Unix address, operator >> reads as the same address.
use bb_eventloop.Common.{
  zeros, ℕ, zero, suc, ◌+◌, ◌-◌, ◌<◌, ◌≤◌, ◌≡◌, ◌≢◌, refl, ap, ◌∙◌, List, [], ◌∷◌, ◌++◌, Bool, true,
  not, ◌&&◌, ◌==◌, length, drop, arith, some, returns,
}
use bb_eventloop.Address.Defs.{
  SocketAddress, create_unix, create_abstract_unix, get_family, unix_family, Resolver,
}
use bb_eventloop.Address.Pattern.{unix_tag, at_sign, strip}
use bb_eventloop.Address.Text.{
  Printer, until_nul, output_unix, output, is_space, until_space, read_word, input, extract,
}

-- A path that the text can carry: no NUL in it and no white space.
abbrev pub is_plain : List ℕ → Bool
is_plain [] = true
is_plain (c ∷ s) = (not (c == 0) && not (is_space c)) && is_plain s

drop-zeros : (k m n : ℕ) → n ≡ k + m → drop k (zeros n) ≡ zeros m
drop-zeros zero m n e = ap zeros (omega arith)
drop-zeros (suc k) m zero e = absurd (omega arith)
drop-zeros (suc k) m (suc n) e = drop-zeros k m n (omega arith)

until_nul-plain :
    (s rest : List ℕ) (n : ℕ) → is_plain s ≡ true → length s ≤ n → until_nul n (s ++ (0 ∷ rest)) ≡ s
unfolding until_nul
until_nul-plain [] rest zero h k = refl
until_nul-plain (c ∷ s) rest zero h k = absurd (omega arith)
until_nul-plain [] rest (suc n) h k = refl
until_nul-plain (c ∷ s) rest (suc n) h k = ground (arith, until_nul-plain s rest n)

until_space-plain : (s : List ℕ) → is_plain s ≡ true → until_space s ≡ s
unfolding until_space
until_space-plain [] h = refl
until_space-plain (c ∷ s) h = ground (arith, until_space-plain s)

-- A word that is read in whole, behind a beginning without white space.
read_word-unix : (s : List ℕ) → is_plain s ≡ true → read_word (unix_tag ++ s) ≡ unix_tag ++ s
unfolding read_word until_space
read_word-unix s h = ap (◌++◌ unix_tag) (until_space-plain s h)

-- The bytes behind a path that starts at the byte `k`.
drop-unix_family :
    (k : ℕ) (s : List ℕ)
    → k + length s < 110
    → drop (2 + k + length s) unix_family ≡ 0 ∷ zeros (109 - k - length s)
drop-unix_family k s h =
    ap (λ n. drop n unix_family) {x = 2 + k + length s} {y = suc (suc (k + length s))} (omega arith)
    ∙ drop-zeros (k + length s) (suc (109 - k - length s)) 110 (omega arith)

output_unix-path :
    (c : ℕ) (s rest : List ℕ)
    → is_plain (c ∷ s) ≡ true
    → output_unix (c ∷ s ++ (0 ∷ rest)) (length s + 2) ≡ unix_tag ++ (c ∷ s)
unfolding output_unix
output_unix-path c s rest h =
    ground (arith, until_nul-plain (c ∷ s) rest (length s + 2) h (omega arith))

output_unix-abstract :
    (c : ℕ) (s rest : List ℕ)
    → is_plain (c ∷ s) ≡ true
    → output_unix (0 ∷ c ∷ s ++ (0 ∷ rest)) (length s + 2) ≡ unix_tag ++ (at_sign ∷ c ∷ s)
unfolding output_unix until_nul
output_unix-abstract c s rest h =
    ground (arith, until_nul-plain (c ∷ s) rest (length s + 2 - 1) h (omega arith))

-- What the text of a Unix address is, by the bytes of its path.
output-unix :
    (p : Printer) (bytes : List ℕ) (size : ℕ)
    → 2 ≤ size
    → size < 18446744073709551616
    → output p (record { sa = 1 ∷ 0 ∷ bytes; used_size = size }) ≡ output_unix bytes (size - 2)
unfolding output get_family
output-unix p bytes size h k = ap (output_unix bytes) (omega arith)

-- The bytes of a Unix address of a path, and of one that begins with a NUL.
abbrev pub unix_address : List ℕ → SocketAddress
unix_address s = record {
  sa = 1 ∷ 0 ∷ (s ++ (0 ∷ zeros (109 - 0 - length s)));
  used_size = length s + 3;
}

abbrev pub abstract_address : List ℕ → SocketAddress
abstract_address s = record {
  sa = 1 ∷ 0 ∷ 0 ∷ (s ++ (0 ∷ zeros (109 - 1 - length s)));
  used_size = length s + 3;
}

pub create_unix_lem : (s : List ℕ) → length s < 108 → create_unix s ≡ returns (unix_address s)
unfolding create_unix
create_unix_lem s h = ground (arith, drop-unix_family 0 s (omega arith))

pub create_abstract_unix_lem :
    (s : List ℕ) → length s < 108 → create_abstract_unix s ≡ returns (abstract_address s)
unfolding create_abstract_unix
create_abstract_unix_lem s h = ground (arith, drop-unix_family 1 s (omega arith))

input-unix :
    (r : Resolver) (c : ℕ) (s : List ℕ)
    → c ≢ at_sign
    → length s + 1 < 108
    → input r (unix_tag ++ (c ∷ s)) ≡ returns (some (unix_address (c ∷ s)))
unfolding input strip
input-unix r c s n h = ground (arith, create_unix_lem (c ∷ s) (omega arith))

input-abstract :
    (r : Resolver) (s : List ℕ)
    → length s < 108
    → input r (unix_tag ++ (at_sign ∷ s)) ≡ returns (some (abstract_address s))
unfolding input strip
input-abstract r s h = ground (arith, create_abstract_unix_lem s h)

output-unix_address :
    (p : Printer) (c : ℕ) (s : List ℕ)
    → is_plain (c ∷ s) ≡ true
    → length s + 1 < 108
    → output p (unix_address (c ∷ s)) ≡ unix_tag ++ (c ∷ s)
output-unix_address p c s h k =
    let path = c ∷ s ++ (0 ∷ zeros (109 - 0 - length (c ∷ s))) in
    output-unix p path (length (c ∷ s) + 3) (omega arith) (omega arith)
    ∙ ap (output_unix path) (omega arith)
    ∙ output_unix-path c s _ h

output-abstract_address :
    (p : Printer) (c : ℕ) (s : List ℕ)
    → is_plain (c ∷ s) ≡ true
    → length s + 1 < 108
    → output p (abstract_address (c ∷ s)) ≡ unix_tag ++ (at_sign ∷ c ∷ s)
output-abstract_address p c s h k =
    let path = 0 ∷ c ∷ s ++ (0 ∷ zeros (109 - 1 - length (c ∷ s))) in
    output-unix p path (length (c ∷ s) + 3) (omega arith) (omega arith)
    ∙ ap (output_unix path) (omega arith)
    ∙ output_unix-abstract c s _ h

-- A path of at most 107 characters, without white space or a NUL, that is not empty and does not begin
-- with '@': createUnix makes an address of it, and operator >>, whatever the address held before, reads
-- what operator << prints of this address as the same address.
pub unix_roundtrip :
    (p : Printer) (r : Resolver) (before : SocketAddress) (c : ℕ) (s : List ℕ)
    → is_plain (c ∷ s) ≡ true
    → c ≢ at_sign
    → length s + 1 < 108
    → (a : SocketAddress) × (create_unix (c ∷ s) ≡ returns a)
      × (extract r (output p a) before ≡ returns (true, a))
unfolding extract
unix_roundtrip p r before c s h n k = (
  unix_address (c ∷ s),
  create_unix_lem (c ∷ s) (omega arith),
  rw (output-unix_address p c s h k, read_word-unix (c ∷ s) h, input-unix r c s n k),
)

-- A name of at most 107 characters, without white space or a NUL, that is not empty: createAbstractUnix
-- makes an address of it, and operator >>, whatever the address held before, reads what operator <<
-- prints of this address as the same address.
pub abstract_roundtrip :
    (p : Printer) (r : Resolver) (before : SocketAddress) (c : ℕ) (s : List ℕ)
    → is_plain (c ∷ s) ≡ true
    → length s + 1 < 108
    → (a : SocketAddress) × (create_abstract_unix (c ∷ s) ≡ returns a)
      × (extract r (output p a) before ≡ returns (true, a))
unfolding extract
abstract_roundtrip p r before c s h k = (
  abstract_address (c ∷ s),
  create_abstract_unix_lem (c ∷ s) (omega arith),
  rw (
    output-abstract_address p c s h k,
    read_word-unix (at_sign ∷ c ∷ s) h,
    input-abstract r (c ∷ s) (omega arith),
  ),
)
