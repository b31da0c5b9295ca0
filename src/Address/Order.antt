-- ===== src/Address/Order.antt =====
-- The operators == and < of SocketAddress are those of a total order, so that addresses can be keys.
use Prim.Native.Nat.{Ordering}
use Prim.Native.Nat.Ordering.{lt, eq, gt}
use bb_eventloop.Common.{
  ℕ, zero, suc, ◌≤◌, ◌≡◌, refl, ap, sym, ◌∙◌, List, [], ◌∷◌, Bool, true, false, arith, length, take,
}
use bb_eventloop.Address.Defs.{SocketAddress, sa_size, memcmp, is_eq, is_lt, equal, less}
use bb_eventloop.Address.Lexicographic.{lex, flip, lex-flip, lex_trans}

pub record IsValid (a : SocketAddress) : Type 0 where
  pub whole : length a.sa ≡ sa_size
  pub inside : a.used_size ≤ sa_size

-- What an address is compared by: its size, and then the bytes in use.
abbrev pub key : SocketAddress → List ℕ
key a = a.used_size ∷ take a.used_size a.sa

abbrev pub is_gt : Ordering → Bool
is_gt lt = false
is_gt eq = false
is_gt gt = true

memcmp-eq-lex :
    (n : ℕ) (xs ys : List ℕ)
    → n ≤ length xs
    → n ≤ length ys
    → memcmp n xs ys ≡ lex (take n xs) (take n ys)
unfolding memcmp
memcmp-eq-lex zero xs ys h k = refl
memcmp-eq-lex (suc n) [] ys h k = absurd (omega arith)
memcmp-eq-lex (suc n) (x ∷ xs) [] h k = absurd (omega arith)
memcmp-eq-lex (suc n) (x ∷ xs) (y ∷ ys) h k =
    ground (arith, memcmp-eq-lex n xs ys (omega arith) (omega arith))

less-eq-lex : (a b : SocketAddress) → IsValid a → IsValid b → less a b ≡ is_lt (lex (key a) (key b))
unfolding less
less-eq-lex a b v w =
    ground (arith, v.whole, v.inside, w.whole, w.inside, memcmp-eq-lex a.used_size a.sa b.sa)

is_lt-flip : (o : Ordering) → is_lt (flip o) ≡ is_gt o
is_lt-flip lt = refl
is_lt-flip eq = refl
is_lt-flip gt = refl

-- For addresses of the size of the union, with the used size in it: `a < b`, `a == b` and `b < a` are
-- the three outcomes of one comparison, the lexicographic one of the used sizes and of the bytes in
-- use, so that exactly one of them holds.
pub order_lem :
    (a b : SocketAddress)
    → IsValid a
    → IsValid b
    → (less a b ≡ is_lt (lex (key a) (key b)))
      × (equal a b ≡ is_eq (lex (key a) (key b)))
      × (less b a ≡ is_gt (lex (key a) (key b)))
unfolding equal
order_lem a b v w = (
  less-eq-lex a b v w,
  ground (arith, v.whole, v.inside, w.whole, w.inside, memcmp-eq-lex a.used_size a.sa b.sa),
  less-eq-lex b a w v ∙ ap is_lt (lex-flip (key a) (key b)) ∙ is_lt-flip (lex (key a) (key b)),
)

is_lt_iff : (o : Ordering) → is_lt o ≡ true → o ≡ lt
is_lt_iff lt h = refl
is_lt_iff eq h = cc
is_lt_iff gt h = cc

-- `<` is transitive on such addresses.
pub less_trans :
    (a b c : SocketAddress)
    → IsValid a
    → IsValid b
    → IsValid c
    → less a b ≡ true
    → less b c ≡ true
    → less a c ≡ true
less_trans a b c v w x h k =
    less-eq-lex a c v x
    ∙ ap is_lt (
        lex_trans (key a) (key b) (key c) (is_lt_iff _ (sym (less-eq-lex a b v w) ∙ h))
          (is_lt_iff _ (sym (less-eq-lex b c w x) ∙ k)))
