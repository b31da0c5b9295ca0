-- ===== src/Examples/Buffers.antt =====
-- Stream buffers of two and three buffers.
use bb_eventloop.Common.{
  ℕ, ◌+◌, ◌*◌, ◌≡◌, ◌≢◌, ◌⊎◌, ap, refl, inl, inr, ◌≤◌, List, length, [], ◌∷◌, ◌++◌, map, take, drop,
  arith, returns,
}
use bb_eventloop.StreamBuffer.Memory.{Memory, Addr, read, bytes_at, span, Apart}
use bb_eventloop.StreamBuffer.Defs.{Buffer, StreamBuffer, append_data, cut_head, splice_head}
use bb_eventloop.StreamBuffer.Arrays.{linearize, get_const_array}
use bb_eventloop.StreamBuffer.Cells.{cells, used_cells, free_cells, contents, IsValid, IsExclusive}
use bb_eventloop.StreamBuffer.Cut.{IsHeadless, cut_head_lem, splice_head_lem}
use bb_eventloop.StreamBuffer.Vectors.{IoVec, get_used_iovec, get_free_iovec}
use bb_eventloop.StreamBuffer.Ranges.{covered, iovec_lem}
use bb_eventloop.StreamBuffer.Append.{IsAppended, append_data_lem}
use bb_eventloop.StreamBuffer.Sharing.{append_data-copy}
use bb_eventloop.StreamBuffer.Gather.{unpopped}
use bb_eventloop.StreamBuffer.Linearize.{IsSame, linearize_loses, get_const_array_lem}

abbrev heap : Memory
heap = record { next = 3; extent = λ b. 8; cell = λ b o. 10 * b + o }

abbrev first : Buffer
first = record { base = 0; offset = 0; size = 2 }

abbrev second : Buffer
second = record { base = 1; offset = 4; size = 3 }

abbrev two : StreamBuffer
two = record { buffers = first ∷ second ∷ []; used_size = 3; total_size = 5 }

two-IsValid : IsValid heap two
two-IsValid = record {
  total = refl;
  used = omega arith;
  small = omega arith;
  owned = (omega arith, omega arith, (omega arith, omega arith, tt));
}

abbrev addr : ℕ → ℕ → Addr
addr b o = (b, o)

addr_ne : (b b' o o' : ℕ) → (b ≢ b') ⊎ (o ≢ o') → addr b o ≢ addr b' o'
addr_ne b b' o o' (inl h) e = h (ap (λ (p : Addr). p.0) e)
addr_ne b b' o o' (inr h) e = h (ap (λ (p : Addr). p.1) e)

block_ne : {b b' o o' : ℕ} → b ≢ b' → addr b o ≢ addr b' o'
block_ne {b} {b'} {o} {o'} h = addr_ne b b' o o' (inl h)

byte_ne : {b b' o o' : ℕ} → o ≢ o' → addr b o ≢ addr b' o'
byte_ne {b} {b'} {o} {o'} h = addr_ne b b' o o' (inr h)

two-IsExclusive : IsExclusive two
unfolding span
two-IsExclusive = record {
  distinct = ((byte_ne (λ e. omega (arith, e)), tt), (tt, tt));
  apart = (
    (byte_ne (λ e. omega (arith, e)), (byte_ne (λ e. omega (arith, e)), tt)),
    (
      (byte_ne (λ e. omega (arith, e)), (byte_ne (λ e. omega (arith, e)), tt)),
      ((byte_ne (λ e. omega (arith, e)), (byte_ne (λ e. omega (arith, e)), tt)), tt),
    ),
  );
}

outside : Apart (addr 2 0 ∷ []) (free_cells two)
unfolding span
outside = ((block_ne (λ e. omega (arith, e)), (block_ne (λ e. omega (arith, e)), tt)), tt)

cut_head_example : (sb' : StreamBuffer) × (cut_head two 3 ≡ returns sb') × IsHeadless heap two 3 sb'
cut_head_example = cut_head_lem heap two 3 two-IsValid (omega arith)

splice_head_example :
    (taken rest : StreamBuffer) × (splice_head two 4 ≡ returns (taken, rest))
    × (contents heap taken ≡ take 4 (contents heap two))
    × (taken.total_size ≡ 4)
    × IsValid heap taken
    × IsHeadless heap two 4 rest
splice_head_example = splice_head_lem heap two 4 two-IsValid (omega arith)

append_data_example :
    (m' : Memory) × (sb' : StreamBuffer) × (append_data heap two (7 ∷ 8 ∷ 9 ∷ [])
      ≡ returns (m', sb'))
    × IsAppended heap two (7 ∷ 8 ∷ 9 ∷ []) m' sb'
append_data_example =
    append_data_lem heap two (7 ∷ 8 ∷ 9 ∷ []) two-IsValid two-IsExclusive (omega arith)
      (inl (omega arith))

append_data-copy_example :
    (m₁ : Memory) × (m₂ : Memory) × (first : StreamBuffer) × (second : StreamBuffer) × (append_data
        heap two
        (7 ∷ [])
      ≡ returns (m₁, first))
    × (append_data m₁ two (8 ∷ []) ≡ returns (m₂, second))
    × (contents m₁ first ≡ contents heap two ++ 7 ∷ [])
    × (contents m₂ first ≡ contents heap two ++ 8 ∷ [])
append_data-copy_example =
    append_data-copy heap two (7 ∷ []) (8 ∷ []) two-IsValid two-IsExclusive (omega arith)
      (omega arith) refl (omega arith)

get_const_array_example :
    (m' : Memory) × (sb' : StreamBuffer) × (p : Addr) × (get_const_array heap two 1 2
      ≡ returns (m', sb', p))
    × (bytes_at m' p.0 p.1 2 ≡ take 2 (drop 1 (contents heap two)))
    × IsSame heap two m' sb'
get_const_array_example =
    get_const_array_lem heap two 1 2 two-IsValid two-IsExclusive (omega arith) (omega arith)
      (omega arith) refl

-- The same data, with another buffer of room behind it.
abbrev three : StreamBuffer
three = record {
  buffers = first ∷ second ∷ record { base = 2; offset = 0; size = 8 } ∷ [];
  used_size = 3;
  total_size = 13;
}

three-IsValid : IsValid heap three
three-IsValid = record {
  total = refl;
  used = omega arith;
  small = omega arith;
  owned = (omega arith, omega arith, (omega arith, omega arith, (omega arith, omega arith, tt)));
}

linearize_loses_example :
    (m' : Memory) × (sb' : StreamBuffer) × (linearize heap three ≡ returns (m', sb'))
    × (contents m' sb'
        ≡ take 3 (map (read heap) (cells (unpopped three.buffers 3)) ++ contents heap three))
    × ¬ IsValid m' sb'
linearize_loses_example =
    linearize_loses heap three first (second ∷ record { base = 2; offset = 0; size = 8 } ∷ [])
      three-IsValid (omega arith) refl (omega arith) refl (omega arith)

iovec_example :
    (used : List IoVec) × (free : List IoVec) × (get_used_iovec 1024 two ≡ returns used)
    × (get_free_iovec 1024 two ≡ returns free)
    × (covered used ≡ used_cells two)
    × (covered free ≡ free_cells two)
    × (length used ≤ length two.buffers)
    × (length free ≤ length two.buffers)
iovec_example = iovec_lem heap two 1024 two-IsValid (omega arith)
