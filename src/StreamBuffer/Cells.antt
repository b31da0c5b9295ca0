-- ===== src/StreamBuffer/Cells.antt =====
-- The bytes of a stream buffer as a list of addresses, and the well-formedness of the class's state.
use bb_eventloop.Common.{
  ℕ, ◌+◌, ◌-◌, ◌≤◌, ◌<◌, ◌≡◌, refl, ap, ◌∙◌, sym, List, [], ◌∷◌, ◌++◌, map, append_assoc, arith,
  length, take, drop, length-append, take-append_ge, take-append_le, drop-append_ge, take-all,
  size_mod,
}
use bb_eventloop.StreamBuffer.Memory.{
  Memory, Addr, read, span, length-span, span-add, Apart, Distinct,
}
use bb_eventloop.StreamBuffer.Defs.{Buffer, StreamBuffer, rest_of, head_of}

abbrev pub cells_of : Buffer → List Addr
cells_of b = span b.base b.offset b.size

-- The addresses that a list of buffers covers, in order.
abbrev pub cells : List Buffer → List Addr
cells [] = []
cells (b ∷ bs) = cells_of b ++ cells bs

abbrev pub sizes : List Buffer → ℕ
sizes [] = 0
sizes (b ∷ bs) = b.size + sizes bs

abbrev pub used_cells : StreamBuffer → List Addr
used_cells sb = take sb.used_size (cells sb.buffers)

abbrev pub free_cells : StreamBuffer → List Addr
free_cells sb = drop sb.used_size (cells sb.buffers)

-- The data that a stream buffer holds.
abbrev pub contents : Memory → StreamBuffer → List ℕ
contents m sb = map (read m) (used_cells sb)

-- Every buffer lies inside a block that is in use.
abbrev pub Owned : Memory → List Buffer → Type 0
Owned m [] = Unit {0}
Owned m (b ∷ bs) = (b.base < m.next) × (b.offset + b.size ≤ m.extent b.base) × Owned m bs

pub record IsValid (m : Memory) (sb : StreamBuffer) : Type 0 where
  pub total : sb.total_size ≡ sizes sb.buffers
  pub used : sb.used_size ≤ sb.total_size
  pub small : sb.total_size < size_mod
  pub owned : Owned m sb.buffers

-- A write to the free room changes neither the data nor another byte of the room.
pub record IsExclusive (sb : StreamBuffer) : Type 0 where
  pub distinct : Distinct (free_cells sb)
  pub apart : Apart (used_cells sb) (free_cells sb)

pub length-cells : (bs : List Buffer) → length (cells bs) ≡ sizes bs
length-cells [] = refl
length-cells (b ∷ bs) = omega (
  arith,
  length-append (cells_of b) (cells bs),
  length-span b.base b.offset b.size,
  length-cells bs,
)

pub cells-append : (bs cs : List Buffer) → cells (bs ++ cs) ≡ cells bs ++ cells cs
cells-append [] cs = refl
cells-append (b ∷ bs) cs =
    ap (◌++◌ (cells_of b)) (cells-append bs cs)
    ∙ sym (append_assoc (cells_of b) (cells bs) (cells cs))

pub sizes-append : (bs cs : List Buffer) → sizes (bs ++ cs) ≡ sizes bs + sizes cs
sizes-append [] cs = omega arith
sizes-append (b ∷ bs) cs = omega (arith, sizes-append bs cs)

pub Owned-append : (m : Memory) (bs cs : List Buffer) → Owned m bs → Owned m cs → Owned m (bs ++ cs)
Owned-append m [] cs h k = k
Owned-append m (b ∷ bs) cs h k = (h.0, h.1, Owned-append m bs cs h.2 k)

pub Owned-append_left : (m : Memory) (bs cs : List Buffer) → Owned m (bs ++ cs) → Owned m bs
Owned-append_left m [] cs h = tt
Owned-append_left m (b ∷ bs) cs h = (h.0, h.1, Owned-append_left m bs cs h.2)

pub Owned-append_right : (m : Memory) (bs cs : List Buffer) → Owned m (bs ++ cs) → Owned m cs
Owned-append_right m [] cs h = h
Owned-append_right m (b ∷ bs) cs h = Owned-append_right m bs cs h.2

-- Cutting a buffer in two cuts its addresses in two.
pub cells_of-split :
    (b : Buffer) (n : ℕ)
    → n ≤ b.size
    → cells_of b ≡ cells_of (head_of b n) ++ cells_of (rest_of b n)
cells_of-split b n h = span-add b.base b.offset n (b.size - n) b.size (omega arith)

pub length-head_of : (b : Buffer) (n : ℕ) → length (cells_of (head_of b n)) ≡ n
length-head_of b n = length-span b.base b.offset n

-- Dropping inside the first buffer.
pub drop-cells :
    (b : Buffer) (bs : List Buffer) (n : ℕ)
    → n ≤ b.size
    → drop n (cells (b ∷ bs)) ≡ cells (rest_of b n ∷ bs)
drop-cells b bs n h =
    rw (cells_of-split b n h, append_assoc (cells_of (head_of b n)))
      (drop-append_ge 0 n (cells_of (head_of b n)) _ (omega (arith, length-head_of b n)))

pub take-cells :
    (b : Buffer) (bs : List Buffer) (n : ℕ)
    → n ≤ b.size
    → take n (cells (b ∷ bs)) ≡ cells_of (head_of b n)
take-cells b bs n h =
    rw (cells_of-split b n h, append_assoc (cells_of (head_of b n)))
      (take-append_le n (cells_of (head_of b n)) _ (omega (arith, length-head_of b n))
        ∙ take-all n (cells_of (head_of b n)) (omega (arith, length-head_of b n)))

-- Dropping and taking at or behind the end of the first buffer.
pub drop-cells_ge :
    (b : Buffer) (bs : List Buffer) (n : ℕ)
    → b.size ≤ n
    → drop n (cells (b ∷ bs)) ≡ drop (n - b.size) (cells bs)
drop-cells_ge b bs n h =
    drop-append_ge (n - b.size) n (cells_of b) (cells bs)
      (omega (arith, length-span b.base b.offset b.size))

pub take-cells_ge :
    (b : Buffer) (bs : List Buffer) (n : ℕ)
    → b.size ≤ n
    → take n (cells (b ∷ bs)) ≡ cells_of b ++ take (n - b.size) (cells bs)
take-cells_ge b bs n h =
    take-append_ge (n - b.size) n (cells_of b) (cells bs)
      (omega (arith, length-span b.base b.offset b.size))
