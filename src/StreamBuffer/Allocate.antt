-- ===== src/StreamBuffer/Allocate.antt =====
-- `allocate` makes room behind the data and touches nothing else.
use bb_eventloop.Common.{
  ℕ, ◌+◌, ◌-◌, ◌≤◌, ◌<◌, ◌≡◌, ◌%◌, refl, ap, ◌∙◌, sym, inl, inr, List, [], ◌∷◌, ◌++◌, arith, ltb,
  Bool-cases, length, append-nil, take-append_le, drop-append_le, add_size, add_size_lem,
  sub_size_lem, size_mod,
}
use bb_eventloop.StreamBuffer.Memory.{Memory, span, new_block}
use bb_eventloop.StreamBuffer.Disjoint.{
  Below, Below-append, Below-span, Below-take, Below-drop, Apart-append, Apart-span,
  Distinct-append, Distinct-span,
}
use bb_eventloop.StreamBuffer.Defs.{
  Buffer, StreamBuffer, align_up, new_buffer, get_free_size, push_new, allocate,
}
use bb_eventloop.StreamBuffer.Cells.{
  cells, cells_of, used_cells, free_cells, Owned, IsValid, IsExclusive, length-cells, cells-append,
  sizes-append, Owned-append,
}

-- A buffer is the next multiple of eight bytes long.
pub align_up_bounds :
    (n : ℕ) → n + 7 < size_mod → (n ≤ align_up n) × (align_up n ≤ n + 7) × (align_up n % 8 ≡ 0)
unfolding align_up
align_up_bounds n h = omega (arith, add_size_lem n 7)

pub get_free_size_lem :
    (m : Memory) (sb : StreamBuffer)
    → IsValid m sb
    → get_free_size sb ≡ sb.total_size - sb.used_size
unfolding get_free_size
get_free_size_lem m sb v = sub_size_lem sb.total_size sb.used_size v.used v.small

-- The heap has only grown.
pub record Grows (m m' : Memory) : Type 0 where
  pub blocks : m.next ≤ m'.next
  pub extents : (b : ℕ) → b < m.next → m'.extent b ≡ m.extent b

pub Grows-Owned : {m m' : Memory} (bs : List Buffer) → Grows m m' → Owned m bs → Owned m' bs
Grows-Owned [] g h = tt
Grows-Owned (b ∷ bs) g h =
    (omega (arith, h.0, g.blocks), omega (arith, h.1, g.extents b.base h.0), Grows-Owned bs g h.2)

pub new_block-Grows : (m : Memory) (n : ℕ) → Grows m (new_block m n)
new_block-Grows m n = record { blocks = omega arith; extents = λ b h. ground arith }

pub Owned-Below : (m : Memory) (bs : List Buffer) → Owned m bs → Below m.next (cells bs)
Owned-Below m [] h = tt
Owned-Below m (b ∷ bs) h =
    Below-append m.next (cells_of b) (cells bs) (Below-span m.next b.base b.offset b.size h.0)
      (Owned-Below m bs h.2)

-- What `allocate` and the operations that call it do to the room.
pub record IsRoomy (m : Memory) (sb : StreamBuffer) (size : ℕ) (m' : Memory) (sb' : StreamBuffer)
    : Type 0 where
  pub valid : IsValid m' sb'
  pub roomy : sb'.used_size + size ≤ sb'.total_size
  pub no_less : sb.total_size ≤ sb'.total_size
  pub same_used : sb'.used_size ≡ sb.used_size
  pub same_cells : used_cells sb' ≡ used_cells sb
  pub same_bytes : m'.cell ≡ m.cell
  pub grows : Grows m m'
  pub fresh : ℕ
  pub more_room : free_cells sb' ≡ free_cells sb ++ span m.next 0 fresh

module _ (m : Memory) (sb : StreamBuffer) (size : ℕ) (v : IsValid m sb) where
  room_there : sb.used_size + size ≤ sb.total_size → IsRoomy m sb size m sb
  unfolding span
  room_there h = record {
    valid = v;
    roomy = h;
    no_less = omega arith;
    same_used = refl;
    same_cells = refl;
    same_bytes = refl;
    grows = record { blocks = omega arith; extents = λ b k. refl };
    fresh = 0;
    more_room = sym (append-nil (free_cells sb));
  }

  pub push_new-IsRoomy :
      (n : ℕ)
      → sb.used_size + size ≤ sb.total_size + n
      → sb.total_size + n + 7 < size_mod
      → IsRoomy m sb size (push_new m sb n).0 (push_new m sb n).1
  unfolding push_new new_buffer
  push_new-IsRoomy n h k =
      let a = align_up n in
      let new : Buffer = record { base = m.next; offset = 0; size = a } in
      let bounds = align_up_bounds n (omega arith) in
      let t : add_size sb.total_size a ≡ sb.total_size + a =
        add_size_lem sb.total_size a (omega (arith, bounds)) in
      let inside : sb.used_size ≤ length (cells sb.buffers) =
        omega (arith, v.used, v.total, length-cells sb.buffers) in
      record {
        valid = record {
          total = omega (arith, t, v.total, sizes-append sb.buffers (new ∷ []));
          used = omega (arith, t, v.used);
          small = omega (arith, t, bounds);
          owned =
              Owned-append (new_block m a) sb.buffers (new ∷ [])
                (Grows-Owned sb.buffers (new_block-Grows m a) v.owned)
                (omega arith, ground arith, tt);
        };
        roomy = omega (arith, t, bounds);
        no_less = omega (arith, t);
        same_used = refl;
        same_cells =
            rw (cells-append sb.buffers (new ∷ []))
              (take-append_le sb.used_size (cells sb.buffers) _ inside);
        same_bytes = refl;
        grows = new_block-Grows m a;
        fresh = a;
        more_room = rw (cells-append sb.buffers (new ∷ [])) (
            drop-append_le sb.used_size (cells sb.buffers) _ inside
            ∙ ap (◌++◌ (free_cells sb)) (append-nil (span m.next 0 a)));
      }

  -- With `size` bytes more than there are below the limit of `size_t`, allocate(size) leaves room for
  -- `size` bytes behind the same data, in the old room followed by a block of its own.
  pub allocate-IsRoomy :
      sb.total_size + size + 7 < size_mod
      → IsRoomy m sb size (allocate m sb size).0 (allocate m sb size).1
  unfolding allocate
  allocate-IsRoomy k =
      let f = get_free_size_lem m sb v in
      elim (Bool-cases (ltb (get_free_size sb) size)) [
        | inl e ↦ rw e (
            push_new-IsRoomy (size - get_free_size sb) (ground (arith, f))
              (omega (arith, f, v.used)))
        | inr e ↦ rw e (room_there (ground (arith, f, v.used)))
      ]

-- The room stays exclusive to the data.
pub IsRoomy-IsExclusive :
    (m : Memory) (sb : StreamBuffer) (size : ℕ) {m' : Memory} {sb' : StreamBuffer}
    → IsValid m sb
    → IsExclusive sb
    → IsRoomy m sb size m' sb'
    → IsExclusive sb'
IsRoomy-IsExclusive m sb size {m'} {sb'} v x r =
    let below = Owned-Below m sb.buffers v.owned in
    let new = span m.next 0 r.fresh in
    record {
      distinct = rw r.more_room (
          Distinct-append (free_cells sb) new x.distinct (Distinct-span m.next 0 r.fresh) (
            Apart-span m.next 0 r.fresh (free_cells sb)
              (Below-drop m.next sb.used_size (cells sb.buffers) below)));
      apart =
          rw (r.more_room, r.same_cells)
            (Apart-append (used_cells sb) (free_cells sb) new x.apart (
              Apart-span m.next 0 r.fresh (used_cells sb)
                (Below-take m.next sb.used_size (cells sb.buffers) below)));
    }
