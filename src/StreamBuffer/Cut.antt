-- ===== src/StreamBuffer/Cut.antt =====
-- `cutHead` and `spliceHead`: taking data away at the front.
use bb_eventloop.Common.{
  ℕ, ◌+◌, ◌-◌, ◌≤◌, ◌≡◌, min, refl, ap, ◌∙◌, sym, inl, inr, List, [], ◌∷◌, ◌++◌, map, arith, ltb,
  leb, ◌==◌, Bool-cases, if◌then◌else◌, false, take-nil, take, drop, take-drop, take-take, drop-all,
  drop-drop, map-drop, map-take, length-map, length-take, returns, append-nil,
}
use bb_eventloop.StreamBuffer.Memory.{Memory, Addr, read}
use bb_eventloop.StreamBuffer.Defs.{
  Buffer, StreamBuffer, rest_of, head_of, cut_loop, cut_head, splice_loop, splice_head, shrink,
}
use bb_eventloop.StreamBuffer.Cells.{
  cells, cells_of, sizes, used_cells, free_cells, contents, Owned, IsValid, drop-cells, take-cells,
  drop-cells_ge, take-cells_ge,
}

-- What the loop of cutHead leaves.
record IsCut (bs : List Buffer) (n : ℕ) (rest : List Buffer) : Type 0 where
  cells_eq : cells rest ≡ drop n (cells bs)
  sizes_eq : sizes rest + n ≡ sizes bs
  keeps : (m : Memory) → Owned m bs → Owned m rest

cut_loop_lem :
    (bs : List Buffer) (n : ℕ)
    → n ≤ sizes bs
    → (rest : List Buffer) × (cut_loop bs n ≡ returns rest) × IsCut bs n rest
unfolding cut_loop
cut_loop_lem [] n h = (
  [],
  ground arith,
  record {
    cells_eq = sym (drop-all n [] (omega arith));
    sizes_eq = omega arith;
    keeps = λ m o. tt;
  },
)
cut_loop_lem (b ∷ bs) n h = elim (Bool-cases (n == 0)) [
  | inl e ↦ (
    b ∷ bs,
    rw e,
    let e' : n ≡ 0 = ground arith in
        record {
          cells_eq = ap (λ k. drop k (cells (b ∷ bs))) (sym e');
          sizes_eq = omega arith;
          keeps = λ m o. o;
        },
  )
  | inr e ↦ elim (Bool-cases (leb b.size n)) [
    | inl f ↦
        let (rest, found, c) = cut_loop_lem bs (n - b.size) (ground arith) in
        (
          rest,
          rw (e, f, found),
          record {
            cells_eq = c.cells_eq ∙ sym (drop-cells_ge b bs n (ground arith));
            sizes_eq = ground (arith, c.sizes_eq);
            keeps = λ m o. c.keeps m o.2;
          },
        )
    | inr f ↦ (
      rest_of b n ∷ bs,
      rw (e, f),
      record {
        cells_eq = sym (drop-cells b bs n (ground arith));
        sizes_eq = ground arith;
        keeps = λ m o. (o.0, ground (arith, o.1), o.2);
      },
    )
  ]
]

record IsSpliced (bs : List Buffer) (n : ℕ) (taken : List Buffer) : Type 0 where
  cells_eq : cells taken ≡ take n (cells bs)
  sizes_eq : sizes taken ≡ n
  keeps : (m : Memory) → Owned m bs → Owned m taken

splice_loop_lem :
    (bs : List Buffer) (n : ℕ)
    → n ≤ sizes bs
    → (taken rest : List Buffer) × (splice_loop bs n ≡ returns (taken, rest))
      × IsSpliced bs n taken
      × IsCut bs n rest
unfolding splice_loop
splice_loop_lem [] n h = (
  [],
  [],
  ground arith,
  record { cells_eq = sym (take-nil n); sizes_eq = omega arith; keeps = λ m o. tt },
  record {
    cells_eq = sym (drop-all n [] (omega arith));
    sizes_eq = omega arith;
    keeps = λ m o. tt;
  },
)
splice_loop_lem (b ∷ bs) n h = elim (Bool-cases (n == 0)) [
  | inl e ↦
      let e' : n ≡ 0 = ground arith in
      (
        [],
        b ∷ bs,
        rw e,
        record {
          cells_eq = ap (λ k. take k (cells (b ∷ bs))) (sym e');
          sizes_eq = omega arith;
          keeps = λ m o. tt;
        },
        record {
          cells_eq = ap (λ k. drop k (cells (b ∷ bs))) (sym e');
          sizes_eq = omega arith;
          keeps = λ m o. o;
        },
      )
  | inr e ↦ elim (Bool-cases (leb b.size n)) [
    | inl f ↦
        let (taken, rest, found, t, c) = splice_loop_lem bs (n - b.size) (ground arith) in
        (
          b ∷ taken,
          rest,
          rw (e, f, found),
          record {
            cells_eq =
                ap (◌++◌ (cells_of b)) t.cells_eq ∙ sym (take-cells_ge b bs n (ground arith));
            sizes_eq = ground (arith, t.sizes_eq);
            keeps = λ m o. (o.0, o.1, t.keeps m o.2);
          },
          record {
            cells_eq = c.cells_eq ∙ sym (drop-cells_ge b bs n (ground arith));
            sizes_eq = ground (arith, c.sizes_eq);
            keeps = λ m o. c.keeps m o.2;
          },
        )
    | inr f ↦ (
      head_of b n ∷ [],
      rest_of b n ∷ bs,
      rw (e, f),
      record {
        cells_eq = append-nil (cells_of (head_of b n)) ∙ sym (take-cells b bs n (ground arith));
        sizes_eq = omega arith;
        keeps = λ m o. (o.0, ground (arith, o.1), tt);
      },
      record {
        cells_eq = sym (drop-cells b bs n (ground arith));
        sizes_eq = ground arith;
        keeps = λ m o. (o.0, ground (arith, o.1), o.2);
      },
    )
  ]
]

-- How the data and the free room move when the first `n` addresses go.
module _ (m : Memory) (cs : List Addr) (used n : ℕ) where
  data-cut : map (read m) (take (used - n) (drop n cs)) ≡ drop n (map (read m) (take used cs))
  data-cut = elim (Bool-cases (leb n used)) [
    | inl e ↦
        ap (map (read m)) (take-drop (used - n) n used cs (ground arith))
        ∙ map-drop (read m) n (take used cs)
    | inr e ↦
        let z : used - n ≡ 0 = ground arith in
        rw z (
          sym (
            drop-all n (map (read m) (take used cs))
              (ground (arith, length-map (read m) (take used cs), length-take used cs))))
  ]

  room-cut : drop (used - n) (drop n cs) ≡ drop (n - used) (drop used cs)
  room-cut =
      drop-drop (used - n) n (n + (used - n)) cs refl
      ∙ sym (drop-drop (n - used) used (n + (used - n)) cs (omega arith))

-- What is left when the first `size` bytes are gone from the front.
pub record IsHeadless (m : Memory) (sb : StreamBuffer) (size : ℕ) (rest : StreamBuffer)
    : Type 0 where
  pub data_left : contents m rest ≡ drop size (contents m sb)
  pub room_left : free_cells rest ≡ drop (size - sb.used_size) (free_cells sb)
  pub used_left : rest.used_size ≡ sb.used_size - size
  pub total_left : rest.total_size ≡ sb.total_size - size
  pub valid : IsValid m rest

shrink-IsHeadless :
    (m : Memory) (sb : StreamBuffer) (size : ℕ) (bs : List Buffer)
    → IsValid m sb
    → size ≤ sb.total_size
    → IsCut sb.buffers size bs
    → IsHeadless m sb size (record (shrink sb size) { buffers = bs })
unfolding shrink
shrink-IsHeadless m sb size bs v h c =
    let u : (if leb size sb.used_size then sb.used_size - size else 0) ≡ sb.used_size - size =
      ground arith in
    record {
      data_left = rw (u, c.cells_eq) (data-cut m (cells sb.buffers) sb.used_size size);
      room_left = rw (u, c.cells_eq) (room-cut m (cells sb.buffers) sb.used_size size);
      used_left = u;
      total_left = refl;
      valid = record {
        total = omega (arith, v.total, c.sizes_eq);
        used = omega (arith, v.used, u);
        small = omega (arith, v.small);
        owned = c.keeps m v.owned;
      };
    }

-- cutHead(size) returns whenever the stream buffer has `size` bytes in all. The data loses its first
-- `size` bytes, the room behind the data is cut only by what the data does not cover, and the
-- state stays valid.
pub cut_head_lem :
    (m : Memory) (sb : StreamBuffer) (size : ℕ)
    → IsValid m sb
    → size ≤ sb.total_size
    → (sb' : StreamBuffer) × (cut_head sb size ≡ returns sb') × IsHeadless m sb size sb'
unfolding cut_head
cut_head_lem m sb size v h =
    let (bs, found, c) = cut_loop_lem sb.buffers size (omega (arith, v.total)) in
    let small : ltb sb.total_size size ≡ false = ground arith in
    (
      record (shrink sb size) { buffers = bs },
      rw (small, found),
      shrink-IsHeadless m sb size bs v h c,
    )

-- spliceHead(size) returns whenever the stream buffer has `size` bytes in all. The new object holds
-- the first `size` bytes of the data and has `size` bytes in all, and what stays is as after cutHead.
pub splice_head_lem :
    (m : Memory) (sb : StreamBuffer) (size : ℕ)
    → IsValid m sb
    → size ≤ sb.total_size
    → (taken rest : StreamBuffer) × (splice_head sb size ≡ returns (taken, rest))
      × (contents m taken ≡ take size (contents m sb))
      × (taken.total_size ≡ size)
      × IsValid m taken
      × IsHeadless m sb size rest
unfolding splice_head
splice_head_lem m sb size v h =
    let (ts, rs, found, t, c) = splice_loop_lem sb.buffers size (omega (arith, v.total)) in
    let small : ltb sb.total_size size ≡ false = ground arith in
    let u = min size sb.used_size in
    (
      record { buffers = ts; used_size = u; total_size = size },
      record (shrink sb size) { buffers = rs },
      rw (small, found),
      rw t.cells_eq (
          ap (map (read m)) (
            take-take u size u (cells sb.buffers) (omega arith)
            ∙ sym (take-take size sb.used_size u (cells sb.buffers) refl))
          ∙ map-take (read m) size (used_cells sb)),
      refl,
      record {
        total = sym t.sizes_eq;
        used = omega arith;
        small = omega (arith, v.small);
        owned = t.keeps m v.owned;
      },
      shrink-IsHeadless m sb size rs v h c,
    )
