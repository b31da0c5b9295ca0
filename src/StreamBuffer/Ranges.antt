-- ===== src/StreamBuffer/Ranges.antt =====
-- The iovecs of a stream buffer cover its data and its room.
use bb_eventloop.Common.{
  ℕ, zero, suc, ◌+◌, ◌-◌, ◌≤◌, ◌<◌, ◌≡◌, refl, sym, ap, ◌∙◌, inl, inr, min, List, [], ◌∷◌, ◌++◌,
  append-nil, ◌==◌, Bool-cases, leb, arith, length, length-append, take, drop, returns,
}
use bb_eventloop.StreamBuffer.Memory.{Memory, Addr, span}
use bb_eventloop.StreamBuffer.Defs.{Buffer, StreamBuffer, find_first_unused}
use bb_eventloop.StreamBuffer.Cells.{
  cells, cells_of, sizes, used_cells, free_cells, IsValid, take-cells, take-cells_ge, drop-cells,
}
use bb_eventloop.StreamBuffer.Locate.{OffsetFits, find_location_lem, drop-located}
use bb_eventloop.StreamBuffer.Vectors.{
  IoVec, used_loop, get_used_iovec, free_loop, free_at, get_free_iovec,
}

-- The addresses that the entries stand for, in their order.
abbrev pub covered : List IoVec → List Addr
covered [] = []
covered (v ∷ vs) = span v.iov_base.0 v.iov_base.1 v.iov_len ++ covered vs

take_none : (xs : List Addr) (n : ℕ) → n ≡ 0 → take n xs ≡ []
take_none xs n e = ap (λ k. take k xs) e

used_loop_lem :
    (room left : ℕ) (bs : List Buffer)
    → left ≤ sizes bs
    → length bs ≤ room
    → (vs : List IoVec) × (used_loop room left bs ≡ returns vs)
      × (covered vs ≡ take left (cells bs))
      × (length vs ≤ length bs)
unfolding used_loop
used_loop_lem zero left [] h k = ([], refl, sym (take_none [] left (omega arith)), omega arith)
used_loop_lem zero left (b ∷ bs) h k = absurd (omega arith)
used_loop_lem (suc room) left [] h k =
    ([], ground arith, sym (take_none [] left (omega arith)), omega arith)
used_loop_lem (suc room) left (b ∷ bs) h k = elim (Bool-cases (left == 0)) [
  | inl e ↦ ([], rw e refl, sym (take_none (cells (b ∷ bs)) left (ground arith)), omega arith)
  | inr e ↦ elim (Bool-cases (leb b.size left)) [
    | inl q ↦
        let fits : b.size ≤ left = ground arith in
        let all : min b.size left ≡ b.size = omega (arith, fits) in
        let (vs, done, cover, few) =
          used_loop_lem room (left - min b.size left) bs (omega (arith, fits)) (omega arith) in
        (
          record { iov_base = (b.base, b.offset); iov_len = min b.size left } ∷ vs,
          rw (e, done) refl,
          ap (λ n. span b.base b.offset n ++ covered vs) all
              ∙ ap (◌++◌ (cells_of b)) (cover ∙ ap (λ n. take (left - n) (cells bs)) all)
              ∙ sym (take-cells_ge b bs left fits),
          omega (arith, few),
        )
    | inr q ↦
        let inside : left < b.size = ground arith in
        let all : min b.size left ≡ left = omega (arith, inside) in
        let (vs, done, cover, few) =
          used_loop_lem room (left - min b.size left) bs (omega (arith, inside)) (omega arith) in
        let none_left : left - min b.size left ≡ 0 = omega (arith, inside) in
        (
          record { iov_base = (b.base, b.offset); iov_len = min b.size left } ∷ vs,
          rw (e, done) refl,
          ap (λ n. span b.base b.offset n ++ covered vs) all
              ∙ ap (◌++◌ (span b.base b.offset left))
                  (cover ∙ take_none (cells bs) (left - min b.size left) none_left)
              ∙ append-nil (span b.base b.offset left)
              ∙ sym (take-cells b bs left (omega (arith, inside))),
          omega (arith, few),
        )
  ]
]

free_loop_lem :
    (room : ℕ) (bs : List Buffer)
    → length bs ≤ room
    → (covered (free_loop room bs) ≡ cells bs) × (length (free_loop room bs) ≡ length bs)
unfolding free_loop
free_loop_lem zero [] h = (refl, refl)
free_loop_lem zero (b ∷ bs) h = absurd (omega arith)
free_loop_lem (suc room) [] h = (refl, refl)
free_loop_lem (suc room) (b ∷ bs) h =
    let (cover, many) = free_loop_lem room bs (omega arith) in
    (ap (◌++◌ (cells_of b)) cover, ap suc many)

free_at_lem :
    (room offset : ℕ) (before at : List Buffer)
    → length at ≤ room
    → OffsetFits at offset
    → (covered (free_at room (record { before = before; at = at; offset = offset }))
        ≡ drop offset (cells at))
      × (length (free_at room (record { before = before; at = at; offset = offset })) ≡ length at)
unfolding free_at
free_at_lem room offset before [] h f = (sym (ap (λ n. drop n []) f), refl)
free_at_lem room offset before (b ∷ bs) h f =
    let (cover, many) = free_loop_lem (room - 1) bs (omega arith) in
    (
      ap (◌++◌ (span b.base (b.offset + offset) (b.size - offset))) cover
          ∙ sym (drop-cells b bs offset (omega (arith, f))),
      ap suc many,
    )

-- The iovecs of a valid stream buffer that has at most IOV_MAX buffers: those of getUsedIOVec cover the bytes of the
-- data, in their order, and those of getFreeIOVec the bytes of the room, in their order. Neither has
-- more entries than there are buffers, which is the size of the array.
pub iovec_lem :
    (m : Memory) (sb : StreamBuffer) (iov_max : ℕ)
    → IsValid m sb
    → length sb.buffers ≤ iov_max
    → (used : List IoVec) × (free : List IoVec) × (get_used_iovec iov_max sb ≡ returns used)
      × (get_free_iovec iov_max sb ≡ returns free)
      × (covered used ≡ used_cells sb)
      × (covered free ≡ free_cells sb)
      × (length used ≤ length sb.buffers)
      × (length free ≤ length sb.buffers)
unfolding get_used_iovec get_free_iovec find_first_unused
iovec_lem m sb iov_max v h =
    let enough : sb.used_size ≤ sizes sb.buffers = omega (arith, v.used, v.total) in
    let (used, done, cover, few) = used_loop_lem iov_max sb.used_size sb.buffers enough h in
    let (l, found, at) = find_location_lem sb.buffers sb.used_size enough in
    let parts = ap length at.split ∙ length-append l.before l.at in
    let (free, many) =
      free_at_lem iov_max l.offset l.before l.at (omega (arith, parts, h)) at.fits in
    (
      used,
      free_at iov_max l,
      done,
      rw found refl,
      cover,
      free ∙ sym (drop-located at),
      few,
      omega (arith, many, parts),
    )
