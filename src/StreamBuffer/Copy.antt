-- ===== src/StreamBuffer/Copy.antt =====
-- The copies of `appendData`: together they write along the addresses of the room.
use bb_eventloop.Common.{
  ℕ, ◌-◌, ◌≤◌, ◌≡◌, min, refl, ap, ◌∙◌, inl, inr, List, [], ◌∷◌, ◌++◌, arith, length, take, drop,
  length-take, length-drop, append-nil, returns, Bool-cases, leb,
}
use bb_eventloop.StreamBuffer.Memory.{
  Memory, span, length-span, copy_to, write_cells, copy_to-eq-write_cells, write_cells-append,
}
use bb_eventloop.StreamBuffer.Defs.{Buffer, Location, rest_of, copy_loop, copy_at}
use bb_eventloop.StreamBuffer.Cells.{cells, sizes, drop-cells, take-cells, take-cells_ge}

-- The first `k` addresses of a list of buffers, by the part that lies in the first buffer.
pub take-cells-min :
    (b : Buffer) (bs : List Buffer) (k n : ℕ)
    → n ≡ min b.size k
    → take k (cells (b ∷ bs)) ≡ span b.base b.offset n ++ take (k - n) (cells bs)
take-cells-min b bs k n e = elim (Bool-cases (leb b.size k)) [
  | inl f ↦ let n' : n ≡ b.size = ground arith in rw n' (take-cells_ge b bs k (ground arith))
  | inr f ↦
      let n' : n ≡ k = ground arith in
      let z : k - k ≡ 0 = omega arith in rw (n', z, append-nil) (take-cells b bs k (ground arith))
]

-- One memcpy, followed by those into the buffers behind, is one write along the addresses.
copy_step :
    (m : Memory) (b : Buffer) (bs : List Buffer) (xs : List ℕ) (n : ℕ)
    → n ≡ min b.size (length xs)
    → write_cells
        (copy_to m b.base b.offset (take n xs))
        (take (length xs - n) (cells bs))
        (drop n xs)
      ≡ write_cells m (take (length xs) (cells (b ∷ bs))) xs
copy_step m b bs xs n e =
    let k : length (take n xs) ≡ n = omega (arith, length-take n xs) in
    rw (
      take-cells-min b bs (length xs) n e,
      write_cells-append,
      length-span,
      copy_to-eq-write_cells,
      k,
    )

copy_rest :
    (m : Memory) (b : Buffer) (bs : List Buffer) (xs : List ℕ)
    → let n = min b.size (length xs) in
      let m' = copy_to m b.base b.offset (take n xs) in
      copy_loop m' bs (drop n xs)
        ≡ returns (write_cells m' (take (length (drop n xs)) (cells bs)) (drop n xs))
      → copy_loop m' bs (drop n xs) ≡ returns (write_cells m (take (length xs) (cells (b ∷ bs))) xs)
copy_rest m b bs xs ih =
    let n = min b.size (length xs) in
    let m' = copy_to m b.base b.offset (take n xs) in
    ih
    ∙ ap returns (
        ap (λ j. write_cells m' (take j (cells bs)) (drop n xs)) (length-drop n xs)
        ∙ copy_step m b bs xs n refl)

copy_loop_lem :
    (m : Memory) (bs : List Buffer) (xs : List ℕ)
    → length xs ≤ sizes bs
    → copy_loop m bs xs ≡ returns (write_cells m (take (length xs) (cells bs)) xs)
unfolding copy_loop write_cells
copy_loop_lem m [] [] h = refl
copy_loop_lem m [] (x ∷ xs) h = absurd (omega arith)
copy_loop_lem m (b ∷ bs) [] h = refl
copy_loop_lem m (b ∷ bs) (x ∷ xs) h =
    let n = min b.size (length (x ∷ xs)) in
    copy_rest m b bs (x ∷ xs) (
      copy_loop_lem (copy_to m b.base b.offset (take n (x ∷ xs))) bs (drop n (x ∷ xs))
        (omega (arith, length-drop n (x ∷ xs))))

pub copy_at_lem :
    (m : Memory) (l : Location) (b : Buffer) (bs : List Buffer) (xs : List ℕ)
    → l.at ≡ b ∷ bs
    → l.offset ≤ b.size
    → length xs ≤ sizes (rest_of b l.offset ∷ bs)
    → copy_at m l xs ≡ returns (write_cells m (take (length xs) (drop l.offset (cells l.at))) xs)
unfolding copy_at
copy_at_lem m l b bs xs e fits h =
    let r = rest_of b l.offset in
    let n = min r.size (length xs) in
    rw (e, copy_at, drop-cells b bs l.offset fits)
      (copy_rest m r bs xs (
        copy_loop_lem (copy_to m r.base r.offset (take n xs)) bs (drop n xs)
          (omega (arith, length-drop n xs))))
