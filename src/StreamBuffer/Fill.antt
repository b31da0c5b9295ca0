-- ===== src/StreamBuffer/Fill.antt =====
-- Counting bytes of the room as data.
use bb_eventloop.Common.{
  ℕ, ◌+◌, ◌≡◌, refl, ap₂, ◌∙◌, sym, List, ◌++◌, map-append, length, take, drop, take-add,
  take-append-drop, drop-drop,
}
use bb_eventloop.StreamBuffer.Memory.{
  Memory, write_cells, Apart, Distinct, map-read-write_cells, map-read-write_cells_self,
}
use bb_eventloop.StreamBuffer.Disjoint.{
  Distinct-append_right, Distinct-append_left, Apart-append_right, Apart-append_left, append-Apart,
  Distinct-Apart,
}
use bb_eventloop.StreamBuffer.Defs.{StreamBuffer}
use bb_eventloop.StreamBuffer.Cells.{cells, used_cells, free_cells, contents, IsExclusive}

-- The stream buffer with `k` bytes of its room counted as data.
abbrev pub fill : StreamBuffer → ℕ → StreamBuffer
fill sb k = record sb { used_size = sb.used_size + k }

pub used-fill :
    (sb : StreamBuffer) (k : ℕ) → used_cells (fill sb k) ≡ used_cells sb ++ take k (free_cells sb)
used-fill sb k = take-add k sb.used_size (sb.used_size + k) (cells sb.buffers) refl

pub free-fill : (sb : StreamBuffer) (k : ℕ) → free_cells (fill sb k) ≡ drop k (free_cells sb)
free-fill sb k = sym (drop-drop k sb.used_size (sb.used_size + k) (cells sb.buffers) refl)

module _ (m : Memory) (sb : StreamBuffer) (k : ℕ) (x : IsExclusive sb) where
  first_room : Distinct (take k (free_cells sb) ++ drop k (free_cells sb))
  first_room = rw (take-append-drop k (free_cells sb)) x.distinct

  Apart-room : Apart (used_cells sb) (take k (free_cells sb) ++ drop k (free_cells sb))
  Apart-room = rw (take-append-drop k (free_cells sb)) x.apart

  pub fill-IsExclusive : IsExclusive (fill sb k)
  fill-IsExclusive =
      let t = take k (free_cells sb) in
      let d = drop k (free_cells sb) in
      record {
        distinct = rw (free-fill sb k) (Distinct-append_right t d first_room);
        apart =
            rw (free-fill sb k, used-fill sb k)
              (append-Apart (used_cells sb) t d (Apart-append_right (used_cells sb) t d Apart-room)
                (Distinct-Apart t d first_room));
      }

  -- Bytes written to the room and then counted come behind the data.
  pub contents-fill :
      (xs : List ℕ)
      → length xs ≡ k
      → length (take k (free_cells sb)) ≡ k
      → contents (write_cells m (take k (free_cells sb)) xs) (fill sb k) ≡ contents m sb ++ xs
  contents-fill xs e f =
      let t = take k (free_cells sb) in
      let d = drop k (free_cells sb) in
      rw (used-fill sb k, map-append)
        (ap₂ ◌++◌
          (map-read-write_cells m t (used_cells sb) xs
            (Apart-append_left (used_cells sb) t d Apart-room))
          (map-read-write_cells_self m t xs (Distinct-append_left t d first_room) (f ∙ sym e)))
