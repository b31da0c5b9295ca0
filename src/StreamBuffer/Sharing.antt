-- ===== src/StreamBuffer/Sharing.antt =====
-- The copy constructor and `operator =` of StreamBuffer copy the list of buffers, and so share the room
-- behind the data. (A copy is the same `StreamBuffer` value: it differs in its iovec array alone.)
use bb_eventloop.Common.{
  ℕ, ◌+◌, ◌≤◌, ◌<◌, ◌≡◌, inl, refl, ap, ◌∙◌, List, ◌++◌, arith, length, take, drop, length-take,
  length-drop, take-append-drop, returns, size_mod,
}
use bb_eventloop.StreamBuffer.Memory.{Memory, write_cells, map-read-write_cells}
use bb_eventloop.StreamBuffer.Disjoint.{Apart-append_left}
use bb_eventloop.StreamBuffer.Defs.{StreamBuffer, allocate, append_data}
use bb_eventloop.StreamBuffer.Cells.{
  cells, used_cells, free_cells, contents, IsValid, IsExclusive, length-cells,
}
use bb_eventloop.StreamBuffer.Allocate.{get_free_size_lem, Grows-Owned}
use bb_eventloop.StreamBuffer.Fill.{fill, contents-fill}
use bb_eventloop.StreamBuffer.Append.{write_cells-Grows, append_data-eq}

allocate-eq :
    (m : Memory) (sb : StreamBuffer) (k : ℕ)
    → IsValid m sb
    → sb.used_size + k ≤ sb.total_size
    → allocate m sb k ≡ (m, sb)
unfolding allocate
allocate-eq m sb k v h = ground (arith, get_free_size_lem m sb v)

-- Where there is room enough, appendData allocates nothing.
append_data_room :
    (m : Memory) (sb : StreamBuffer) (xs : List ℕ)
    → IsValid m sb
    → sb.total_size + length xs + 7 < size_mod
    → 0 < length xs
    → sb.used_size + length xs ≤ sb.total_size
    → append_data m sb xs
      ≡ returns (write_cells m (take (length xs) (free_cells sb)) xs, fill sb (length xs))
append_data_room m sb xs v small some room =
    append_data-eq m sb xs v small (inl some)
    ∙ ap
        (λ (r : Memory × StreamBuffer).
          returns (write_cells r.0 (take (length xs) (free_cells r.1)) xs, fill r.1 (length xs)))
        (allocate-eq m sb (length xs) v room)

-- A copy of a stream buffer shares its room. Where the room suffices for both, appending `xs` to a
-- valid stream buffer with its room its own, and then as many bytes `ys` to a copy of it, leaves the
-- first one with `ys` behind its old data, and not with `xs`.
pub append_data-copy :
    (m : Memory) (sb : StreamBuffer) (xs ys : List ℕ)
    → IsValid m sb
    → IsExclusive sb
    → sb.total_size + length xs + 7 < size_mod
    → 0 < length xs
    → length ys ≡ length xs
    → sb.used_size + length xs ≤ sb.total_size
    → (m₁ : Memory) × (m₂ : Memory) × (first : StreamBuffer) × (second : StreamBuffer)
      × (append_data m sb xs ≡ returns (m₁, first))
      × (append_data m₁ sb ys ≡ returns (m₂, second))
      × (contents m₁ first ≡ contents m sb ++ xs)
      × (contents m₂ first ≡ contents m sb ++ ys)
append_data-copy m sb xs ys v x small some e room =
    let n = length xs in
    let ps = take n (free_cells sb) in
    let m₁ = write_cells m ps xs in
    let v₁ : IsValid m₁ sb = record {
      total = v.total;
      used = v.used;
      small = v.small;
      owned = Grows-Owned sb.buffers (write_cells-Grows m ps xs) v.owned;
    } in
    let there : length ps ≡ n = omega (
      arith,
      length-take n (free_cells sb),
      length-drop sb.used_size (cells sb.buffers),
      length-cells sb.buffers,
      v.total,
    ) in
    let second = append_data_room m₁ sb ys v₁ (omega arith) (omega arith) (omega arith) in
    (
      m₁,
      write_cells m₁ ps ys,
      fill sb n,
      fill sb n,
      append_data_room m sb xs v small some room,
      second ∙ ap (λ (k : ℕ). returns (write_cells m₁ (take k (free_cells sb)) ys, fill sb k)) e,
      contents-fill m sb n x xs refl there,
      contents-fill m₁ sb n x ys e there
          ∙ ap (λ c. c ++ ys)
              (map-read-write_cells m ps (used_cells sb) xs (
                Apart-append_left (used_cells sb) ps (drop n (free_cells sb))
                  (rw take-append-drop x.apart))),
    )
