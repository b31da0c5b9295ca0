-- ===== src/StreamBuffer/Append.antt =====
-- `appendData`: the data that it leaves.
use bb_eventloop.Common.{
  ℕ, ◌+◌, ◌≤◌, ◌<◌, ◌≡◌, ◌⊎◌, refl, ap, ◌∙◌, List, [], ◌∷◌, ◌++◌, map, arith, length, take, drop,
  length-take, length-drop, take-append-drop, returns, add_size_lem, size_mod, ltb, false,
}
use bb_eventloop.StreamBuffer.Memory.{
  Memory, Addr, read, write, span, write_cells, Apart, map-read-write_cells, map-read_same,
}
use bb_eventloop.StreamBuffer.Disjoint.{Apart-append_left, Below, Apart-span, Apart-append}
use bb_eventloop.StreamBuffer.Defs.{
  StreamBuffer, allocate, append_data, find_first_unused, increase_used,
}
use bb_eventloop.StreamBuffer.Cells.{
  cells, sizes, sizes-append, used_cells, free_cells, contents, IsValid, IsExclusive, length-cells,
}
use bb_eventloop.StreamBuffer.Locate.{pointed_lem, drop-located}
use bb_eventloop.StreamBuffer.Allocate.{
  IsRoomy, allocate-IsRoomy, IsRoomy-IsExclusive, Grows, Grows-Owned,
}
use bb_eventloop.StreamBuffer.Copy.{copy_at_lem}
use bb_eventloop.StreamBuffer.Fill.{fill, fill-IsExclusive, contents-fill}

-- What appending `xs` does.
pub record IsAppended (m : Memory) (sb : StreamBuffer) (xs : List ℕ) (m' : Memory)
    (sb' : StreamBuffer) : Type 0 where
  pub appended : contents m' sb' ≡ contents m sb ++ xs
  pub longer : sb'.used_size ≡ sb.used_size + length xs
  pub valid : IsValid m' sb'
  pub exclusive : IsExclusive sb'

increase_used_lem :
    (m : Memory) (sb : StreamBuffer) (k : ℕ)
    → IsValid m sb
    → sb.used_size + k ≤ sb.total_size
    → increase_used sb k ≡ returns (fill sb k)
unfolding increase_used
increase_used_lem m sb k v h =
    let a = add_size_lem sb.used_size k (omega (arith, v.small)) in
    let f : ltb sb.total_size (sb.used_size + k) ≡ false = ground arith in rw (a, f)

-- Writing to blocks leaves their sizes alone.
next-write_cells : (m : Memory) (ps : List Addr) (xs : List ℕ) → (write_cells m ps xs).next ≡ m.next
unfolding write_cells
next-write_cells m [] xs = refl
next-write_cells m (p ∷ ps) [] = refl
next-write_cells m (p ∷ ps) (x ∷ xs) = next-write_cells (write m p x) ps xs

extent-write_cells :
    (m : Memory) (ps : List Addr) (xs : List ℕ) → (write_cells m ps xs).extent ≡ m.extent
unfolding write_cells
extent-write_cells m [] xs = refl
extent-write_cells m (p ∷ ps) [] = refl
extent-write_cells m (p ∷ ps) (x ∷ xs) = extent-write_cells (write m p x) ps xs

pub write_cells-Grows : (m : Memory) (ps : List Addr) (xs : List ℕ) → Grows m (write_cells m ps xs)
write_cells-Grows m ps xs = record {
  blocks = omega (arith, next-write_cells m ps xs);
  extents = λ b h. ap (λ (f : ℕ → ℕ). f b) (extent-write_cells m ps xs);
}

module _ (m : Memory) (sb : StreamBuffer) (xs : List ℕ) {m₁ : Memory} {sb₁ : StreamBuffer}
    (v : IsValid m sb) (x : IsExclusive sb) (r : IsRoomy m sb (length xs) m₁ sb₁) where
  -- Filling room that has been made.
  pub roomy-IsAppended :
      IsAppended m sb xs
        (write_cells m₁ (take (length xs) (free_cells sb₁)) xs)
        (fill sb₁ (length xs))
  roomy-IsAppended =
      let k = length xs in
      let ps = take k (free_cells sb₁) in
      let x₁ = IsRoomy-IsExclusive m sb k v x r in
      let there : length ps ≡ k = omega (
        arith,
        length-take k (free_cells sb₁),
        length-drop sb₁.used_size (cells sb₁.buffers),
        length-cells sb₁.buffers,
        r.valid.total,
        r.roomy,
      ) in
      let new = span m.next 0 r.fresh in
      record {
        appended =
            contents-fill m₁ sb₁ k x₁ xs refl there
            ∙ ap (λ c. c ++ xs)
                (map-read_same m m₁ (used_cells sb₁) r.same_bytes ∙ ap (map (read m)) r.same_cells);
        longer = ap (λ j. j + k) r.same_used;
        valid = record {
          total = r.valid.total;
          used = r.roomy;
          small = r.valid.small;
          owned = Grows-Owned sb₁.buffers (write_cells-Grows m₁ ps xs) r.valid.owned;
        };
        exclusive = fill-IsExclusive m₁ sb₁ k x₁;
      }

-- The memory and the object that appendData leaves.
pub append_data-eq :
    (m : Memory) (sb : StreamBuffer) (xs : List ℕ)
    → IsValid m sb
    → sb.total_size + length xs + 7 < size_mod
    → (0 < length xs) ⊎ (sb.used_size < sb.total_size)
    → let (m₁, sb₁) = allocate m sb (length xs) in
      append_data m sb xs
      ≡ returns (write_cells m₁ (take (length xs) (free_cells sb₁)) xs, fill sb₁ (length xs))
unfolding append_data find_first_unused
append_data-eq m sb xs v small some_room =
    let k = length xs in
    let r = allocate-IsRoomy m sb k v small in
    let m₁ = (allocate m sb k).0 in
    let sb₁ = (allocate m sb k).1 in
    let room : sb₁.used_size < sb₁.total_size =
      omega (arith, some_room, r.roomy, r.no_less, r.same_used) in
    let (l, b, bs, found, at, e, fits) =
      pointed_lem sb₁.buffers sb₁.used_size (omega (arith, room, r.valid.total)) in
    let split : sizes sb₁.buffers ≡ sizes l.before + (b.size + sizes bs) =
      ap sizes at.split ∙ sizes-append l.before l.at ∙ ap (λ cs. sizes l.before + sizes cs) e in
    let copied =
      copy_at_lem m₁ l b bs xs e fits
        (omega (arith, fits, split, at.sum, r.roomy, r.valid.total)) in
    rw (found, copied, drop-located at, increase_used_lem m₁ sb₁ k r.valid r.roomy)

-- appendData(xs) returns, and the data is then the old data followed by `xs`, for a valid stream
-- buffer whose room is its own and whose sizes stay below the limit of `size_t`, and where there
-- is data to append or room. The result is valid again with its room its own.
pub append_data_lem :
    (m : Memory) (sb : StreamBuffer) (xs : List ℕ)
    → IsValid m sb
    → IsExclusive sb
    → sb.total_size + length xs + 7 < size_mod
    → (0 < length xs) ⊎ (sb.used_size < sb.total_size)
    → (m' : Memory) × (sb' : StreamBuffer) × (append_data m sb xs ≡ returns (m', sb'))
      × IsAppended m sb xs m' sb'
append_data_lem m sb xs v x small some_room = (
  _,
  _,
  append_data-eq m sb xs v small some_room,
  roomy-IsAppended m sb xs v x (allocate-IsRoomy m sb (length xs) v small),
)

-- appendData(xs), under the same conditions, changes no byte of a block in use that lies outside the
-- stream buffer's room: `ps` stands for the addresses of such bytes, such as another object's data.
pub append_data-elsewhere :
    (m : Memory) (sb : StreamBuffer) (xs : List ℕ) (ps : List Addr)
    → IsValid m sb
    → sb.total_size + length xs + 7 < size_mod
    → (0 < length xs) ⊎ (sb.used_size < sb.total_size)
    → Below m.next ps
    → Apart ps (free_cells sb)
    → (m' : Memory) × (sb' : StreamBuffer) × (append_data m sb xs ≡ returns (m', sb'))
      × (map (read m') ps ≡ map (read m) ps)
append_data-elsewhere m sb xs ps v small some_room below apart =
    let k = length xs in
    let m₁ = (allocate m sb k).0 in
    let room = free_cells (allocate m sb k).1 in
    let r = allocate-IsRoomy m sb k v small in
    let new = span m.next 0 r.fresh in
    (
      _,
      _,
      append_data-eq m sb xs v small some_room,
      map-read-write_cells m₁ (take k room) ps xs (
            Apart-append_left ps (take k room) (drop k room) (
              rw (take-append-drop k room, r.more_room)
                (Apart-append ps (free_cells sb) new apart (Apart-span m.next 0 r.fresh ps below))))
          ∙ map-read_same m m₁ ps r.same_bytes,
    )
