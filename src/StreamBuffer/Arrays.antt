-- ===== src/StreamBuffer/Arrays.antt =====
-- The operations of StreamBuffer that hand out one continuous array: `getMutableArray`, `linearize`,
-- `getConstArray` and `getData`. A pointer is an address. `new uint64_t[]` gives addresses that are
-- aligned for `uint64_t`, so a pointer's alignment is that of its offset in the block.
use bb_eventloop.Common.{
  ℕ, ◌+◌, ◌-◌, ◌%◌, min, List, [], ◌∷◌, ◌++◌, ltb, ◌==◌, if◌then◌else◌, ◌||◌, not, add_size,
  sub_size, overflow, Outcome, returns, throws, undefined, ◌>>=◌,
}
use bb_eventloop.StreamBuffer.Memory.{Memory, Addr, bytes_at, copy_to}
use bb_eventloop.StreamBuffer.Defs.{
  Buffer, StreamBuffer, Location, head_of, new_buffer, allocate, find_location, find_first_unused,
}

-- buffers.back()
unfoldable pub back : List Buffer → Outcome Buffer
back [] = undefined
back (b ∷ []) = returns b
back (b ∷ c ∷ bs) = back (c ∷ bs)

-- buffers.front()
unfoldable pub front : List Buffer → Outcome Buffer
front [] = undefined
front (b ∷ bs) = returns b

abbrev pub Reservation : Type 0
Reservation = Outcome (Memory × StreamBuffer × Addr)

-- getMutableArrayNoFreeBuffers
unfoldable pub reserve_no_free : Memory → StreamBuffer → ℕ → Reservation
reserve_no_free m sb size =
    let (m', sb') = allocate m sb size in
    do
      b ← back sb'.buffers
      returns (m', record sb' { used_size = add_size sb'.used_size size }, (b.base, b.offset))

-- getMutableArrayFirstUnusedBufferTooSmall, with `i` at `b`: a buffer that holds data is cut off
-- behind the data, and the new buffer comes behind it; an unused one stays, behind the new one.
unfoldable pub reserve_too_small :
    Memory → StreamBuffer → Location → Buffer → List Buffer → ℕ → Reservation
reserve_too_small m sb l b bs size =
    let (m', new) = new_buffer m size in
    let left = b.size - l.offset in
    let cut = not (l.offset == 0) in
    let total = if cut then sub_size sb.total_size left else sb.total_size in
    let buffers =
      if cut
      then l.before ++ (head_of b (b.size - left) ∷ new ∷ bs)
      else l.before ++ (new ∷ b ∷ bs) in
    returns (
      m',
      record {
        buffers = buffers;
        used_size = add_size sb.used_size size;
        total_size = add_size total new.size;
      },
      (new.base, new.offset),
    )

unfoldable pub reserve_at : Memory → StreamBuffer → Location → ℕ → Reservation
reserve_at m sb l size = elim l.at [
  | [] ↦ reserve_no_free m sb size
  | b ∷ bs ↦
      if ltb (b.size - l.offset) size
      then reserve_too_small m sb l b bs size
      else returns
          (m, record sb { used_size = add_size sb.used_size size }, (b.base, b.offset + l.offset))
]

-- getMutableArray
unfoldable pub get_mutable_array : Memory → StreamBuffer → ℕ → Reservation
get_mutable_array m sb size = do l ← find_first_unused sb; reserve_at m sb l size

-- The loop of forceLinearize: copies from the front to the pointer, and pops each buffer it has read.
unfoldable pub gather_loop : Memory → Addr → List Buffer → ℕ → Outcome (Memory × List Buffer)
gather_loop m p [] left = if left == 0 then returns (m, []) else undefined
gather_loop m p (b ∷ bs) left =
    let n = min left b.size in
    let further =
      gather_loop (copy_to m p.0 p.1 (bytes_at m b.base b.offset n)) (p.0, p.1 + n) bs (left - n) in
    if left == 0 then returns (m, b ∷ bs) else further

unfoldable pub force_linearize : Memory → StreamBuffer → Outcome (Memory × StreamBuffer)
force_linearize m sb =
    let (m', new) = new_buffer m sb.used_size in
    do
      (m'', bs) ← gather_loop m' (new.base, new.offset) (sb.buffers ++ new ∷ []) sb.used_size
      last ← back bs
      returns (m'', record { buffers = bs; used_size = sb.used_size; total_size = last.size })

unfoldable pub linearize : Memory → StreamBuffer → Outcome (Memory × StreamBuffer)
linearize m sb = if sb.used_size == 0 then returns (m, sb) else do
  b ← front sb.buffers
  if ltb b.size sb.used_size || not (b.offset % 8 == 0)
      then force_linearize m sb
      else returns (m, sb)

-- forceLinearize, and a pointer `offset` bytes into the front buffer.
unfoldable pub linear_array : Memory → StreamBuffer → ℕ → Outcome (Memory × StreamBuffer × Addr)
linear_array m sb offset = do
  (m', sb') ← force_linearize m sb
  c ← front sb'.buffers
  returns (m', sb', (c.base, c.offset + offset))

unfoldable pub get_const_array :
    Memory → StreamBuffer → ℕ → ℕ → Outcome (Memory × StreamBuffer × Addr)
get_const_array m sb offset size =
    if ltb sb.used_size (add_size offset size) then throws overflow else do
      l ← find_location sb.buffers offset
      b ← front l.at
      if ltb (b.size - l.offset) size
          then linear_array m sb offset
          else returns (m, sb, (b.base, b.offset + l.offset))

-- getData<T>, for a type of `size` bytes that is aligned to `align`: a pointer to the value.
unfoldable pub get_data : Memory → StreamBuffer → ℕ → ℕ → Outcome (Memory × StreamBuffer × Addr)
get_data m sb size align = if ltb sb.used_size size then throws overflow else do
  b ← front sb.buffers
  if ltb b.size size || not (b.offset % align == 0)
      then linear_array m sb 0
      else returns (m, sb, (b.base, b.offset))
