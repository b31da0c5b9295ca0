-- ===== src/StreamBuffer/Defs.antt =====
-- The class StreamBuffer: its state, and the operations that add and remove data.
-- A location (an iterator and an offset) is the list of buffers before the iterator, the list from
-- the iterator on (empty at `end()`), and the offset. A loop over the buffers recurs on their list.
-- A subtraction that its guard keeps from wrapping is written `-`; any other is `sub_size`.
-- `bad_alloc` is not modelled: `new` succeeds.
use bb_eventloop.Common.{
  ℕ, ◌+◌, ◌-◌, ◌*◌, ◌/◌, min, List, [], ◌∷◌, ◌++◌, ltb, leb, ◌==◌, if◌then◌else◌, length, take,
  drop, add_size, sub_size, underflow, Outcome, returns, throws, undefined, ◌>>=◌,
}
use bb_eventloop.StreamBuffer.Memory.{Memory, new_block, copy_to}

-- `base` is the shared array, `offset` the distance of `data` from its start.
pub record Buffer : Type 0 where
  pub base : ℕ
  pub offset : ℕ
  pub size : ℕ

-- The object without its iovec array.
pub record StreamBuffer : Type 0 where
  pub buffers : List Buffer
  pub used_size : ℕ
  pub total_size : ℕ

pub record Location : Type 0 where
  pub before : List Buffer
  pub at : List Buffer
  pub offset : ℕ

-- (needSize + 7) & ~7
unfoldable pub align_up : ℕ → ℕ
align_up n = add_size n 7 / 8 * 8

-- Buffer(needSize)
unfoldable pub new_buffer : Memory → ℕ → Memory × Buffer
new_buffer m n = (new_block m (align_up n), record { base = m.next; offset = 0; size = align_up n })

unfoldable pub empty : StreamBuffer
empty = record { buffers = []; used_size = 0; total_size = 0 }

unfoldable pub get_free_size : StreamBuffer → ℕ
get_free_size sb = sub_size sb.total_size sb.used_size

unfoldable pub push_new : Memory → StreamBuffer → ℕ → Memory × StreamBuffer
push_new m sb n =
    let (m', b) = new_buffer m n in
    (m', record sb { buffers = sb.buffers ++ b ∷ []; total_size = add_size sb.total_size b.size })

unfoldable pub allocate : Memory → StreamBuffer → ℕ → Memory × StreamBuffer
allocate m sb size =
    if ltb (get_free_size sb) size then push_new m sb (size - get_free_size sb) else (m, sb)

unfoldable pub increase_used : StreamBuffer → ℕ → Outcome StreamBuffer
increase_used sb size =
    if ltb sb.total_size (add_size sb.used_size size)
    then throws underflow
    else returns (record sb { used_size = add_size sb.used_size size })

-- The part of a buffer from its byte `n` on, and the part before it.
abbrev pub rest_of : Buffer → ℕ → Buffer
rest_of b n = record b { offset = b.offset + n; size = b.size - n }

abbrev pub head_of : Buffer → ℕ → Buffer
head_of b n = record b { size = n }

-- findLocation: `undefined` where the iterator runs past the end.
unfoldable pub find_location : List Buffer → ℕ → Outcome Location
find_location [] left =
    if left == 0 then returns (record { before = []; at = []; offset = 0 }) else undefined
find_location (b ∷ bs) left =
    let further = find_location bs (left - b.size) in
    if left == 0
    then returns (record { before = []; at = b ∷ bs; offset = 0 })
    else if ltb left b.size
    then returns (record { before = []; at = b ∷ bs; offset = left })
    else do l ← further; returns (record l { before = b ∷ l.before })

unfoldable pub find_first_unused : StreamBuffer → Outcome Location
find_first_unused sb = find_location sb.buffers sb.used_size

-- The loop of cutHead: the buffers that stay.
unfoldable pub cut_loop : List Buffer → ℕ → Outcome (List Buffer)
cut_loop [] left = if left == 0 then returns [] else undefined
cut_loop (b ∷ bs) left =
    let further = cut_loop bs (left - b.size) in
    if left == 0
    then returns (b ∷ bs)
    else if leb b.size left
    then further
    else returns (rest_of b left ∷ bs)

-- What cutHead and spliceHead do to the two sizes.
unfoldable pub shrink : StreamBuffer → ℕ → StreamBuffer
shrink sb size = record sb {
  used_size = if leb size sb.used_size then sb.used_size - size else 0;
  total_size = sb.total_size - size;
}

unfoldable pub cut_head : StreamBuffer → ℕ → Outcome StreamBuffer
cut_head sb size =
    if ltb sb.total_size size
    then throws underflow
    else do bs ← cut_loop sb.buffers size; returns (record (shrink sb size) { buffers = bs })

-- The loop of spliceHead: the buffers of the new object, and those that stay.
unfoldable pub splice_loop : List Buffer → ℕ → Outcome (List Buffer × List Buffer)
splice_loop [] left = if left == 0 then returns ([], []) else undefined
splice_loop (b ∷ bs) left =
    let further = splice_loop bs (left - b.size) in
    if left == 0
    then returns ([], b ∷ bs)
    else if leb b.size left
    then further >>= (λ (taken, rest). returns (b ∷ taken, rest))
    else returns (head_of b left ∷ [], rest_of b left ∷ bs)

-- The new object comes first.
unfoldable pub splice_head : StreamBuffer → ℕ → Outcome (StreamBuffer × StreamBuffer)
splice_head sb size = if ltb sb.total_size size then throws underflow else do
  (taken, rest) ← splice_loop sb.buffers size
  returns (
    record { buffers = taken; used_size = min size sb.used_size; total_size = size },
    record (shrink sb size) { buffers = rest },
  )

-- The copies of appendData into the buffers from the iterator on, the first of them at `offset`.
unfoldable pub copy_loop : Memory → List Buffer → List ℕ → Outcome Memory
copy_loop m [] [] = returns m
copy_loop m [] (x ∷ xs) = undefined
copy_loop m (b ∷ bs) [] = returns m
copy_loop m (b ∷ bs) (x ∷ xs) =
    let n = min b.size (length (x ∷ xs)) in
    copy_loop (copy_to m b.base b.offset (take n (x ∷ xs))) bs (drop n (x ∷ xs))

unfoldable pub copy_at : Memory → Location → List ℕ → Outcome Memory
copy_at m l xs = elim l.at [
  | [] ↦ undefined
  | b ∷ bs ↦
      let n = min (b.size - l.offset) (length xs) in
      copy_loop (copy_to m b.base (b.offset + l.offset) (take n xs)) bs (drop n xs)
]

-- appendData: without free room and without data, `findFirstUnused` is `end()`, which is then read.
unfoldable pub append_data : Memory → StreamBuffer → List ℕ → Outcome (Memory × StreamBuffer)
append_data m sb xs =
    let (m', sb') = allocate m sb (length xs) in
    do
      l ← find_first_unused sb'
      m'' ← copy_at m' l xs
      sb'' ← increase_used sb' (length xs)
      returns (m'', sb'')

-- The loop of appendStreamBuffer: the buffers that it inserts.
unfoldable pub used_buffers : List Buffer → ℕ → Outcome (List Buffer)
used_buffers [] left = if left == 0 then returns [] else undefined
used_buffers (b ∷ bs) left =
    let further = used_buffers bs (left - min left b.size) in
    if left == 0
    then returns []
    else do rest ← further; returns (head_of b (min left b.size) ∷ rest)

-- The buffer at the location is split there, if any of it is left.
unfoldable pub split_at : Location → List Buffer × List Buffer
split_at l = elim l.at [
  | [] ↦ (l.before, [])
  | b ∷ bs ↦
      if ltb 0 (b.size - l.offset)
      then (l.before ++ head_of b l.offset ∷ [], rest_of b l.offset ∷ bs)
      else (l.before, b ∷ bs)
]

-- appendStreamBuffer, for two distinct objects.
unfoldable pub append_stream_buffer : StreamBuffer → StreamBuffer → Outcome StreamBuffer
append_stream_buffer sb other = do
  l ← find_first_unused sb
  inserted ← used_buffers other.buffers other.used_size
  let (before, after) = split_at l
  returns (record {
    buffers = before ++ (inserted ++ after);
    used_size = add_size sb.used_size other.used_size;
    total_size = add_size sb.total_size other.used_size;
  })
