-- ===== src/StreamBuffer/Join.antt =====
-- `appendStreamBuffer`: one stream buffer takes over the data of another one without a copy.
use bb_eventloop.Common.{
  ℕ, ◌+◌, ◌-◌, ◌≤◌, ◌<◌, ◌≡◌, min, refl, ap, ap₂, ◌∙◌, sym, inl, inr, List, [], ◌∷◌, ◌++◌,
  map-append, arith, ltb, leb, ◌==◌, Bool-cases, length, length-append, take, drop, take-nil,
  take-append_le, drop-append_ge, append-nil, append_assoc, take-all, returns, add_size_lem,
  size_mod,
}
use bb_eventloop.StreamBuffer.Memory.{Memory, read, Apart}
use bb_eventloop.StreamBuffer.Disjoint.{append-Apart}
use bb_eventloop.StreamBuffer.Defs.{
  Buffer, StreamBuffer, Location, rest_of, head_of, find_first_unused, used_buffers, split_at,
  append_stream_buffer,
}
use bb_eventloop.StreamBuffer.Cells.{
  cells, cells_of, sizes, sizes-append, cells-append, used_cells, free_cells, contents, Owned,
  Owned-append, Owned-append_left, Owned-append_right, IsValid, IsExclusive, length-cells,
  drop-cells, take-cells, take-cells_ge,
}
use bb_eventloop.StreamBuffer.Locate.{
  find_location_lem, drop-located, take-located, IsLocated, OffsetFits,
}

record IsPrefix (bs : List Buffer) (n : ℕ) (taken : List Buffer) : Type 0 where
  cells_eq : cells taken ≡ take n (cells bs)
  sizes_eq : sizes taken ≡ n
  keeps : (m : Memory) → Owned m bs → Owned m taken

used_buffers_lem :
    (bs : List Buffer) (n : ℕ)
    → n ≤ sizes bs
    → (taken : List Buffer) × (used_buffers bs n ≡ returns taken) × IsPrefix bs n taken
unfolding used_buffers
used_buffers_lem [] n h = (
  [],
  ground arith,
  record { cells_eq = sym (take-nil n); sizes_eq = omega arith; keeps = λ m o. tt },
)
used_buffers_lem (b ∷ bs) n h = elim (Bool-cases (n == 0)) [
  | inl e ↦
      let e' : n ≡ 0 = ground arith in
      (
        [],
        rw e,
        record {
          cells_eq = ap (λ k. take k (cells (b ∷ bs))) (sym e');
          sizes_eq = omega arith;
          keeps = λ m o. tt;
        },
      )
  | inr e ↦
      let k = min n b.size in
      let (taken, found, t) = used_buffers_lem bs (n - k) (omega arith) in
      (
        head_of b k ∷ taken,
        rw (e, found),
        record {
          cells_eq = elim (Bool-cases (leb b.size n)) [
            | inl f ↦
                let k' : k ≡ b.size = ground arith in
                rw (t.cells_eq, k') (sym (take-cells_ge b bs n (ground arith)))
            | inr f ↦
                let k' : k ≡ n = ground arith in
                let z : n - n ≡ 0 = omega arith in
                rw (t.cells_eq, k', z, append-nil) (sym (take-cells b bs n (ground arith)))
          ];
          sizes_eq = omega (arith, t.sizes_eq);
          keeps = λ m o. (o.0, omega (arith, o.1), t.keeps m o.2);
        },
      )
]

-- The list of buffers cut in two at byte `n`.
record IsSplit (bs : List Buffer) (n : ℕ) (parts : List Buffer × List Buffer) : Type 0 where
  before_eq : cells parts.0 ≡ take n (cells bs)
  after_eq : cells parts.1 ≡ drop n (cells bs)
  before_size : sizes parts.0 ≡ n
  after_size : sizes parts.1 + n ≡ sizes bs
  keeps_before : (m : Memory) → Owned m bs → Owned m parts.0
  keeps_after : (m : Memory) → Owned m bs → Owned m parts.1

-- Between two buffers nothing has to be split.
IsSplit-between :
    (before at : List Buffer) (n : ℕ) → n ≡ sizes before → IsSplit (before ++ at) n (before, at)
IsSplit-between before at n e = record {
  before_eq = rw (cells-append before at) (
      sym (
        take-append_le n (cells before) (cells at) (omega (arith, length-cells before))
        ∙ take-all n (cells before) (omega (arith, length-cells before))));
  after_eq =
      rw (cells-append before at)
        (sym (drop-append_ge 0 n (cells before) (cells at) (omega (arith, length-cells before))));
  before_size = sym e;
  after_size = omega (arith, sizes-append before at);
  keeps_before = λ m o. Owned-append_left m before at o;
  keeps_after = λ m o. Owned-append_right m before at o;
}

IsSplit-inside :
    (before : List Buffer) (b : Buffer) (bs : List Buffer) (off : ℕ)
    → off < b.size
    → IsSplit
        (before ++ b ∷ bs)
        (sizes before + off)
        (before ++ head_of b off ∷ [], rest_of b off ∷ bs)
IsSplit-inside before b bs off h =
    let at : IsLocated (before ++ b ∷ bs) (sizes before + off)
        (record { before = before; at = b ∷ bs; offset = off }) =
      record { split = refl; sum = refl; fits = inr h } in
    record {
      before_eq =
          rw (cells-append before (head_of b off ∷ []), append-nil (cells_of (head_of b off)))
            (ap (◌++◌ (cells before)) (sym (take-cells b bs off (omega arith)))
              ∙ sym (take-located at));
      after_eq = sym (drop-cells b bs off (omega arith)) ∙ sym (drop-located at);
      before_size = omega (arith, sizes-append before (head_of b off ∷ []));
      after_size = omega (arith, sizes-append before (b ∷ bs));
      keeps_before = λ m o.
          let c = Owned-append_right m before (b ∷ bs) o in
          Owned-append m before (head_of b off ∷ []) (Owned-append_left m before (b ∷ bs) o)
            (c.0, omega (arith, c.1), tt);
      keeps_after =
          λ m o. let c = Owned-append_right m before (b ∷ bs) o in (c.0, omega (arith, c.1), c.2);
    }

split_at_lem :
    (before at : List Buffer) (off : ℕ)
    → OffsetFits at off
    → IsSplit
        (before ++ at)
        (sizes before + off)
        (split_at (record { before = before; at = at; offset = off }))
unfolding split_at
split_at_lem before [] off h = IsSplit-between before [] (sizes before + off) (omega arith)
split_at_lem before (b ∷ bs) off h = elim (Bool-cases (ltb 0 (b.size - off))) [
  | inl e ↦ rw e (IsSplit-inside before b bs off (ground arith))
  | inr e ↦ rw e (IsSplit-between before (b ∷ bs) (sizes before + off) (ground arith))
]

located-IsSplit :
    {bs : List Buffer} {n : ℕ} {l : Location} → IsLocated bs n l → IsSplit bs n (split_at l)
located-IsSplit {bs} {n} {l} at =
    rw (at.split, at.sum) (split_at_lem l.before l.at l.offset at.fits)

-- What taking over the data of `other` does.
pub record IsJoined (m : Memory) (sb other sb' : StreamBuffer) : Type 0 where
  pub joined : contents m sb' ≡ contents m sb ++ contents m other
  pub longer : sb'.used_size ≡ sb.used_size + other.used_size
  pub same_room : free_cells sb' ≡ free_cells sb
  pub data_cells : used_cells sb' ≡ used_cells sb ++ used_cells other
  pub valid : IsValid m sb'

parts-IsJoined :
    (m : Memory) (sb other : StreamBuffer) {parts : List Buffer × List Buffer} {taken : List Buffer}
    → IsValid m sb
    → IsValid m other
    → sb.total_size + other.used_size < size_mod
    → IsSplit sb.buffers sb.used_size parts
    → IsPrefix other.buffers other.used_size taken
    → IsJoined m sb other (record {
      buffers = parts.0 ++ (taken ++ parts.1);
      used_size = sb.used_size + other.used_size;
      total_size = sb.total_size + other.used_size;
    })
parts-IsJoined m sb other {parts} {taken} v w small s t =
    let (before, after) = parts in
    let front = cells before ++ cells taken in
    let n = sb.used_size + other.used_size in
    let all : cells (before ++ (taken ++ after)) ≡ front ++ cells after =
      cells-append before (taken ++ after)
      ∙ ap (◌++◌ (cells before)) (cells-append taken after)
      ∙ sym (append_assoc (cells before) (cells taken) (cells after)) in
    let len : length front ≡ n = omega (
      arith,
      length-append (cells before) (cells taken),
      length-cells before,
      length-cells taken,
      s.before_size,
      t.sizes_eq,
    ) in
    let used : take n (cells (before ++ (taken ++ after))) ≡ used_cells sb ++ used_cells other =
      ap (take n) all
      ∙ take-append_le n front (cells after) (omega (arith, len))
      ∙ take-all n front (omega (arith, len))
      ∙ ap₂ ◌++◌ s.before_eq t.cells_eq in
    record {
      joined = rw used (map-append (read m) (used_cells sb) (used_cells other));
      longer = refl;
      same_room =
          ap (drop n) all
          ∙ drop-append_ge 0 n front (cells after) (omega (arith, len))
          ∙ s.after_eq;
      data_cells = used;
      valid = record {
        total = omega (
          arith,
          sizes-append before (taken ++ after),
          sizes-append taken after,
          s.before_size,
          s.after_size,
          t.sizes_eq,
          v.total,
        );
        used = omega (arith, v.used);
        small = small;
        owned =
            Owned-append m before (taken ++ after) (s.keeps_before m v.owned)
              (Owned-append m taken after (t.keeps m w.owned) (s.keeps_after m v.owned));
      };
    }

-- appendStreamBuffer(other) returns for two valid stream buffers whose sizes together stay below the
-- limit of `size_t`. The data is then the old data followed by that of `other`, at the same
-- addresses as before, the room is the old room, and the state is valid.
pub append_stream_buffer_lem :
    (m : Memory) (sb other : StreamBuffer)
    → IsValid m sb
    → IsValid m other
    → sb.total_size + other.used_size < size_mod
    → (sb' : StreamBuffer) × (append_stream_buffer sb other ≡ returns sb') × IsJoined m sb other sb'
unfolding append_stream_buffer find_first_unused
append_stream_buffer_lem m sb other v w small =
    let (l, found, at) =
      find_location_lem sb.buffers sb.used_size (omega (arith, v.used, v.total)) in
    let (taken, some, t) =
      used_buffers_lem other.buffers other.used_size (omega (arith, w.used, w.total)) in
    let u = add_size_lem sb.used_size other.used_size (omega (arith, v.used)) in
    let z = add_size_lem sb.total_size other.used_size small in
    (
      record {
        buffers = (split_at l).0 ++ (taken ++ (split_at l).1);
        used_size = sb.used_size + other.used_size;
        total_size = sb.total_size + other.used_size;
      },
      rw (found, some, u, z),
      parts-IsJoined m sb other v w small (located-IsSplit at) t,
    )

-- The room stays exclusive if the data that is taken over does not lie in it.
pub IsJoined-IsExclusive :
    {m : Memory} {sb other sb' : StreamBuffer}
    → IsJoined m sb other sb'
    → IsExclusive sb
    → Apart (used_cells other) (free_cells sb)
    → IsExclusive sb'
IsJoined-IsExclusive {m} {sb} {other} j x a = record {
  distinct = rw j.same_room x.distinct;
  apart =
      rw (j.same_room, j.data_cells)
        (append-Apart (used_cells sb) (used_cells other) (free_cells sb) x.apart a);
}
