-- ===== src/StreamBuffer/Linearize.antt =====
-- `linearize` and `getConstArray`. They keep the data where no whole buffer of room lies
-- behind it, and lose it otherwise.
use bb_eventloop.Common.{
  ℕ, ◌+◌, ◌-◌, ◌%◌, ◌≤◌, ◌<◌, ◌≡◌, refl, ap, ◌∙◌, sym, inl, inr, List, [], ◌∷◌, ◌++◌, map, arith,
  ltb, ◌==◌, Bool, true, false, not, ◌||◌, Bool-cases, take, drop, take-all, take-append_le,
  drop-append_ge, returns, size_mod, take-take, take-drop, map-take, map-drop, add_size,
  add_size_lem,
}
use bb_eventloop.StreamBuffer.Memory.{Memory, Addr, read, span, span-add, length-span, bytes_at}
use bb_eventloop.StreamBuffer.Defs.{Buffer, StreamBuffer, Location, rest_of, find_location}
use bb_eventloop.StreamBuffer.Arrays.{front, linearize, linear_array, get_const_array}
use bb_eventloop.StreamBuffer.Cells.{
  cells, sizes, sizes-append, contents, used_cells, IsValid, IsExclusive, drop-cells, take-cells,
}
use bb_eventloop.StreamBuffer.Locate.{IsLocated, pointed_lem, drop-located}
use bb_eventloop.StreamBuffer.Allocate.{align_up_bounds}
use bb_eventloop.StreamBuffer.Gather.{unpopped}
use bb_eventloop.StreamBuffer.Linear.{
  copied, copy_buffer, linear, force_linearize_lem, contents-linear, linear-IsValid,
  linear-IsExclusive, length-contents, copied_bytes,
}

-- No whole buffer of room lies behind the data.
abbrev pub NoSpare : StreamBuffer → Type 0
NoSpare sb = unpopped sb.buffers sb.used_size ≡ []

-- The test of `linearize`: the front buffer is too short or not aligned.
abbrev pub is_scattered : StreamBuffer → Buffer → Bool
is_scattered sb b = ltb b.size sb.used_size || not (b.offset % 8 == 0)

-- The data lies in one buffer, at an address that is aligned for uint64_t.
abbrev pub IsLinear : StreamBuffer → Type 0
IsLinear sb =
    (b : Buffer) × (bs : List Buffer) × (sb.buffers ≡ b ∷ bs)
    × (sb.used_size ≤ b.size)
    × (b.offset % 8 ≡ 0)

pub front-eq :
    (bs : List Buffer) (b : Buffer) (cs : List Buffer) → bs ≡ b ∷ cs → front bs ≡ returns b
unfolding front
front-eq bs b cs e = rw (e, front)

pub record IsSame (m : Memory) (sb : StreamBuffer) (m' : Memory) (sb' : StreamBuffer) : Type 0 where
  pub same_data : contents m' sb' ≡ contents m sb
  pub same_used : sb'.used_size ≡ sb.used_size
  pub valid : IsValid m' sb'
  pub exclusive : IsExclusive sb'

pub IsSame-refl :
    (m : Memory) (sb : StreamBuffer) → IsValid m sb → IsExclusive sb → IsSame m sb m sb
IsSame-refl m sb v x = record { same_data = refl; same_used = refl; valid = v; exclusive = x }

pub linear-IsSame :
    (m : Memory) (sb : StreamBuffer)
    → IsValid m sb
    → sb.used_size + 7 < size_mod
    → NoSpare sb
    → IsSame m sb (copied m sb) (linear m sb)
linear-IsSame m sb v small none = record {
  same_data =
      contents-linear m sb v small
      ∙ ap (λ bs. take sb.used_size (map (read m) (cells bs) ++ contents m sb)) none
      ∙ take-all sb.used_size (contents m sb) (omega (arith, length-contents m sb v));
  same_used = refl;
  valid = linear-IsValid m sb v small none;
  exclusive = linear-IsExclusive m sb v small none;
}

-- linearize() returns for a valid stream buffer with data that has no whole buffer of room behind
-- the data. The data is the same, it lies in one buffer at an aligned address, and the state is valid.
pub linearize_lem :
    (m : Memory) (sb : StreamBuffer) (b : Buffer) (bs : List Buffer)
    → IsValid m sb
    → IsExclusive sb
    → sb.used_size + 7 < size_mod
    → sb.buffers ≡ b ∷ bs
    → 0 < sb.used_size
    → NoSpare sb
    → (m' : Memory) × (sb' : StreamBuffer) × (linearize m sb ≡ returns (m', sb'))
      × IsSame m sb m' sb'
      × IsLinear sb'
unfolding linearize
linearize_lem m sb b bs v x small e some none =
    let nonzero : (sb.used_size == 0) ≡ false = ground arith in
    elim (Bool-cases (is_scattered sb b)) [
      | inl f ↦ (
        copied m sb,
        linear m sb,
        rw (nonzero, front-eq sb.buffers b bs e, f, force_linearize_lem m sb v),
        linear-IsSame m sb v small none,
        (
          copy_buffer m sb,
          [],
          ap (λ u. u ++ copy_buffer m sb ∷ []) none,
          (align_up_bounds sb.used_size small).0,
          refl,
        ),
      )
      | inr f ↦ (
        m,
        sb,
        rw (nonzero, front-eq sb.buffers b bs e, f),
        IsSame-refl m sb v x,
        (b, bs, e, ground arith, ground arith),
      )
    ]

-- linearize() of a valid stream buffer whose data is scattered, with whole buffers of room behind the
-- data: the bytes of that room are then read in front of the data, and the total size no longer
-- counts them, so the state is no longer valid.
pub linearize_loses :
    (m : Memory) (sb : StreamBuffer) (b : Buffer) (bs : List Buffer)
    → IsValid m sb
    → sb.used_size + 7 < size_mod
    → sb.buffers ≡ b ∷ bs
    → 0 < sb.used_size
    → is_scattered sb b ≡ true
    → 0 < sizes (unpopped sb.buffers sb.used_size)
    → (m' : Memory) × (sb' : StreamBuffer) × (linearize m sb ≡ returns (m', sb'))
      × (contents m' sb'
          ≡ take sb.used_size
              (map (read m) (cells (unpopped sb.buffers sb.used_size)) ++ contents m sb))
      × ¬ IsValid m' sb'
unfolding linearize
linearize_loses m sb b bs v small e some f spare =
    let nonzero : (sb.used_size == 0) ≡ false = ground arith in
    (
      copied m sb,
      linear m sb,
      rw (nonzero, front-eq sb.buffers b bs e, f, force_linearize_lem m sb v),
      contents-linear m sb v small,
      λ w. omega (
        arith,
        w.total,
        spare,
        sizes-append (unpopped sb.buffers sb.used_size) (copy_buffer m sb ∷ []),
      ),
    )

-- The bytes in the buffer of a location are those of the data.
array_there :
    (m : Memory) (sb : StreamBuffer) (offset size : ℕ) {l : Location} (b : Buffer)
    (bs : List Buffer)
    → offset + size ≤ sb.used_size
    → IsLocated sb.buffers offset l
    → l.at ≡ b ∷ bs
    → l.offset + size ≤ b.size
    → bytes_at m b.base (b.offset + l.offset) size ≡ take size (drop offset (contents m sb))
array_there m sb offset size {l} b bs h at e fits =
    let r = rest_of b l.offset in
    let left = sb.used_size - offset in
    let here : drop offset (cells sb.buffers) ≡ cells (r ∷ bs) =
      drop-located at
      ∙ ap (λ cs. drop l.offset (cells cs)) e
      ∙ drop-cells b bs l.offset (omega arith) in
    sym (
      ap (take size) (sym (map-drop (read m) offset (used_cells sb)))
      ∙ sym (map-take (read m) size (drop offset (used_cells sb)))
      ∙ ap (map (read m)) (
          ap (take size) (sym (take-drop left offset sb.used_size (cells sb.buffers) (omega arith)))
          ∙ take-take size left size (drop offset (cells sb.buffers)) (omega arith)
          ∙ ap (take size) here
          ∙ take-cells r bs size (omega arith)))

pub linear_there :
    (m : Memory) (sb : StreamBuffer) (offset size : ℕ)
    → IsValid m sb
    → sb.used_size + 7 < size_mod
    → offset + size ≤ sb.used_size
    → bytes_at (copied m sb) m.next (0 + offset) size ≡ take size (drop offset (contents m sb))
linear_there m sb offset size v small h =
    let used = sb.used_size in
    let k = used - (offset + size) in
    let s = span m.next (0 + offset) size in
    let all : span m.next 0 used ≡ span m.next 0 offset ++ span m.next (0 + offset) (size + k) =
      span-add m.next 0 offset (size + k) used (omega arith) in
    sym (
      ap (λ ds. take size (drop offset ds)) (sym (copied_bytes m sb v small))
      ∙ ap (take size) (sym (map-drop (read (copied m sb)) offset (span m.next 0 used)))
      ∙ sym (map-take (read (copied m sb)) size (drop offset (span m.next 0 used)))
      ∙ ap (map (read (copied m sb))) (
          ap (λ ps. take size (drop offset ps)) all
          ∙ ap (take size) (
              drop-append_ge 0 offset (span m.next 0 offset) _
                (omega (arith, length-span m.next 0 offset)))
          ∙ ap (take size) (span-add m.next (0 + offset) size k (size + k) refl)
          ∙ take-append_le size s _ (omega (arith, length-span m.next (0 + offset) size))
          ∙ take-all size s (omega (arith, length-span m.next (0 + offset) size))))

pub front-linear :
    (m : Memory) (sb : StreamBuffer)
    → NoSpare sb
    → front (linear m sb).buffers ≡ returns (copy_buffer m sb)
front-linear m sb none =
    front-eq _ (copy_buffer m sb) [] (ap (λ u. u ++ copy_buffer m sb ∷ []) none)

const_array_at :
    (m : Memory) (sb : StreamBuffer) (offset size : ℕ) (l : Location) (b : Buffer)
    (bs : List Buffer)
    → IsValid m sb
    → IsExclusive sb
    → sb.used_size + 7 < size_mod
    → offset + size ≤ sb.used_size
    → NoSpare sb
    → find_location sb.buffers offset ≡ returns l
    → IsLocated sb.buffers offset l
    → l.at ≡ b ∷ bs
    → l.offset ≤ b.size
    → (m' : Memory) × (sb' : StreamBuffer) × (p : Addr) × (get_const_array m sb offset size
        ≡ returns (m', sb', p))
      × (bytes_at m' p.0 p.1 size ≡ take size (drop offset (contents m sb)))
      × IsSame m sb m' sb'
unfolding get_const_array linear_array
const_array_at m sb offset size l b bs v x small h none found at e fits =
    let sum : add_size offset size ≡ offset + size = add_size_lem offset size (omega arith) in
    let inside : ltb sb.used_size (offset + size) ≡ false = ground arith in
    elim (Bool-cases (ltb (b.size - l.offset) size)) [
      | inl f ↦ (
        copied m sb,
        linear m sb,
        (m.next, 0 + offset),
        rw (
          sum,
          inside,
          found,
          front-eq l.at b bs e,
          f,
          force_linearize_lem m sb v,
          front-linear m sb none,
        ),
        linear_there m sb offset size v small h,
        linear-IsSame m sb v small none,
      )
      | inr f ↦ (
        m,
        sb,
        (b.base, b.offset + l.offset),
        rw (sum, inside, found, front-eq l.at b bs e, f),
        array_there m sb offset size b bs h at e (ground arith),
        IsSame-refl m sb v x,
      )
    ]

-- getConstArray(offset, size) returns, for a part of the data of a valid stream buffer with its
-- room its own, where the part is not empty and no whole buffer of room lies behind the data, a
-- pointer to just those bytes. The data is the same and the state is valid.
pub get_const_array_lem :
    (m : Memory) (sb : StreamBuffer) (offset size : ℕ)
    → IsValid m sb
    → IsExclusive sb
    → sb.used_size + 7 < size_mod
    → offset + size ≤ sb.used_size
    → 0 < size
    → NoSpare sb
    → (m' : Memory) × (sb' : StreamBuffer) × (p : Addr) × (get_const_array m sb offset size
        ≡ returns (m', sb', p))
      × (bytes_at m' p.0 p.1 size ≡ take size (drop offset (contents m sb)))
      × IsSame m sb m' sb'
get_const_array_lem m sb offset size v x small h some none =
    let (l, b, bs, found, at, e, fits) =
      pointed_lem sb.buffers offset (omega (arith, v.used, v.total)) in
    const_array_at m sb offset size l b bs v x small h none found at e fits
