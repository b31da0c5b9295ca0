-- ===== src/StreamBuffer/Values.antt =====
-- getData, a value of a type that has a size and an alignment at the front of the data.
use bb_eventloop.Common.{
  ◌⊎◌, ℕ, ◌+◌, ◌%◌, ◌≤◌, ◌<◌, ◌≡◌, ap, ◌∙◌, sym, inl, inr, List, ◌∷◌, map, arith, ltb, ◌==◌, false,
  not, ◌||◌, Bool-cases, take, returns, size_mod, take-take, map-take,
}
use bb_eventloop.StreamBuffer.Memory.{Memory, Addr, read, bytes_at}
use bb_eventloop.StreamBuffer.Defs.{Buffer, StreamBuffer}
use bb_eventloop.StreamBuffer.Arrays.{linear_array}
use bb_eventloop.StreamBuffer.Cells.{cells, contents, used_cells, IsValid, IsExclusive, take-cells}
use bb_eventloop.StreamBuffer.Linear.{copied, linear, force_linearize_lem}
use bb_eventloop.StreamBuffer.Arrays.{get_data}
use bb_eventloop.StreamBuffer.Linearize.{
  IsSame, NoSpare, linear_there, front-linear, IsSame-refl, linear-IsSame, front-eq,
}

front_there :
    (m : Memory) (sb : StreamBuffer) (size : ℕ) (b : Buffer) (bs : List Buffer)
    → sb.buffers ≡ b ∷ bs
    → size ≤ sb.used_size
    → size ≤ b.size
    → bytes_at m b.base b.offset size ≡ take size (contents m sb)
front_there m sb size b bs e h fits = sym (
    sym (map-take (read m) size (used_cells sb))
    ∙ ap (map (read m)) (
        take-take size sb.used_size size (cells sb.buffers) (omega arith)
        ∙ ap (λ cs. take size (cells cs)) e
        ∙ take-cells b bs size fits))

-- The alignments that a block, which is aligned for `uint64_t`, has at its beginning.
abbrev pub IsAlignment : ℕ → Type 0
IsAlignment align = (align ≡ 1) ⊎ ((align ≡ 2) ⊎ ((align ≡ 4) ⊎ (align ≡ 8)))

begin-IsAlignment : (align : ℕ) → IsAlignment align → 0 % align ≡ 0
begin-IsAlignment align (inl e) = rw e
begin-IsAlignment align (inr (inl e)) = rw e
begin-IsAlignment align (inr (inr (inl e))) = rw e
begin-IsAlignment align (inr (inr (inr e))) = rw e

fit_lem :
    (b : Buffer) (size align : ℕ)
    → (ltb b.size size || not (b.offset % align == 0)) ≡ false
    → (size ≤ b.size) × (b.offset % align ≡ 0)
fit_lem b size align h = (ground arith, ground arith)

-- getData<T>() of a valid stream buffer, for a type T of `size` bytes that is aligned to `align`, at most as
-- `uint64_t` is, where the data has `size` bytes and no whole buffer of room lies behind it: it returns a pointer that is
-- aligned for T, to the first `size` bytes of the data. The data is the same and the state is valid.
pub get_data_lem :
    (m : Memory) (sb : StreamBuffer) (size align : ℕ) (b : Buffer) (bs : List Buffer)
    → IsValid m sb
    → IsExclusive sb
    → sb.used_size + 7 < size_mod
    → sb.buffers ≡ b ∷ bs
    → size ≤ sb.used_size
    → IsAlignment align
    → NoSpare sb
    → (m' : Memory) × (sb' : StreamBuffer) × (p : Addr) × (get_data m sb size align
        ≡ returns (m', sb', p))
      × (bytes_at m' p.0 p.1 size ≡ take size (contents m sb))
      × (p.1 % align ≡ 0)
      × IsSame m sb m' sb'
unfolding get_data linear_array
get_data_lem m sb size align b bs v x small e h a none =
    let inside : ltb sb.used_size size ≡ false = ground arith in
    elim (Bool-cases (ltb b.size size || not (b.offset % align == 0))) [
      | inl f ↦ (
        copied m sb,
        linear m sb,
        (m.next, 0),
        rw (
          inside,
          front-eq sb.buffers b bs e,
          f,
          force_linearize_lem m sb v,
          front-linear m sb none,
        ),
        linear_there m sb 0 size v small (omega arith),
        begin-IsAlignment align a,
        linear-IsSame m sb v small none,
      )
      | inr f ↦
          let (fits, aligned) = fit_lem b size align f in
          (
            m,
            sb,
            (b.base, b.offset),
            rw (inside, front-eq sb.buffers b bs e, f),
            front_there m sb size b bs e h fits,
            aligned,
            IsSame-refl m sb v x,
          )
    ]
