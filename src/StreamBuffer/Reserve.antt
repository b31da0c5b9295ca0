-- ===== src/StreamBuffer/Reserve.antt =====
-- getMutableArray, and the two functions it calls: the array that it hands out is the end of the data.
use bb_eventloop.Common.{
  ℕ, ◌+◌, ◌-◌, ◌≤◌, ◌<◌, ◌≡◌, refl, ap, ◌∙◌, sym, inl, inr, List, [], ◌∷◌, ◌++◌, arith, ◌⊎◌, subst,
  take-all, append_assoc, ◌==◌, ltb, Bool-cases, true, false, take, drop, take-add, append-nil,
  size_mod, add_size, add_size_lem, sub_size_lem, returns,
}
use bb_eventloop.StreamBuffer.Memory.{Memory, Addr, new_block}
use bb_eventloop.StreamBuffer.Defs.{
  Buffer, StreamBuffer, Location, head_of, rest_of, align_up, new_buffer, allocate, push_new,
  get_free_size, find_first_unused,
}
use bb_eventloop.StreamBuffer.Arrays.{
  back, reserve_no_free, reserve_too_small, reserve_at, get_mutable_array,
}
use bb_eventloop.StreamBuffer.Cells.{
  cells, cells_of, sizes, used_cells, Owned, IsValid, length-cells, cells-append, take-cells,
  drop-cells, sizes-append, Owned-append, Owned-append_left, Owned-append_right,
}
use bb_eventloop.StreamBuffer.Locate.{IsLocated, find_location_lem, drop-located, take-located}
use bb_eventloop.StreamBuffer.Allocate.{align_up_bounds, get_free_size_lem}
use bb_eventloop.StreamBuffer.Insert.{IsReserved, fresh, inserted, inserted-IsReserved}

back-append : (bs : List Buffer) (b : Buffer) → back (bs ++ b ∷ []) ≡ returns b
unfolding back
back-append [] b = refl
back-append (c ∷ []) b = refl
back-append (c ∷ d ∷ bs) b = back-append (d ∷ bs) b

module _ (m : Memory) (sb : StreamBuffer) (size : ℕ) (v : IsValid m sb)
    (small : sb.total_size + size + 7 < size_mod) where
  -- The first free bytes of a buffer.
  here-IsReserved :
      (l : Location) (b : Buffer) (bs : List Buffer)
      → IsLocated sb.buffers sb.used_size l
      → l.at ≡ b ∷ bs
      → l.offset + size ≤ b.size
      → IsReserved m sb size m
          (record sb { used_size = sb.used_size + size })
          (b.base, b.offset + l.offset)
  here-IsReserved l b bs at e fits =
      let total : sizes sb.buffers ≡ sizes l.before + (b.size + sizes bs) =
        ap sizes at.split ∙ sizes-append l.before l.at ∙ ap (λ cs. sizes l.before + sizes cs) e in
      let rest : drop sb.used_size (cells sb.buffers) ≡ cells (rest_of b l.offset ∷ bs) =
        drop-located at
        ∙ ap (λ cs. drop l.offset (cells cs)) e
        ∙ drop-cells b bs l.offset (omega arith) in
      record {
        valid = record {
          total = v.total;
          used = omega (arith, total, at.sum, v.total);
          small = v.small;
          owned = v.owned;
        };
        longer = refl;
        data_cells =
            take-add size sb.used_size (sb.used_size + size) (cells sb.buffers) refl
            ∙ ap (λ ps. used_cells sb ++ take size ps) rest
            ∙ ap (◌++◌ (used_cells sb)) (take-cells (rest_of b l.offset) bs size (omega arith));
        same_bytes = refl;
      }

  -- No buffer has room.
  full-eq :
      0 < size
      → sb.used_size ≡ sb.total_size
      → reserve_no_free m sb size
        ≡ returns (new_block m (align_up size), inserted m sb size sb.buffers [], (m.next, 0))
  unfolding reserve_no_free allocate push_new new_buffer
  full-eq some full =
      let free : get_free_size sb ≡ 0 = omega (arith, get_free_size_lem m sb v) in
      let short : ltb 0 size ≡ true = ground arith in
      let all : size - 0 ≡ size = omega arith in
      let bounds = align_up_bounds size (omega arith) in
      let t : add_size sb.total_size (align_up size) ≡ sizes sb.buffers + (align_up size + 0) =
        add_size_lem _ _ (omega (arith, bounds)) ∙ omega (arith, v.total) in
      let u = add_size_lem sb.used_size size (omega arith) in
      rw (free, short, all, back-append, t, u)

  -- The buffer that the data ends in has too little room.
  cut-eq :
      (l : Location) (b : Buffer) (bs : List Buffer)
      → IsLocated sb.buffers sb.used_size l
      → l.at ≡ b ∷ bs
      → l.offset < b.size
      → 0 < l.offset
      → reserve_too_small m sb l b bs size
        ≡ returns (
          new_block m (align_up size),
          inserted m sb size (l.before ++ head_of b l.offset ∷ []) bs,
          (m.next, 0),
        )
  unfolding reserve_too_small new_buffer
  cut-eq l b bs at e fits pos =
      let some_data : (l.offset == 0) ≡ false = ground arith in
      let total : sizes sb.buffers ≡ sizes l.before + (b.size + sizes bs) =
        ap sizes at.split ∙ sizes-append l.before l.at ∙ ap (λ cs. sizes l.before + sizes cs) e in
      let bounds = align_up_bounds size (omega arith) in
      let kept : b.size - (b.size - l.offset) ≡ l.offset = omega arith in
      let pre = l.before ++ head_of b l.offset ∷ [] in
      let s =
        sub_size_lem sb.total_size (b.size - l.offset) (omega (arith, total, v.total)) v.small in
      let t : add_size (sb.total_size - (b.size - l.offset)) (align_up size)
          ≡ sizes pre + (align_up size + sizes bs) =
        add_size_lem _ _ (omega (arith, bounds))
        ∙ omega (arith, total, v.total, sizes-append l.before (head_of b l.offset ∷ [])) in
      let u = add_size_lem sb.used_size size (omega (arith, v.used)) in
      rw (
        some_data,
        s,
        t,
        u,
        kept,
        append_assoc l.before (head_of b l.offset ∷ []) (fresh m size ∷ bs),
      )

  unused-eq :
      (l : Location) (b : Buffer) (bs : List Buffer)
      → IsLocated sb.buffers sb.used_size l
      → l.at ≡ b ∷ bs
      → l.offset ≡ 0
      → reserve_too_small m sb l b bs size
        ≡ returns (new_block m (align_up size), inserted m sb size l.before (b ∷ bs), (m.next, 0))
  unfolding reserve_too_small new_buffer
  unused-eq l b bs at e zero =
      let no_data : (l.offset == 0) ≡ true = ground arith in
      let total : sizes sb.buffers ≡ sizes l.before + (b.size + sizes bs) =
        ap sizes at.split ∙ sizes-append l.before l.at ∙ ap (λ cs. sizes l.before + sizes cs) e in
      let bounds = align_up_bounds size (omega arith) in
      let t : add_size sb.total_size (align_up size)
          ≡ sizes l.before + (align_up size + (b.size + sizes bs)) =
        add_size_lem _ _ (omega (arith, bounds)) ∙ omega (arith, total, v.total) in
      let u = add_size_lem sb.used_size size (omega (arith, v.used)) in rw (no_data, t, u)

  too_small_lem :
      (l : Location) (b : Buffer) (bs : List Buffer)
      → IsLocated sb.buffers sb.used_size l
      → l.at ≡ b ∷ bs
      → (l.offset ≡ 0) ⊎ (l.offset < b.size)
      → (m' : Memory) × (sb' : StreamBuffer) × (p : Addr) × (reserve_too_small m sb l b bs size
          ≡ returns (m', sb', p))
        × IsReserved m sb size m' sb' p
  too_small_lem l b bs at e fits =
      let split : sb.buffers ≡ l.before ++ b ∷ bs = at.split ∙ ap (◌++◌ l.before) e in
      let owned = subst (Owned m) split v.owned in
      let before = Owned-append_left m l.before (b ∷ bs) owned in
      let (base, inside, behind) = Owned-append_right m l.before (b ∷ bs) owned in
      let total = ap sizes split ∙ sizes-append l.before (b ∷ bs) in
      let used = take-located at in
      elim (Bool-cases (l.offset == 0)) [
        | inl k ↦
            let zero : l.offset ≡ 0 = ground arith in
            (
              _,
              _,
              _,
              unused-eq l b bs at e zero,
              inserted-IsReserved m sb size l.before (b ∷ bs)
                  (sym (
                    used
                    ∙ ap (λ n. cells l.before ++ take n (cells l.at)) zero
                    ∙ append-nil (cells l.before)))
                  (omega (arith, at.sum, zero)) (omega (arith, total, v.total)) before
                  (base, inside, behind),
            )
        | inr k ↦
            let head = head_of b l.offset in
            let short : l.offset < b.size = ground (arith, fits) in
            (
              _,
              _,
              _,
              cut-eq l b bs at e short (ground arith),
              inserted-IsReserved m sb size (l.before ++ head ∷ []) bs
                  (cells-append l.before (head ∷ [])
                    ∙ ap (◌++◌ (cells l.before)) (append-nil (cells_of head))
                    ∙ ap (◌++◌ (cells l.before)) (sym (take-cells b bs l.offset (omega arith)))
                    ∙ ap (λ cs. cells l.before ++ take l.offset (cells cs)) (sym e)
                    ∙ sym used)
                  (omega (arith, sizes-append l.before (head ∷ []), at.sum))
                  (omega (arith, sizes-append l.before (head ∷ []), total, v.total))
                  (Owned-append m l.before (head ∷ []) before (base, omega arith, tt)) behind,
            )
      ]

  small-eq :
      (l : Location) (b : Buffer) (bs : List Buffer)
      → l.at ≡ b ∷ bs
      → ltb (b.size - l.offset) size ≡ true
      → reserve_at m sb l size ≡ reserve_too_small m sb l b bs size
  unfolding reserve_at reserve_too_small
  small-eq l b bs e k = rw (e, k)

  full_lem :
      0 < size
      → (l : Location) → IsLocated sb.buffers sb.used_size l
      → l.at ≡ []
      → l.offset ≡ 0
      → (m' : Memory) × (sb' : StreamBuffer) × (p : Addr) × (reserve_no_free m sb size
          ≡ returns (m', sb', p))
        × IsReserved m sb size m' sb' p
  full_lem some l at e zero =
      let split : sb.buffers ≡ l.before = at.split ∙ ap (◌++◌ l.before) e ∙ append-nil l.before in
      let full : sb.used_size ≡ sb.total_size = omega (arith, at.sum, v.total, ap sizes split) in
      (
        _,
        _,
        _,
        full-eq some full,
        inserted-IsReserved m sb size sb.buffers []
            (sym (
              take-all sb.used_size (cells sb.buffers)
                (omega (arith, length-cells sb.buffers, v.total))))
            (omega (arith, v.total)) (omega (arith, v.total)) v.owned tt,
      )

  reserve_at_lem :
      0 < size
      → (l : Location) → IsLocated sb.buffers sb.used_size l
      → (cs : List Buffer) → l.at ≡ cs
      → (m' : Memory) × (sb' : StreamBuffer) × (p : Addr) × (reserve_at m sb l size
          ≡ returns (m', sb', p))
        × IsReserved m sb size m' sb' p
  unfolding reserve_at
  reserve_at_lem some l at [] e =
      let (m', sb', p, done, r) = full_lem some l at e (rw e at at.fits) in
      (m', sb', p, rw e done, r)
  reserve_at_lem some l at (b ∷ bs) e =
      let fits : (l.offset ≡ 0) ⊎ (l.offset < b.size) = rw e at at.fits in
      elim (Bool-cases (ltb (b.size - l.offset) size)) [
        | inl k ↦
            let (m', sb', p, done, r) = too_small_lem l b bs at e fits in
            (m', sb', p, small-eq l b bs e k ∙ done, r)
        | inr k ↦
            let u = add_size_lem sb.used_size size (omega (arith, v.used)) in
            (m, _, _, rw (e, k, u), here-IsReserved l b bs at e (ground (arith, fits)))
      ]

  -- getMutableArray(size) of a valid stream buffer, for `size` above zero and sizes that stay below the
  -- limit of `size_t`: it returns, in a buffer with room, in a full object and in a buffer with too
  -- little room alike. The data is the old data followed by the `size` bytes at the pointer
  -- that it returns, no byte in memory is changed, and the state is valid.
  pub get_mutable_array_lem :
      0 < size
      → (m' : Memory) × (sb' : StreamBuffer) × (p : Addr) × (get_mutable_array m sb size
          ≡ returns (m', sb', p))
        × IsReserved m sb size m' sb' p
  unfolding get_mutable_array find_first_unused
  get_mutable_array_lem some =
      let (l, found, at) =
        find_location_lem sb.buffers sb.used_size (omega (arith, v.used, v.total)) in
      let (m', sb', p, done, r) = reserve_at_lem some l at l.at refl in
      (m', sb', p, rw (found, done), r)
