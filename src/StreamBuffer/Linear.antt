-- ===== src/StreamBuffer/Linear.antt =====
-- `forceLinearize`: what it leaves in front of the copy, and the data afterwards.
use bb_eventloop.Common.{
  ℕ, ◌+◌, ◌-◌, ◌≤◌, ◌<◌, ◌≡◌, min, refl, ap, ap₂, ◌∙◌, sym, inl, inr, List, [], ◌∷◌, ◌++◌, map,
  map-append, arith, ◌==◌, Bool-cases, length, length-append, take, drop, take-append_le,
  append-nil, append_assoc, returns, size_mod, length-take, length-map, map-take, take-append-drop,
}
use bb_eventloop.StreamBuffer.Memory.{
  Memory, Addr, read, Distinct, span, length-span, span-add, write_cells, map-read-write_cells,
  map-read-write_cells_self, new_block,
}
use bb_eventloop.StreamBuffer.Disjoint.{
  Below, Apart-span, Below-take, Distinct-span, Distinct-append_right, Distinct-Apart,
}
use bb_eventloop.StreamBuffer.Defs.{Buffer, StreamBuffer, new_buffer, align_up}
use bb_eventloop.StreamBuffer.Arrays.{back, gather_loop, force_linearize}
use bb_eventloop.StreamBuffer.Cells.{
  cells, cells_of, sizes, sizes-append, cells-append, used_cells, contents, Owned, IsValid,
  IsExclusive, length-cells,
}
use bb_eventloop.StreamBuffer.Append.{write_cells-Grows}
use bb_eventloop.StreamBuffer.Allocate.{align_up_bounds, Owned-Below, Grows-Owned}
use bb_eventloop.StreamBuffer.Gather.{unpopped, unpopped-append, gather_loop_lem}

-- `forceLinearize` of a valid stream buffer: the copy of the data, in a block of its own, comes behind
-- the buffers that were not popped, and the total size is that of the copy alone.
pub copied : Memory → StreamBuffer → Memory
unfolding new_buffer
copied m sb = write_cells (new_buffer m sb.used_size).0 (span m.next 0 sb.used_size) (contents m sb)

abbrev pub copy_buffer : Memory → StreamBuffer → Buffer
copy_buffer m sb = record { base = m.next; offset = 0; size = align_up sb.used_size }

abbrev pub linear : Memory → StreamBuffer → StreamBuffer
linear m sb = record {
  buffers = unpopped sb.buffers sb.used_size ++ copy_buffer m sb ∷ [];
  used_size = sb.used_size;
  total_size = align_up sb.used_size;
}

back-append : (bs : List Buffer) (b : Buffer) → back (bs ++ b ∷ []) ≡ returns b
unfolding back
back-append [] b = refl
back-append (c ∷ []) b = refl
back-append (c ∷ d ∷ bs) b = back-append (d ∷ bs) b

pub force_linearize_lem :
    (m : Memory) (sb : StreamBuffer)
    → IsValid m sb
    → force_linearize m sb ≡ returns (copied m sb, linear m sb)
unfolding force_linearize new_buffer copied
force_linearize_lem m sb v =
    let used = sb.used_size in
    let u = unpopped sb.buffers used in
    let new = copy_buffer m sb in
    let there : used ≤ sizes sb.buffers = omega (arith, v.used, v.total) in
    let same : take used (cells (sb.buffers ++ new ∷ [])) ≡ used_cells sb =
      ap (take used) (cells-append sb.buffers (new ∷ []))
      ∙ take-append_le used (cells sb.buffers) _ (omega (arith, there, length-cells sb.buffers)) in
    let gathered : gather_loop (new_block m new.size) (m.next, 0) (sb.buffers ++ new ∷ []) used
        ≡ returns (copied m sb, u ++ new ∷ []) =
      gather_loop_lem (new_block m new.size) m.next 0 (sb.buffers ++ new ∷ []) used
        (omega (arith, there, sizes-append sb.buffers (new ∷ [])))
        (rw same (
          Apart-span m.next 0 used (used_cells sb)
            (Below-take m.next used (cells sb.buffers) (Owned-Below m sb.buffers v.owned))))
      ∙ ap₂
          (λ (c : List Addr) (k : List Buffer).
            returns (write_cells (new_block m new.size) (span m.next 0 used) (map (read m) c), k))
          same (unpopped-append sb.buffers (new ∷ []) used there) in
    rw (gathered, back-append u new)

pub length-contents :
    (m : Memory) (sb : StreamBuffer) → IsValid m sb → length (contents m sb) ≡ sb.used_size
length-contents m sb v = omega (
  arith,
  length-map (read m) (used_cells sb),
  length-take sb.used_size (cells sb.buffers),
  length-cells sb.buffers,
  v.total,
  v.used,
)

unpopped-Owned : (m : Memory) (bs : List Buffer) (n : ℕ) → Owned m bs → Owned m (unpopped bs n)
unpopped-Owned m [] n h = tt
unpopped-Owned m (b ∷ bs) n h = elim (Bool-cases (n == 0)) [
  | inl e ↦ rw e h
  | inr e ↦ rw e (unpopped-Owned m bs (n - min n b.size) h.2)
]

module _ (m : Memory) (sb : StreamBuffer) (v : IsValid m sb)
    (small : sb.used_size + 7 < size_mod) where
  pub copied_bytes : map (read (copied m sb)) (span m.next 0 sb.used_size) ≡ contents m sb
  unfolding copied new_buffer
  copied_bytes =
      map-read-write_cells_self (new_block m (align_up sb.used_size)) (span m.next 0 sb.used_size)
        (contents m sb) (Distinct-span m.next 0 sb.used_size)
        (length-span m.next 0 sb.used_size ∙ sym (length-contents m sb v))

  copied_elsewhere :
      (ps : List Addr) → Below m.next ps → map (read (copied m sb)) ps ≡ map (read m) ps
  unfolding copied new_buffer
  copied_elsewhere ps below =
      map-read-write_cells (new_block m (align_up sb.used_size)) (span m.next 0 sb.used_size) ps
        (contents m sb) (Apart-span m.next 0 sb.used_size ps below)

  -- The data of the result: what is read first is the room that was not popped.
  pub contents-linear :
      contents (copied m sb) (linear m sb)
      ≡ take sb.used_size (map (read m) (cells (unpopped sb.buffers sb.used_size)) ++ contents m sb)
  contents-linear =
      let used = sb.used_size in
      let a = align_up used in
      let u = unpopped sb.buffers used in
      let cu = cells u in
      let s = span m.next 0 used in
      let t = span m.next (0 + used) (a - used) in
      let bounds = align_up_bounds used small in
      let all : cells (linear m sb).buffers ≡ (cu ++ s) ++ t =
        cells-append u (copy_buffer m sb ∷ [])
        ∙ ap (◌++◌ cu) (
            append-nil (span m.next 0 a)
            ∙ span-add m.next 0 used (a - used) a (omega (arith, bounds)))
        ∙ sym (append_assoc cu s t) in
      let len : used ≤ length (cu ++ s) =
        omega (arith, length-append cu s, length-span m.next 0 used) in
      let below : Below m.next cu = Owned-Below m u (unpopped-Owned m sb.buffers used v.owned) in
      ap (λ c. map (read (copied m sb)) (take used c)) all
      ∙ ap (map (read (copied m sb))) (take-append_le used (cu ++ s) t len)
      ∙ map-take (read (copied m sb)) used (cu ++ s)
      ∙ ap (take used)
          (map-append (read (copied m sb)) cu s ∙ ap₂ ◌++◌ (copied_elsewhere cu below) copied_bytes)

  pub linear-IsValid : unpopped sb.buffers sb.used_size ≡ [] → IsValid (copied m sb) (linear m sb)
  unfolding copied new_buffer
  linear-IsValid e =
      let new = copy_buffer m sb in
      let m₁ = new_block m new.size in
      let bounds = align_up_bounds sb.used_size small in
      rw e (record {
        total = omega arith;
        used = omega (arith, bounds);
        small = omega (arith, bounds);
        owned =
            Grows-Owned {m = m₁} (new ∷ []) (write_cells-Grows m₁ _ (contents m sb))
              (omega arith, ground arith, tt);
      })

  pub linear-IsExclusive : unpopped sb.buffers sb.used_size ≡ [] → IsExclusive (linear m sb)
  linear-IsExclusive e =
      let used = sb.used_size in
      let c = cells_of (copy_buffer m sb) ++ [] in
      let distinct : Distinct (take used c ++ drop used c) =
        rw (take-append-drop, append-nil) (Distinct-span m.next 0 (align_up used)) in
      rw e (record {
        distinct = Distinct-append_right (take used c) (drop used c) distinct;
        apart = Distinct-Apart (take used c) (drop used c) distinct;
      })
