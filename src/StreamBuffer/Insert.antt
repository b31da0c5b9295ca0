-- ===== src/StreamBuffer/Insert.antt =====
-- A new buffer behind the data, as getMutableArray puts it there.
use bb_eventloop.Common.{
  ℕ, ◌+◌, ◌<◌, ◌≡◌, refl, ap, ◌∙◌, sym, List, ◌∷◌, ◌++◌, arith, take, take-append_ge, size_mod,
}
use bb_eventloop.StreamBuffer.Memory.{Memory, Addr, span, new_block}
use bb_eventloop.StreamBuffer.Defs.{Buffer, StreamBuffer, align_up}
use bb_eventloop.StreamBuffer.Cells.{
  cells, sizes, used_cells, Owned, IsValid, length-cells, cells-append, take-cells, sizes-append,
  Owned-append,
}
use bb_eventloop.StreamBuffer.Allocate.{align_up_bounds, Grows-Owned, new_block-Grows}

-- What getMutableArray(size) leaves, where `p` is the pointer that it returns.
pub record IsReserved (m : Memory) (sb : StreamBuffer) (size : ℕ) (m' : Memory) (sb' : StreamBuffer)
    (p : Addr) : Type 0 where
  pub valid : IsValid m' sb'
  pub longer : sb'.used_size ≡ sb.used_size + size
  pub data_cells : used_cells sb' ≡ used_cells sb ++ span p.0 p.1 size
  pub same_bytes : m'.cell ≡ m.cell

abbrev pub fresh : Memory → ℕ → Buffer
fresh m size = record { base = m.next; offset = 0; size = align_up size }

-- The object with a new buffer for `size` bytes behind the buffers `pre`, which hold the data.
abbrev pub inserted : Memory → StreamBuffer → ℕ → List Buffer → List Buffer → StreamBuffer
inserted m sb size pre post = record {
  buffers = pre ++ (fresh m size ∷ post);
  used_size = sb.used_size + size;
  total_size = sizes pre + (align_up size + sizes post);
}

pub inserted-IsReserved :
    (m : Memory) (sb : StreamBuffer) (size : ℕ) (pre post : List Buffer)
    → cells pre ≡ used_cells sb
    → sizes pre ≡ sb.used_size
    → sizes pre + sizes post + size + 7 < size_mod
    → Owned m pre
    → Owned m post
    → IsReserved m sb size (new_block m (align_up size)) (inserted m sb size pre post) (m.next, 0)
inserted-IsReserved m sb size pre post same at small before after =
    let new = fresh m size in
    let bounds = align_up_bounds size (omega arith) in
    let g = new_block-Grows m (align_up size) in
    record {
      valid = record {
        total = sym (sizes-append pre (new ∷ post));
        used = omega (arith, bounds, at);
        small = omega (arith, bounds);
        owned =
            Owned-append (new_block m (align_up size)) pre (new ∷ post) (Grows-Owned pre g before)
              (omega arith, ground arith, Grows-Owned post g after);
      };
      longer = refl;
      data_cells =
          ap (take (sb.used_size + size)) (cells-append pre (new ∷ post))
          ∙ take-append_ge size (sb.used_size + size) (cells pre) (cells (new ∷ post))
              (omega (arith, at, length-cells pre))
          ∙ ap (λ l. l ++ take size (cells (new ∷ post))) same
          ∙ ap (◌++◌ (used_cells sb)) (take-cells new post size (omega (arith, bounds)));
      same_bytes = refl;
    }
