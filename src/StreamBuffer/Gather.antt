-- ===== src/StreamBuffer/Gather.antt =====
-- The loop of `forceLinearize`: what it copies and which buffers it pops.
use bb_eventloop.Common.{
  ℕ, ◌+◌, ◌-◌, ◌≤◌, ◌≡◌, min, refl, ap, ◌∙◌, sym, inl, inr, List, [], ◌∷◌, ◌++◌, map, map-append,
  arith, ◌==◌, Bool-cases, if◌then◌else◌, length, take, returns, length-map,
}
use bb_eventloop.StreamBuffer.Memory.{
  Memory, Addr, read, Apart, span, length-span, span-add, copy_to, copy_to-eq-write_cells,
  write_cells, bytes_at, write, map-read-write_cells,
}
use bb_eventloop.StreamBuffer.Disjoint.{Apart-append_left, Apart-append_right, append-Apart_right}
use bb_eventloop.StreamBuffer.Defs.{Buffer}
use bb_eventloop.StreamBuffer.Arrays.{gather_loop}
use bb_eventloop.StreamBuffer.Cells.{cells, sizes}
use bb_eventloop.StreamBuffer.Copy.{take-cells-min}

-- The buffers that popping `n` bytes off the front leaves: whole buffers only, from the first one
-- that was not needed.
abbrev pub unpopped : List Buffer → ℕ → List Buffer
unpopped [] n = []
unpopped (b ∷ bs) n = if n == 0 then b ∷ bs else unpopped bs (n - min n b.size)

pub unpopped-append :
    (bs cs : List Buffer) (n : ℕ) → n ≤ sizes bs → unpopped (bs ++ cs) n ≡ unpopped bs n ++ cs
unpopped-append [] [] n h = refl
unpopped-append [] (c ∷ cs) n h = ground arith
unpopped-append (b ∷ bs) cs n h = elim (Bool-cases (n == 0)) [
  | inl e ↦ rw e
  | inr e ↦ rw e (unpopped-append bs cs (n - min n b.size) (omega arith))
]

-- Two writes, one behind the other.
write_cells-append_append :
    (m : Memory) (ps qs : List Addr) (xs ys : List ℕ)
    → length ps ≡ length xs
    → write_cells m (ps ++ qs) (xs ++ ys) ≡ write_cells (write_cells m ps xs) qs ys
unfolding write_cells
write_cells-append_append m [] qs [] ys e = refl
write_cells-append_append m [] qs (x ∷ xs) ys e = absurd (omega arith)
write_cells-append_append m (p ∷ ps) qs [] ys e = absurd (omega arith)
write_cells-append_append m (p ∷ ps) qs (x ∷ xs) ys e =
    write_cells-append_append (write m p x) ps qs xs ys (omega arith)

-- One round of the loop, followed by the rounds behind it.
gather_step :
    (m : Memory) (b o : ℕ) (c : Buffer) (bs : List Buffer) (left n : ℕ)
    → n ≡ min c.size left
    → Apart (take left (cells (c ∷ bs))) (span b o left)
    → let m' = copy_to m b o (bytes_at m c.base c.offset n) in
      write_cells m' (span b (o + n) (left - n)) (map (read m') (take (left - n) (cells bs)))
      ≡ write_cells m (span b o left) (map (read m) (take left (cells (c ∷ bs))))
gather_step m b o c bs left n e apart =
    let src = span c.base c.offset n in
    let rest = take (left - n) (cells bs) in
    let s₁ = span b o n in
    let s₂ = span b (o + n) (left - n) in
    let whole : take left (cells (c ∷ bs)) ≡ src ++ rest = take-cells-min c bs left n e in
    let dest : span b o left ≡ s₁ ++ s₂ = span-add b o n (left - n) left (omega arith) in
    let len : length (map (read m) src) ≡ n =
      length-map (read m) src ∙ length-span c.base c.offset n in
    let first : copy_to m b o (map (read m) src) ≡ write_cells m s₁ (map (read m) src) =
      copy_to-eq-write_cells m b o (map (read m) src)
      ∙ ap (λ k. write_cells m (span b o k) (map (read m) src)) len in
    let away : Apart (src ++ rest) (s₁ ++ s₂) = rw (← whole, ← dest) apart in
    let kept : map (read (write_cells m s₁ (map (read m) src))) rest ≡ map (read m) rest =
      map-read-write_cells m s₁ rest (map (read m) src)
        (Apart-append_left rest s₁ s₂ (append-Apart_right src rest (s₁ ++ s₂) away)) in
    rw (first, whole, dest, map-append, kept)
      (sym (
        write_cells-append_append m s₁ s₂ (map (read m) src) (map (read m) rest)
          (length-span b o n ∙ sym len)))

rest-Apart :
    (b o : ℕ) (c : Buffer) (bs : List Buffer) (left n : ℕ)
    → n ≡ min c.size left
    → Apart (take left (cells (c ∷ bs))) (span b o left)
    → Apart (take (left - n) (cells bs)) (span b (o + n) (left - n))
rest-Apart b o c bs left n e apart =
    let src = span c.base c.offset n in
    let rest = take (left - n) (cells bs) in
    let s₁ = span b o n in
    let s₂ = span b (o + n) (left - n) in
    let away : Apart (src ++ rest) (s₁ ++ s₂) =
      rw (← take-cells-min c bs left n e, ← span-add b o n (left - n) left (omega arith)) apart in
    Apart-append_right rest s₁ s₂ (append-Apart_right src rest (s₁ ++ s₂) away)

pub gather_loop_lem :
    (m : Memory) (b o : ℕ) (bs : List Buffer) (left : ℕ)
    → left ≤ sizes bs
    → Apart (take left (cells bs)) (span b o left)
    → gather_loop m (b, o) bs left
      ≡ returns
          (write_cells m (span b o left) (map (read m) (take left (cells bs))), unpopped bs left)
unfolding gather_loop write_cells span
gather_loop_lem m b o [] left h apart = let z : left ≡ 0 = omega arith in rw z
gather_loop_lem m b o (c ∷ bs) left h apart = elim (Bool-cases (left == 0)) [
  | inl e ↦ let z : left ≡ 0 = ground arith in rw z
  | inr e ↦
      let n = min left c.size in
      let m' = copy_to m b o (bytes_at m c.base c.offset n) in
      rw e (
        gather_loop_lem m' b (o + n) bs (left - n) (omega arith)
          (rest-Apart b o c bs left n (omega arith) apart)
        ∙ ap (λ (k : Memory). returns (k, unpopped bs (left - n)))
            (gather_step m b o c bs left n (omega arith) apart))
]
