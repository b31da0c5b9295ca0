-- ===== src/StreamBuffer/Memory.antt =====
-- The heap that the buffers of src/lib/StreamBuffer.cpp share. A block is one `new uint64_t[]`; an
-- address is a block and the number of a byte in it. Fresh memory holds whatever `cell` says of a
-- block that is not in use yet: the code does not initialise it, and no theorem reads it.
use bb_eventloop.Common.{
  ℕ, suc, zero, ◌+◌, ◌≡◌, ◌≢◌, refl, sym, inl, inr, Bool-cases, ==_iff, ap, ap₂, ◌∙◌, ◌&&◌, List,
  [], ◌∷◌, ◌++◌, map, arith, ◌==◌, if◌then◌else◌, length, take, drop,
}

abbrev pub Addr : Type 0
Addr = ℕ × ℕ

pub record Memory : Type 0 where
  -- blocks from `next` on are free
  pub next : ℕ
  -- the bytes that a block has
  pub extent : ℕ → ℕ
  pub cell : ℕ → ℕ → ℕ

abbrev pub read : Memory → Addr → ℕ
read m (b, o) = m.cell b o

abbrev pub write : Memory → Addr → ℕ → Memory
write m (b, o) v = record m { cell = λ b' o'. if (b == b') && (o == o') then v else m.cell b' o' }

-- A new block, under its number.
abbrev pub new_block : Memory → ℕ → Memory
new_block m size = record m {
  next = suc m.next;
  extent = λ b. if b == m.next then size else m.extent b;
}

-- memcpy(pointer, bytes, length bytes)
unfoldable pub copy_to : Memory → ℕ → ℕ → List ℕ → Memory
copy_to m b o [] = m
copy_to m b o (x ∷ xs) = copy_to (write m (b, o) x) b (o + 1) xs

-- The `n` addresses from byte `o` of block `b` on.
unfoldable pub span : ℕ → ℕ → ℕ → List Addr
span b o zero = []
span b o (suc n) = (b, o) ∷ span b (o + 1) n

-- Writes byte by byte to a list of addresses.
unfoldable pub write_cells : Memory → List Addr → List ℕ → Memory
write_cells m [] xs = m
write_cells m (p ∷ ps) [] = m
write_cells m (p ∷ ps) (x ∷ xs) = write_cells (write m p x) ps xs

-- memcpy out of the memory: the `n` bytes at a pointer.
abbrev pub bytes_at : Memory → ℕ → ℕ → ℕ → List ℕ
bytes_at m b o n = map (read m) (span b o n)

pub length-span : (b o n : ℕ) → length (span b o n) ≡ n
unfolding span
length-span b o zero = refl
length-span b o (suc n) = ap suc (length-span b (o + 1) n)

pub span-add : (b o n m k : ℕ) → k ≡ n + m → span b o k ≡ span b o n ++ span b (o + n) m
unfolding span
span-add b o zero m k e = ap₂ (span b) (omega arith) (omega arith)
span-add b o (suc n) m zero e = absurd (omega arith)
span-add b o (suc n) m (suc k) e =
    ap (◌∷◌ (b, o)) (
      let e' : o + suc n ≡ o + 1 + n = omega arith in
      rw e' (span-add b (o + 1) n m k (omega arith)))

pub copy_to-eq-write_cells :
    (m : Memory) (b o : ℕ) (xs : List ℕ)
    → copy_to m b o xs ≡ write_cells m (span b o (length xs)) xs
unfolding copy_to span write_cells
copy_to-eq-write_cells m b o [] = refl
copy_to-eq-write_cells m b o (x ∷ xs) = copy_to-eq-write_cells (write m (b, o) x) b (o + 1) xs

pub write_cells-append :
    (m : Memory) (ps qs : List Addr) (xs : List ℕ)
    → write_cells m (ps ++ qs) xs
      ≡ write_cells (write_cells m ps (take (length ps) xs)) qs (drop (length ps) xs)
unfolding write_cells
write_cells-append m [] qs xs = refl
write_cells-append m (p ∷ ps) [] [] = refl
write_cells-append m (p ∷ ps) (q ∷ qs) [] = refl
write_cells-append m (p ∷ ps) qs (x ∷ xs) = write_cells-append (write m p x) ps qs xs

-- `p` is none of the addresses.
abbrev pub NotIn : Addr → List Addr → Type 0
NotIn p [] = Unit {0}
NotIn p (q ∷ qs) = (p ≢ q) × NotIn p qs

abbrev pub Apart : List Addr → List Addr → Type 0
Apart [] qs = Unit {0}
Apart (p ∷ ps) qs = NotIn p qs × Apart ps qs

abbrev pub Distinct : List Addr → Type 0
Distinct [] = Unit {0}
Distinct (p ∷ ps) = NotIn p ps × Distinct ps

pub read-write_ne : (m : Memory) (p q : Addr) (v : ℕ) → p ≢ q → read (write m p v) q ≡ read m q
read-write_ne m (b, o) (b', o') v h = elim (Bool-cases (b == b')) [
  | inl e ↦ elim (Bool-cases (o == o')) [
    | inl f ↦ absurd (h (λ i. ((==_iff b b').0 e i, (==_iff o o').0 f i)))
    | inr f ↦ ground arith
  ]
  | inr e ↦ ground arith
]

pub read-write_self : (m : Memory) (p : Addr) (v : ℕ) → read (write m p v) p ≡ v
read-write_self m (b, o) v = ground arith

pub read-write_cells :
    (m : Memory) (ps : List Addr) (xs : List ℕ) (q : Addr)
    → NotIn q ps
    → read (write_cells m ps xs) q ≡ read m q
unfolding write_cells
read-write_cells m [] xs q h = refl
read-write_cells m (p ∷ ps) [] q h = refl
read-write_cells m (p ∷ ps) (x ∷ xs) q h =
    read-write_cells (write m p x) ps xs q h.1 ∙ read-write_ne m p q x (λ e. h.0 (sym e))

-- What is not written stays.
pub map-read-write_cells :
    (m : Memory) (ps qs : List Addr) (xs : List ℕ)
    → Apart qs ps
    → map (read (write_cells m ps xs)) qs ≡ map (read m) qs
map-read-write_cells m ps [] xs h = refl
map-read-write_cells m ps (q ∷ qs) xs h =
    ap₂ ◌∷◌ (read-write_cells m ps xs q h.0) (map-read-write_cells m ps qs xs h.1)

-- What is written is read back.
pub map-read-write_cells_self :
    (m : Memory) (ps : List Addr) (xs : List ℕ)
    → Distinct ps
    → length ps ≡ length xs
    → map (read (write_cells m ps xs)) ps ≡ xs
unfolding write_cells
map-read-write_cells_self m [] [] h e = refl
map-read-write_cells_self m [] (x ∷ xs) h e = absurd (omega arith)
map-read-write_cells_self m (p ∷ ps) [] h e = absurd (omega arith)
map-read-write_cells_self m (p ∷ ps) (x ∷ xs) h e =
    ap₂ ◌∷◌ (read-write_cells (write m p x) ps xs p h.0 ∙ read-write_self m p x)
      (map-read-write_cells_self (write m p x) ps xs h.1 (omega arith))

pub map-read_same :
    (m m' : Memory) (ps : List Addr) → m'.cell ≡ m.cell → map (read m') ps ≡ map (read m) ps
map-read_same m m' [] e = refl
map-read_same m m' (p ∷ ps) e =
    ap₂ ◌∷◌ (ap (λ (c : ℕ → ℕ → ℕ). c p.0 p.1) e) (map-read_same m m' ps e)
