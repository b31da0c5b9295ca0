-- ===== src/Timers/Entries.antt =====
-- The multimap of TimerQueue as a list of nodes: what insertion and erasure of a node do to it.
use bb_eventloop.Common.{
  ℕ, ◌≡◌, ◌≢◌, refl, sym, inl, inr, some, List, [], ◌∷◌, arith, ◌==◌, Bool-cases, All, All-map,
}
use bb_eventloop.Common.Int.{ℤ, ◌≤ℤ◌, ltb_ℤ}
use bb_eventloop.Timers.Defs.{Entry, find_node, remove_node, insert_entry}

abbrev pub From : ℤ → Entry → Type 0
From k e = k ≤ℤ e.tte

-- In order of the times to execute at.
abbrev pub IsSorted : List Entry → Type 0
IsSorted [] = Unit {0}
IsSorted (e ∷ es) = All (From e.tte) es × IsSorted es

abbrev pub Other : ℕ → Entry → Type 0
Other n e = e.node ≢ n

abbrev pub Distinct : List Entry → Type 0
Distinct [] = Unit {0}
Distinct (e ∷ es) = All (Other e.node) es × Distinct es

pub All-remove {ℓ} :
    (P : Entry → Type ℓ) (n : ℕ) (es : List Entry) → All P es → All P (remove_node n es)
unfolding remove_node
All-remove P n [] h = tt
All-remove P n (e ∷ es) h = elim (Bool-cases (e.node == n)) [
  | inl k ↦ rw k h.1
  | inr k ↦ rw k (h.0, All-remove P n es h.1)
]

pub All-insert {ℓ} :
    (P : Entry → Type ℓ) (e : Entry) (fs : List Entry) → P e → All P fs → All P (insert_entry e fs)
unfolding insert_entry
All-insert P e [] p h = (p, tt)
All-insert P e (f ∷ fs) p h = elim (Bool-cases (ltb_ℤ e.tte f.tte)) [
  | inl k ↦ rw k (p, h)
  | inr k ↦ rw k (h.0, All-insert P e fs p h.1)
]

pub remove-IsSorted : (n : ℕ) (es : List Entry) → IsSorted es → IsSorted (remove_node n es)
unfolding remove_node
remove-IsSorted n [] h = tt
remove-IsSorted n (e ∷ es) h = elim (Bool-cases (e.node == n)) [
  | inl k ↦ rw k h.1
  | inr k ↦ rw k (All-remove (From e.tte) n es h.0, remove-IsSorted n es h.1)
]

pub insert-IsSorted : (e : Entry) (fs : List Entry) → IsSorted fs → IsSorted (insert_entry e fs)
unfolding insert_entry
insert-IsSorted e [] h = (tt, tt)
insert-IsSorted e (f ∷ fs) h = elim (Bool-cases (ltb_ℤ e.tte f.tte)) [
  | inl k ↦
      let before : e.tte ≤ℤ f.tte = ground arith in
      rw k
        ((before, All-map (From f.tte) (From e.tte) (λ g le. omega (arith, le, before)) fs h.0), h)
  | inr k ↦ rw k (All-insert (From f.tte) e fs (ground arith) h.0, insert-IsSorted e fs h.1)
]

pub remove-Distinct : (n : ℕ) (es : List Entry) → Distinct es → Distinct (remove_node n es)
unfolding remove_node
remove-Distinct n [] h = tt
remove-Distinct n (e ∷ es) h = elim (Bool-cases (e.node == n)) [
  | inl k ↦ rw k h.1
  | inr k ↦ rw k (All-remove (Other e.node) n es h.0, remove-Distinct n es h.1)
]

pub insert-Distinct :
    (e : Entry) (fs : List Entry)
    → All (Other e.node) fs
    → Distinct fs
    → Distinct (insert_entry e fs)
unfolding insert_entry
insert-Distinct e [] p h = (tt, tt)
insert-Distinct e (f ∷ fs) p h = elim (Bool-cases (ltb_ℤ e.tte f.tte)) [
  | inl k ↦ rw k (p, h)
  | inr k ↦
      rw k (All-insert (Other f.node) e fs (λ q. p.0 (sym q)) h.0, insert-Distinct e fs p.1 h.1)
]

-- The erased node is gone.
pub remove-Other : (n : ℕ) (es : List Entry) → Distinct es → All (Other n) (remove_node n es)
unfolding remove_node
remove-Other n [] h = tt
remove-Other n (e ∷ es) h = elim (Bool-cases (e.node == n)) [
  | inl k ↦ let s : e.node ≡ n = ground arith in rw (k, ← s) h.0
  | inr k ↦ rw k ((λ s. ground arith), remove-Other n es h.1)
]

pub find-remove_ne :
    (k n : ℕ) (es : List Entry) → k ≢ n → find_node k (remove_node n es) ≡ find_node k es
unfolding find_node remove_node
find-remove_ne k n [] h = refl
find-remove_ne k n (e ∷ es) h = ground (arith, find-remove_ne k n es h)

pub find-insert_ne :
    (k : ℕ) (e : Entry) (fs : List Entry)
    → e.node ≢ k
    → find_node k (insert_entry e fs) ≡ find_node k fs
unfolding find_node insert_entry
find-insert_ne k e [] h = ground arith
find-insert_ne k e (f ∷ fs) h = ground (arith, find-insert_ne k e fs h)

pub find-insert_self :
    (e : Entry) (fs : List Entry)
    → All (Other e.node) fs
    → find_node e.node (insert_entry e fs) ≡ some e
unfolding find_node insert_entry
find-insert_self e [] h = ground arith
find-insert_self e (f ∷ fs) h = ground (arith, find-insert_self e fs h.1)

pub All-find {ℓ} :
    (P : Entry → Type ℓ) (n : ℕ) (es : List Entry) (e : Entry)
    → All P es
    → find_node n es ≡ some e
    → P e × (e.node ≡ n)
unfolding find_node
All-find P n [] e h k = cc
All-find P n (f ∷ fs) e h k = elim (Bool-cases (f.node == n)) [
  | inl s ↦
      let found : some f ≡ some e = rw s at k in
      let same : f ≡ e = cc in rw (← same) (h.0, ground arith)
  | inr s ↦ All-find P n fs e h.1 (rw s at k)
]

-- A linked entry is found under its node.
pub find_head : (e : Entry) (es : List Entry) → find_node e.node (e ∷ es) ≡ some e
unfolding find_node
find_head e es = ground arith
