-- ===== src/Descriptors/Owned.antt =====
-- Who has a descriptor: an object, its closer, or the one that it was released to.
use bb_eventloop.Common.{
  ℕ, ◌+◌, ◌≡◌, refl, sym, ap, ap₂, subst, ◌∙◌, inl, inr, Option, none, some, List, [], ◌∷◌, ◌++◌,
  ◌==◌, if◌then◌else◌, Bool-cases, Option-cases, arith, returns,
}
use bb_eventloop.Descriptors.Defs.{
  Slot, Process, find, set_fd, remove, construct, close_if_valid, destroy_at, destroy, with_fd,
  close, release, swap_at, swap, assign_at, assign, Op, constructs, destroys, closes, releases,
  swaps, assigns, apply, as_list, given_by, Reaches, starts, then_op,
}

abbrev pub count : ℕ → List ℕ → ℕ
count x [] = 0
count x (y ∷ ys) = (if x == y then 1 else 0) + count x ys

-- The descriptors that the objects hold.
abbrev pub held : List Slot → List ℕ
held [] = []
held (s ∷ ss) = as_list s.fd ++ held ss

count-append : (x : ℕ) (xs ys : List ℕ) → count x (xs ++ ys) ≡ count x xs + count x ys
count-append x [] ys = omega arith
count-append x (y ∷ xs) ys = let ih = count-append x xs ys in omega (arith, ih)

find-object : (o : ℕ) (ss : List Slot) (s : Slot) → find o ss ≡ some s → s.object ≡ o
find-object o [] s h = absurd cc
find-object o (t ∷ ss) s h = elim (Bool-cases (t.object == o)) [
  | inl q ↦ let same : t ≡ s = ground (arith, q, h) in ap (λ u. u.object) (sym same) ∙ ground arith
  | inr q ↦ find-object o ss s (ground (arith, q, h))
]

set_fd-count :
    (x o : ℕ) (fd : Option ℕ) (ss : List Slot) (s : Slot)
    → find o ss ≡ some s
    → count x (held (set_fd o fd ss)) + count x (as_list s.fd)
      ≡ count x (held ss) + count x (as_list fd)
set_fd-count x o fd [] s h = absurd cc
set_fd-count x o fd (t ∷ ss) s h =
    let before = count-append x (as_list t.fd) (held ss) in
    let after = count-append x (as_list fd) (held ss) in
    let rest = count-append x (as_list t.fd) (held (set_fd o fd ss)) in
    elim (Bool-cases (t.object == o)) [
      | inl q ↦
          let same : t ≡ s = ground (arith, q, h) in
          subst
            (λ u.
              count x (held (set_fd o fd (t ∷ ss))) + count x (as_list u.fd)
              ≡ count x (held (t ∷ ss)) + count x (as_list fd))
            same (rw q (omega (arith, before, after)))
      | inr q ↦
          let ih = set_fd-count x o fd ss s (ground (arith, q, h)) in
          rw q (omega (arith, before, rest, ih))
    ]

remove-count :
    (x o : ℕ) (ss : List Slot) (s : Slot)
    → find o ss ≡ some s
    → count x (held (remove o ss)) + count x (as_list s.fd) ≡ count x (held ss)
remove-count x o [] s h = absurd cc
remove-count x o (t ∷ ss) s h =
    let before = count-append x (as_list t.fd) (held ss) in
    let rest = count-append x (as_list t.fd) (held (remove o ss)) in
    elim (Bool-cases (t.object == o)) [
      | inl q ↦
          let same : t ≡ s = ground (arith, q, h) in
          subst
            (λ u.
              count x (held (remove o (t ∷ ss))) + count x (as_list u.fd) ≡ count x (held (t ∷ ss)))
            same (rw q (omega (arith, before)))
      | inr q ↦
          let ih = remove-count x o ss s (ground (arith, q, h)) in
          rw q (omega (arith, before, rest, ih))
    ]

-- Another look-up after a descriptor was put elsewhere, or the same one in its place.
find-set_fd :
    (o other : ℕ) (ss : List Slot) (t : Slot)
    → find other ss ≡ some t
    → (u : Slot) × (find other (set_fd o t.fd ss) ≡ some u) × (u.fd ≡ t.fd)
find-set_fd o other [] t h = absurd cc
find-set_fd o other (s ∷ ss) t h = elim (Bool-cases (s.object == other)) [
  | inl q ↦
      let same : s ≡ t = ground (arith, q, h) in
      elim (Bool-cases (s.object == o)) [
        | inl p ↦ (record s { fd = t.fd }, rw (p, q) refl, refl)
        | inr p ↦ (s, rw (p, q) refl, ap (λ u. u.fd) same)
      ]
  | inr q ↦
      let (u, found, same) = find-set_fd o other ss t (ground (arith, q, h)) in
      elim (Bool-cases (s.object == o)) [
        | inl p ↦ (t, rw (p, q) (ground (arith, q, h)), refl)
        | inr p ↦ (u, rw (p, q) found, same)
      ]
]

returns_inj : {p q : Process} → returns p ≡ returns q → p ≡ q
returns_inj h = cc

-- How many hold it, closed it or were given it, in all.
abbrev pub accounts : ℕ → Process → ℕ
accounts x p = count x (held p.slots) + (count x p.closed + count x p.released)

close_if_valid-closed :
    (x : ℕ) (fd : Option ℕ) (p : Process)
    → (count x (close_if_valid fd p).closed ≡ count x p.closed + count x (as_list fd))
      × ((close_if_valid fd p).released ≡ p.released)
close_if_valid-closed x none p = (omega arith, refl)
close_if_valid-closed x (some fd) p = (omega arith, refl)

-- Slots that were changed after a descriptor was closed if there was one.
after_close :
    (x given : ℕ) (fd : Option ℕ) (p q : Process) (ss : List Slot)
    → count x (held ss) + count x (as_list fd) ≡ count x (held p.slots) + given
    → record (close_if_valid fd p) { slots = ss } ≡ q
    → accounts x q ≡ accounts x p + given
after_close x given fd p q ss h e =
    let (closed, released) = close_if_valid-closed x fd p in
    let same = ap (count x) released in
    subst (λ q. accounts x q ≡ accounts x p + given) e (omega (arith, h, closed, same))

destroy_at-accounts :
    (x o : ℕ) (m : Option Slot) (p q : Process)
    → find o p.slots ≡ m
    → destroy_at m p ≡ returns q
    → accounts x q ≡ accounts x p + 0
destroy_at-accounts x o none p q at h = absurd cc
destroy_at-accounts x o (some s) p q at h =
    let named = find-object o p.slots s at in
    let left = remove-count x o p.slots s at in
    after_close x 0 s.fd p q (remove s.object p.slots)
      (subst
        (λ n.
          count x (held (remove n p.slots)) + count x (as_list s.fd) ≡ count x (held p.slots) + 0)
        (sym named) (omega (arith, left)))
      (returns_inj h)

assign_at-accounts :
    (x o : ℕ) (fd : Option ℕ) (m : Option Slot) (p q : Process)
    → find o p.slots ≡ m
    → assign_at fd m p ≡ returns q
    → accounts x q ≡ accounts x p + count x (as_list fd)
assign_at-accounts x o fd none p q at h = absurd cc
assign_at-accounts x o fd (some s) p q at h =
    let named = find-object o p.slots s at in
    after_close x (count x (as_list fd)) s.fd p q (set_fd s.object fd p.slots)
      (subst
        (λ n.
          count x (held (set_fd n fd p.slots)) + count x (as_list s.fd)
          ≡ count x (held p.slots) + count x (as_list fd))
        (sym named) (set_fd-count x o fd p.slots s at))
      (returns_inj h)

-- Where close or release takes the descriptor of an object.
taken :
    (x o : ℕ) (p : Process) (s : Slot) (fd : ℕ)
    → find o p.slots ≡ some s
    → s.fd ≡ some fd
    → count x (held (set_fd o none p.slots)) + count x (fd ∷ []) ≡ count x (held p.slots)
taken x o p s fd at e =
    let h = set_fd-count x o none p.slots s at in
    let same = ap (λ d. count x (as_list d)) e in omega (arith, h, same)

close-accounts : (x o : ℕ) (p q : Process) → close o p ≡ returns q → accounts x q ≡ accounts x p + 0
unfolding close
close-accounts x o p q h = go (find o p.slots) refl h
  where
    go :
        (m : Option Slot)
        → find o p.slots ≡ m
        → with_fd m (λ fd.
          returns (record {
            slots = set_fd o none p.slots;
            closed = fd ∷ p.closed;
            released = p.released;
          }))
          ≡ returns q
        → accounts x q ≡ accounts x p + 0
    go none at e = absurd cc
    go (some s) at e = elim (Option-cases s.fd) [
      | inl n ↦ absurd (ground (arith, n, e))
      | inr (fd, f) ↦
          let closed : record {
            slots = set_fd o none p.slots;
            closed = fd ∷ p.closed;
            released = p.released;
          }
              ≡ q =
            ground (arith, f, e) in
          let left = taken x o p s fd at f in
          subst (λ q. accounts x q ≡ accounts x p + 0) closed (omega (arith, left))
    ]

release-accounts :
    (x o : ℕ) (p q : Process) → release o p ≡ returns q → accounts x q ≡ accounts x p + 0
unfolding release
release-accounts x o p q h = go (find o p.slots) refl h
  where
    go :
        (m : Option Slot)
        → find o p.slots ≡ m
        → with_fd m (λ fd.
          returns (record {
            slots = set_fd o none p.slots;
            closed = p.closed;
            released = fd ∷ p.released;
          }))
          ≡ returns q
        → accounts x q ≡ accounts x p + 0
    go none at e = absurd cc
    go (some s) at e = elim (Option-cases s.fd) [
      | inl n ↦ absurd (ground (arith, n, e))
      | inr (fd, f) ↦
          let given : record {
            slots = set_fd o none p.slots;
            closed = p.closed;
            released = fd ∷ p.released;
          }
              ≡ q =
            ground (arith, f, e) in
          let left = taken x o p s fd at f in
          subst (λ q. accounts x q ≡ accounts x p + 0) given (omega (arith, left))
    ]

swap_at-accounts :
    (x o other : ℕ) (m n : Option Slot) (p q : Process)
    → find o p.slots ≡ m
    → find other p.slots ≡ n
    → swap_at m n p ≡ returns q
    → accounts x q ≡ accounts x p + 0
swap_at-accounts x o other none n p q a b h = absurd cc
swap_at-accounts x o other (some s) none p q a b h = absurd cc
swap_at-accounts x o other (some s) (some t) p q a b h =
    let first = set_fd-count x o t.fd p.slots s a in
    let (u, found, same) = find-set_fd o other p.slots t b in
    let second = set_fd-count x other s.fd (set_fd o t.fd p.slots) u found in
    let same_count = ap (λ d. count x (as_list d)) same in
    let named : set_fd t.object s.fd (set_fd s.object t.fd p.slots)
        ≡ set_fd other s.fd (set_fd o t.fd p.slots) =
      ap₂ (λ j k. set_fd j s.fd (set_fd k t.fd p.slots)) (find-object other p.slots t b)
        (find-object o p.slots s a) in
    let all = ap (λ ss. count x (held ss)) named in
    subst (λ q. accounts x q ≡ accounts x p + 0) (returns_inj h)
      (omega (arith, first, second, same_count, all))

apply-accounts :
    (x : ℕ) (o : Op) (p q : Process)
    → apply o p ≡ returns q
    → accounts x q ≡ accounts x p + count x (given_by o)
unfolding apply construct destroy swap assign
apply-accounts x (constructs o fd) p q h =
    let more = count-append x (as_list fd) (held p.slots) in
    subst (λ q. accounts x q ≡ accounts x p + count x (as_list fd)) (returns_inj h)
      (omega (arith, more))
apply-accounts x (destroys o) p q h = destroy_at-accounts x o (find o p.slots) p q refl h
apply-accounts x (closes o) p q h = close-accounts x o p q h
apply-accounts x (releases o) p q h = release-accounts x o p q h
apply-accounts x (swaps o other) p q h =
    swap_at-accounts x o other (find o p.slots) (find other p.slots) p q refl refl h
apply-accounts x (assigns o fd) p q h = assign_at-accounts x o fd (find o p.slots) p q refl h

-- Any operations on any number of FileDescriptor objects, with the descriptors that constructors and
-- assignments were given: each of them is held by an object, was closed or was released, as often as it was
-- given in all. None is lost, and what was given once is closed once at most, and not while it is held.
pub owned_lem :
    (x : ℕ) {given : List ℕ} {p : Process}
    → Reaches given p
    → count x given ≡ count x (held p.slots) + (count x p.closed + count x p.released)
owned_lem x starts = refl
owned_lem x (then_op {given = given} {p = p} {q = q} o r h) =
    let before = owned_lem x r in
    let step = apply-accounts x o p q h in
    let all = count-append x given (given_by o) in omega (arith, before, step, all)
