-- ===== src/Fds/Entries.antt =====
-- The map of listeners, as a function of the descriptor.
use bb_eventloop.Common.{
  ℕ, suc, ◌≡◌, ◌≢◌, refl, ap, inl, inr, none, some, List, [], ◌∷◌, false, ◌==◌, length, update,
  arith, All, Bool-cases,
}
use bb_eventloop.Fds.Defs.{MapEntry, find, erase, set_events}

abbrev pub Other : ℕ → MapEntry → Type 0
Other fd m = m.fd ≢ fd

abbrev pub Distinct : List MapEntry → Type 0
Distinct [] = Unit
Distinct (m ∷ ms) = All (Other m.fd) ms × Distinct ms

pub find-none : (fd : ℕ) (ms : List MapEntry) → All (Other fd) ms → find fd ms ≡ none
unfolding find
find-none fd [] h = refl
find-none fd (m ∷ ms) h =
    let rest = find-none fd ms h.1 in
    let ne = h.0 in let no : (m.fd == fd) ≡ false = ground arith in rw (no, rest)

pub none-find : (fd : ℕ) (ms : List MapEntry) → find fd ms ≡ none → All (Other fd) ms
unfolding find
none-find fd [] h = tt
none-find fd (m ∷ ms) h =
    let rest : find fd ms ≡ none = ground arith in ((λ e. ground arith), none-find fd ms rest)

pub find_fd : (fd : ℕ) (ms : List MapEntry) (m : MapEntry) → find fd ms ≡ some m → m.fd ≡ fd
unfolding find
find_fd fd [] m h = cc
find_fd fd (n ∷ ms) m h = elim (Bool-cases (n.fd == fd)) [
  | inl k ↦ let same : n ≡ m = ground arith in rw (← same) (ground arith)
  | inr k ↦ find_fd fd ms m (ground arith)
]

find-erase_self : (fd : ℕ) (ms : List MapEntry) → Distinct ms → find fd (erase fd ms) ≡ none
unfolding erase find
find-erase_self fd [] d = refl
find-erase_self fd (m ∷ ms) d = elim (Bool-cases (m.fd == fd)) [
  | inl k ↦ let s : m.fd ≡ fd = ground arith in rw (k, ← s) (find-none m.fd ms d.0)
  | inr k ↦ ground (arith, find-erase_self fd ms d.1)
]

find-erase_ne : (fd g : ℕ) (ms : List MapEntry) → fd ≢ g → find g (erase fd ms) ≡ find g ms
unfolding erase find
find-erase_ne fd g [] h = refl
find-erase_ne fd g (m ∷ ms) h = ground (arith, find-erase_ne fd g ms h)

pub find-erase :
    (fd : ℕ) (ms : List MapEntry)
    → Distinct ms
    → (g : ℕ) → find g (erase fd ms) ≡ update (λ h. find h ms) fd none g
find-erase fd ms d g = elim (Bool-cases (fd == g)) [
  | inl k ↦ let s : fd ≡ g = ground arith in rw (k, ← s) (find-erase_self fd ms d)
  | inr k ↦ rw k (find-erase_ne fd g ms (ground arith))
]

find-set_self :
    (fd events : ℕ) (ms : List MapEntry) (m : MapEntry)
    → find fd ms ≡ some m
    → find fd (set_events fd events ms) ≡ some (record m { events = events })
unfolding set_events find
find-set_self fd events [] m h = cc
find-set_self fd events (n ∷ ms) m h = elim (Bool-cases (n.fd == fd)) [
  | inl k ↦ let same : n ≡ m = ground arith in rw (k, ← same) (ground arith)
  | inr k ↦ ground (arith, find-set_self fd events ms m (ground arith))
]

find-set_ne :
    (fd events g : ℕ) (ms : List MapEntry) → fd ≢ g → find g (set_events fd events ms) ≡ find g ms
unfolding set_events find
find-set_ne fd events g [] h = refl
find-set_ne fd events g (m ∷ ms) h = ground (arith, find-set_ne fd events g ms h)

pub find-set_events :
    (fd events : ℕ) (ms : List MapEntry) (m : MapEntry)
    → find fd ms ≡ some m
    → (g : ℕ)
    → find g (set_events fd events ms)
      ≡ update (λ h. find h ms) fd (some (record m { events = events })) g
find-set_events fd events ms m h g = elim (Bool-cases (fd == g)) [
  | inl k ↦ let s : fd ≡ g = ground arith in rw (k, ← s) (find-set_self fd events ms m h)
  | inr k ↦ rw k (find-set_ne fd events g ms (ground arith))
]

pub length-erase :
    (fd : ℕ) (ms : List MapEntry) (m : MapEntry)
    → find fd ms ≡ some m
    → length ms ≡ suc (length (erase fd ms))
unfolding find erase
length-erase fd [] m h = cc
length-erase fd (n ∷ ms) m h = elim (Bool-cases (n.fd == fd)) [
  | inl k ↦ rw k
  | inr k ↦ rw k (ap suc (length-erase fd ms m (ground arith)))
]

pub length-set_events :
    (fd events : ℕ) (ms : List MapEntry) → length (set_events fd events ms) ≡ length ms
unfolding set_events
length-set_events fd events [] = refl
length-set_events fd events (n ∷ ms) = elim (Bool-cases (n.fd == fd)) [
  | inl k ↦ rw k
  | inr k ↦ rw k (ap suc (length-set_events fd events ms))
]

All-erase : (fd g : ℕ) (ms : List MapEntry) → All (Other g) ms → All (Other g) (erase fd ms)
unfolding erase
All-erase fd g [] h = tt
All-erase fd g (m ∷ ms) h = elim (Bool-cases (m.fd == fd)) [
  | inl k ↦ rw k h.1
  | inr k ↦ rw k (h.0, All-erase fd g ms h.1)
]

All-set_events :
    (fd events g : ℕ) (ms : List MapEntry)
    → All (Other g) ms
    → All (Other g) (set_events fd events ms)
unfolding set_events
All-set_events fd events g [] h = tt
All-set_events fd events g (m ∷ ms) h = elim (Bool-cases (m.fd == fd)) [
  | inl k ↦ rw k h
  | inr k ↦ rw k (h.0, All-set_events fd events g ms h.1)
]

pub erase-Distinct : (fd : ℕ) (ms : List MapEntry) → Distinct ms → Distinct (erase fd ms)
unfolding erase
erase-Distinct fd [] d = tt
erase-Distinct fd (m ∷ ms) d = elim (Bool-cases (m.fd == fd)) [
  | inl k ↦ rw k d.1
  | inr k ↦ rw k (All-erase fd m.fd ms d.0, erase-Distinct fd ms d.1)
]

pub set_events-Distinct :
    (fd events : ℕ) (ms : List MapEntry) → Distinct ms → Distinct (set_events fd events ms)
unfolding set_events
set_events-Distinct fd events [] d = tt
set_events-Distinct fd events (m ∷ ms) d = elim (Bool-cases (m.fd == fd)) [
  | inl k ↦ rw k d
  | inr k ↦ rw k (All-set_events fd events m.fd ms d.0, set_events-Distinct fd events ms d.1)
]
