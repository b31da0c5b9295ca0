-- ===== src/Signals/Members.antt =====
-- What a SignalSet holds of the signals up to MAX_SIGNAL: its iteration, its size and its equality.
use bb_eventloop.Common.{
  ℕ, zero, suc, ◌+◌, ◌<◌, ◌≡◌, refl, sym, ap, ◌∙◌, List, [], ◌∷◌, Bool, false, ◌&&◌, ◌||◌, ◌==◌,
  ltb, leb, if◌then◌else◌, length, arith, Bool-cases, inl, inr,
}
use bb_eventloop.Signals.Defs.{
  SignalSet, is_set, size_loop, size, next_loop, get_next, iterate, signals,
}

-- The test for a member of a list, as a Boolean.
abbrev pub has : List ℕ → ℕ → Bool
has [] sig = false
has (i ∷ is) sig = i == sig || has is sig

module _ (is_signal : ℕ → Bool) where
  -- The members among `left` numbers from `i` on, in order.
  abbrev pub members : SignalSet → ℕ → ℕ → List ℕ
  members s zero i = []
  members s (suc left) i =
      let rest = members s left (i + 1) in if is_set is_signal s i then i ∷ rest else rest

  iterate_lem :
      (s : SignalSet) (left i fuel : ℕ)
      → i + left ≡ 32
      → left < fuel
      → iterate is_signal s fuel (next_loop is_signal s left i) ≡ members s left i
  unfolding iterate next_loop get_next
  iterate_lem s zero i zero e h = absurd (omega arith)
  iterate_lem s zero i (suc fuel) e h = refl
  iterate_lem s (suc left) i zero e h = absurd (omega arith)
  iterate_lem s (suc left) i (suc fuel) e h = elim (Bool-cases (is_set is_signal s i)) [
    | inl k ↦
        let next : get_next is_signal s i ≡ next_loop is_signal s left (i + 1) =
          ap (λ n. next_loop is_signal s n (i + 1)) (omega arith) in
        let rest = iterate_lem s left (i + 1) fuel (omega arith) (omega arith) in
        rw k (ground (arith, ap (iterate is_signal s fuel) next ∙ rest))
    | inr k ↦ rw k (iterate_lem s left (i + 1) (suc fuel) (omega arith) (omega arith))
  ]

  pub size_loop-eq :
      (s : SignalSet) (left i : ℕ) → size_loop is_signal s left i ≡ length (members s left i)
  unfolding size_loop
  size_loop-eq s zero i = refl
  size_loop-eq s (suc left) i = ground (arith, size_loop-eq s left (i + 1))

  has-members :
      (s : SignalSet) (left i sig : ℕ)
      → has (members s left i) sig ≡ (leb i sig && ltb sig (i + left)) && is_set is_signal s sig
  has-members s zero i sig = ground arith
  has-members s (suc left) i sig = ground (arith, has-members s left (i + 1) sig)

  -- An iteration visits the members among 1 to MAX_SIGNAL, in this order and each of them once; size() is
  -- their number, and a signal is visited exactly if it is one of these and in the set.
  pub signals_lem :
      (s : SignalSet) (sig : ℕ)
      → (signals is_signal s ≡ members s 31 1)
        × (size is_signal s ≡ length (signals is_signal s))
        × (has (signals is_signal s) sig ≡ (leb 1 sig && ltb sig 32) && is_set is_signal s sig)
  unfolding signals size get_next
  signals_lem s sig =
      let visited = iterate_lem s 31 1 32 (omega arith) (omega arith) in
      (
        visited,
        size_loop-eq s 31 1 ∙ ap length (sym visited),
        ap (λ l. has l sig) visited ∙ has-members s 31 1 sig,
      )
