-- ===== src/Signals/Masks.antt =====
-- SignalFD::setSignals keeps the signals that were blocked at the start blocked, besides the handled ones.
use bb_eventloop.Common.{
  ℕ, zero, suc, ◌+◌, ◌<◌, ◌≤◌, ◌≡◌, refl, ap, ◌∙◌, List, [], ◌∷◌, Bool, true, false, not, ◌&&◌,
  ◌||◌, update, arith, Bool-cases, inl, inr, Outcome, returns,
}
use bb_eventloop.Signals.Defs.{
  SignalSet, empty, set, unset, signals, SignalFd, can_block, unite, take_away, plan_new, unset_all,
  set_signals,
}
use bb_eventloop.Signals.Members.{has, members, signals_lem}

-- A signal that was blocked at the start, is handled, is to be handled, and can be blocked.
mask_algebra :
    (o h n k : Bool)
    → ((o || (h && k)) || ((n && not o && not h) && k))
        && not ((h && not (n && not o && h)) && not o)
      ≡ o || (n && k)
mask_algebra o h n k = ground arith

and_false : (b : Bool) → (b && false) ≡ false
and_false b = ground arith

-- A list of signals that the C library knows.
abbrev all_signals : (ℕ → Bool) → List ℕ → Bool
all_signals is_signal [] = true
all_signals is_signal (i ∷ is) = is_signal i && all_signals is_signal is

module _ (is_signal : ℕ → Bool) where
  -- What a loop of setSignals makes of its two sets, signal by signal.
  abbrev PlanResult :
      SignalFd → List ℕ → SignalSet × SignalSet → ℕ → Outcome (SignalSet × SignalSet) → Type 0
  PlanResult f is plan sig o =
      (block : SignalSet) × (unblock : SignalSet) × (o ≡ returns (block, unblock))
      × (block sig
          ≡ plan.0 sig
            || (has is sig
                && not (f.originally_blocked_signals sig)
                && not (f.handled_signals sig)))
      × (unblock sig
          ≡ plan.1 sig
            && not (has is sig && not (f.originally_blocked_signals sig) && f.handled_signals sig))

  plan_new_lem :
      (f : SignalFd) (is : List ℕ) (block unblock : SignalSet) (sig : ℕ)
      → all_signals is_signal is ≡ true
      → PlanResult f is (block, unblock) sig (plan_new is_signal f is (block, unblock))
  unfolding plan_new set unset
  plan_new_lem f [] block unblock sig h = (block, unblock, refl, ground arith, ground arith)
  plan_new_lem f (i ∷ is) block unblock sig h = elim (Bool-cases (f.originally_blocked_signals i)) [
    | inl k ↦
        let (b, u, e, p, q) = plan_new_lem f is block unblock sig (ground (arith, h)) in
        (b, u, ground (arith, h, k, e), ground (arith, p, k), ground (arith, q, k))
    | inr k ↦ elim (Bool-cases (f.handled_signals i)) [
      | inl n ↦
          let (b, u, e, p, q) =
            plan_new_lem f is block (update unblock i false) sig (ground (arith, h)) in
          (b, u, ground (arith, h, k, n, e), ground (arith, p, k, n), ground (arith, q, k, n))
      | inr n ↦
          let (b, u, e, p, q) =
            plan_new_lem f is (update block i true) unblock sig (ground (arith, h)) in
          (b, u, ground (arith, h, k, n, e), ground (arith, p, k, n), ground (arith, q, k, n))
    ]
  ]

  unset_all_lem :
      (is : List ℕ) (s : SignalSet) (sig : ℕ)
      → all_signals is_signal is ≡ true
      → (t : SignalSet) × (unset_all is_signal is s ≡ returns t)
        × (t sig ≡ s sig && not (has is sig))
  unfolding unset_all unset
  unset_all_lem [] s sig h = (s, refl, ground arith)
  unset_all_lem (i ∷ is) s sig h =
      let (t, e, p) = unset_all_lem is (update s i false) sig (ground (arith, h)) in
      (t, ground (arith, h, e), ground (arith, p))

module _ (is_signal : ℕ → Bool) (known : (i : ℕ) → 1 ≤ i → i < 32 → is_signal i ≡ true) where
  all_signals-members :
      (s : SignalSet) (left i : ℕ)
      → 1 ≤ i
      → i + left < 33
      → all_signals is_signal (members is_signal s left i) ≡ true
  all_signals-members s zero i h k = refl
  all_signals-members s (suc left) i h k = ground (
    arith,
    known i h (omega arith),
    all_signals-members s left (i + 1) (omega arith) (omega arith),
  )

  all_signals-signals : (s : SignalSet) → all_signals is_signal (signals is_signal s) ≡ true
  all_signals-signals s =
      ap (all_signals is_signal) (signals_lem is_signal s 0).0
      ∙ all_signals-members s 31 1 (omega arith) (omega arith)

  has-signals :
      (s : SignalSet) (sig : ℕ) → 1 ≤ sig → sig < 32 → has (signals is_signal s) sig ≡ s sig
  has-signals s sig h k = (signals_lem is_signal s sig).2 ∙ ground (arith, h, k, known sig h k)

  unseen : (s : SignalSet) (sig : ℕ) → 32 ≤ sig → has (signals is_signal s) sig ≡ false
  unseen s sig h = (signals_lem is_signal s sig).2 ∙ ground (arith, h)

  -- One signal after setSignals, by its membership in what the loops visit.
  set_signals_at :
      (f : SignalFd) (new : SignalSet) (sig : ℕ)
      → (g : SignalFd) × (set_signals is_signal f new ≡ returns g)
        × (g.blocked sig ≡ (
            let now = has (signals is_signal new) sig in
            let was = has (signals is_signal f.originally_blocked_signals) sig in
            let o = f.originally_blocked_signals sig in
            let h = f.handled_signals sig in
            (f.blocked sig || (now && not o && not h) && can_block sig)
            && not ((h && not (now && not o && h)) && not was)))
        × (g.fd_signals sig ≡ new sig)
        × (g.handled_signals sig ≡ new sig)
        × (g.originally_blocked_signals sig ≡ f.originally_blocked_signals sig)
  unfolding set_signals
  set_signals_at f new sig =
      let (b, u, e, p, q) =
        plan_new_lem is_signal f (signals is_signal new) empty f.handled_signals sig
          (all_signals-signals new) in
      let (v, e', r) =
        unset_all_lem is_signal (signals is_signal f.originally_blocked_signals) u sig
          (all_signals-signals f.originally_blocked_signals) in
      (
        record f {
          handled_signals = new;
          blocked = take_away (unite f.blocked b) v;
          fd_signals = new;
        },
        rw (e, e') refl,
        ground (arith, p, q, r),
        refl,
        refl,
        refl,
      )

  -- If up to MAX_SIGNAL exactly the signals that were blocked at the start and the handled ones that can
  -- be blocked are blocked, then setSignals returns, and the same holds of the new signals, which are
  -- the handled ones and those of the signalfd then, while those of the start are kept.
  pub set_signals_lem :
      (f : SignalFd) (new : SignalSet) (sig : ℕ)
      → 1 ≤ sig
      → sig < 32
      → f.blocked sig ≡ f.originally_blocked_signals sig || (f.handled_signals sig && can_block sig)
      → (g : SignalFd) × (set_signals is_signal f new ≡ returns g)
        × (g.blocked sig
            ≡ g.originally_blocked_signals sig || (g.handled_signals sig && can_block sig))
        × (g.fd_signals sig ≡ new sig)
        × (g.handled_signals sig ≡ new sig)
        × (g.originally_blocked_signals sig ≡ f.originally_blocked_signals sig)
  set_signals_lem f new sig h k m =
      let (g, e, b, s, n, o) = set_signals_at f new sig in
      (
        g,
        e,
        rw (b, n, o, m, has-signals new sig h k, has-signals f.originally_blocked_signals sig h k)
            (mask_algebra (f.originally_blocked_signals sig) (f.handled_signals sig) (new sig)
              (can_block sig)),
        s,
        n,
        o,
      )

  -- A signal above MAX_SIGNAL that is handled, and was not blocked at the start, is not blocked after
  -- setSignals, also if it is among the new signals.
  pub set_signals_unblocks :
      (f : SignalFd) (new : SignalSet) (sig : ℕ)
      → 32 ≤ sig
      → f.originally_blocked_signals sig ≡ false
      → f.handled_signals sig ≡ true
      → (g : SignalFd) × (set_signals is_signal f new ≡ returns g) × (g.blocked sig ≡ false)
  set_signals_unblocks f new sig h o k =
      let (g, e, b, s, n, p) = set_signals_at f new sig in
      (
        g,
        e,
        b ∙ rw (o, k, unseen new sig h, unseen f.originally_blocked_signals sig h) (and_false _),
      )
