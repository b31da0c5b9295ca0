-- ===== src/Runners/Settle.antt =====
-- The timers of AsyncRunner settle: the loop ends, and the timer descriptor is set for the first timer.
use bb_eventloop.Common.{
  ◌↔◌, ℕ, zero, suc, ◌≤◌, ◌<◌, ◌≡◌, refl, ap, subst, sym, ◌∙◌, inl, inr, some, List, [], ◌∷◌, Bool,
  true, false, if◌then◌else◌, length, All, returns, arith, Bool-cases, Option, none, Option-cases,
}
use bb_eventloop.Common.Int.{ℤ, pos, negsuc, ◌-ℤ◌, ◌≤ℤ◌, ltb_ℤ}
use bb_eventloop.Timers.Defs.{Entry, TimerQueue, no_timeout, get_timeout, execute_first_timer}
use bb_eventloop.Timers.Entries.{From}
use bb_eventloop.Timers.Invariant
use bb_eventloop.Fds.Defs.{Kernel}
use bb_eventloop.Fds.Registry
use bb_eventloop.Timers.Contract.{
  execute_first_timer_lem, get_timeout_lem, get_timeout-eq-no_timeout,
}
use bb_eventloop.Runners.{
  TimerFd, disarmed, armed, min_timeout, eqb_ℤ, Held, Executed, settled, thrown, faulty, unfinished,
  execute_timers,
}

eqb_ℤ_iff : (a b : ℤ) → (eqb_ℤ a b ≡ true) ↔ (a ≡ b)
eqb_ℤ_iff (pos a) (pos b) = ((λ h. ap pos (ground arith)), (λ h. ground arith))
eqb_ℤ_iff (pos a) (negsuc b) = ((λ h. cc), (λ h. cc))
eqb_ℤ_iff (negsuc a) (pos b) = ((λ h. cc), (λ h. cc))
eqb_ℤ_iff (negsuc a) (negsuc b) = ((λ h. ap negsuc (ground arith)), (λ h. ground arith))

-- The timer descriptor stands for the timers, at the time `now`: it is disarmed if there are none, and
-- otherwise armed for the first one, which is due in a millisecond or later.
abbrev pub IsTimed : TimerQueue → ℤ → TimerFd → Type 0
IsTimed tq now disarmed = tq.queue ≡ []
IsTimed tq now (armed t) =
    (e : Entry) × (es : List Entry) × (tq.queue ≡ e ∷ es)
    × All (From e.tte) es
    × (t ≡ e.tte -ℤ now)
    × (min_timeout ≤ℤ t)

-- The map of listeners agrees with the kernel, outside of a round, and the timers are valid.
abbrev pub IsHeld : {K : Type 0} → Kernel K → Held K → Type 0
IsHeld kernel h = Registry.IsValid kernel h.fds × (h.fds.set ≡ []) × Invariant.IsValid h.timers

-- A change, where it does not throw, that keeps this and adds no timer to the queue.
abbrev pub Shrinks : {K : Type 0} → Kernel K → (Held K → Option (Held K)) → Type 0
Shrinks {K} kernel f =
    (h h' : Held K)
    → f h ≡ some h'
    → IsHeld kernel h
    → IsHeld kernel h' × (length h'.timers.queue ≤ length h.timers.queue)

left_of :
    (t a b : ℤ) (late : Bool)
    → t ≡ (if late then pos 0 else a -ℤ b)
    → ltb_ℤ t min_timeout ≡ false
    → t ≡ a -ℤ b
left_of t a b true e h =
    let q : ltb_ℤ (pos 0) min_timeout ≡ false = subst (λ u. ltb_ℤ u min_timeout ≡ false) e h in cc
left_of t a b false e h = e

set-armed :
    (tq : TimerQueue) (now : ℤ) (e : Entry) (es : List Entry)
    → Invariant.IsValid tq
    → tq.queue ≡ e ∷ es
    → ltb_ℤ (get_timeout tq now) min_timeout ≡ false
    → IsTimed tq now (armed (get_timeout tq now))
set-armed tq now e es v at far =
    let (left, nonneg, first) = get_timeout_lem tq now e es v at in
    (e, es, at, first, left_of _ e.tte now (ltb_ℤ e.tte now) left far, ground arith)

nonempty :
    (tq : TimerQueue) (now : ℤ)
    → eqb_ℤ (get_timeout tq now) no_timeout ≡ false
    → (e : Entry) × (es : List Entry) × (tq.queue ≡ e ∷ es)
nonempty tq now h = some_entry tq.queue refl
  where
    some_entry :
        (es : List Entry) → tq.queue ≡ es → (d : Entry) × (ds : List Entry) × (tq.queue ≡ d ∷ ds)
    some_entry [] q =
        let t = (get_timeout-eq-no_timeout tq now).1 q in
        let b = (eqb_ℤ_iff (get_timeout tq now) no_timeout).1 t in cc
    some_entry (e ∷ es) q = (e, es, q)

module _ {K : Type 0} (kernel : Kernel K) (clock : ℕ → ℤ) (callbacks : ℕ → Held K → Option (Held K))
    (call : ℕ → Held K → Option (Held K)) where
  -- What is true when the loop has ended.
  abbrev pub IsExecuted : Executed (Held K) → Type 0
  IsExecuted (settled h fd) = IsHeld kernel h × ((k : ℕ) × IsTimed h.timers (clock k) fd)
  IsExecuted thrown = Unit
  IsExecuted faulty = ⊥
  IsExecuted unfinished = ⊥

  module _ (fuel n : ℕ) (h : Held K) where
    stop_thrown : callbacks n h ≡ none → execute_timers clock callbacks call (suc fuel) n h ≡ thrown
    unfolding execute_timers
    stop_thrown e = rw (e, execute_timers)

    module _ (left : Held K) (e : callbacks n h ≡ some left) where
      stop_disarmed :
          eqb_ℤ (get_timeout left.timers (clock n)) no_timeout ≡ true
          → execute_timers clock callbacks call (suc fuel) n h ≡ settled left disarmed
      unfolding execute_timers
      stop_disarmed q = rw (e, execute_timers, q)

      module _ (q : eqb_ℤ (get_timeout left.timers (clock n)) no_timeout ≡ false) where
        stop_armed :
            ltb_ℤ (get_timeout left.timers (clock n)) min_timeout ≡ false
            → execute_timers clock callbacks call (suc fuel) n h
              ≡ settled left (armed (get_timeout left.timers (clock n)))
        unfolding execute_timers
        stop_armed k = rw (e, execute_timers, q, k)

        module _ (k : ltb_ℤ (get_timeout left.timers (clock n)) min_timeout ≡ true)
            (tq : TimerQueue) (f : ℕ)
            (x : execute_first_timer left.timers ≡ returns (tq, some f)) where
          go_on :
              (h' : Held K)
              → call f (record left { timers = tq }) ≡ some h'
              → execute_timers clock callbacks call (suc fuel) n h
                ≡ execute_timers clock callbacks call fuel (suc n) h'
          unfolding execute_timers
          go_on h' c = rw (e, execute_timers, q, k, x, c)

          stop_called :
              call f (record left { timers = tq }) ≡ none
              → execute_timers clock callbacks call (suc fuel) n h ≡ thrown
          unfolding execute_timers
          stop_called c = rw (e, execute_timers, q, k, x, c)

  -- executeTimersAndUpdateTimer, where the callbacks that return keep what is held valid and schedule no
  -- timer more than they cancel: the loop ends when its fuel exceeds the number of scheduled timers, by an
  -- exception of a callback, or with the timer descriptor disarmed if no timer is scheduled, and
  -- otherwise armed for the time that is left to the first timer by the clock of the last
  -- iteration, which is a millisecond at least.
  pub execute_timers_lem :
      (fuel n : ℕ) (h : Held K)
      → ((k : ℕ) → Shrinks kernel (callbacks k))
      → ((f : ℕ) → Shrinks kernel (call f))
      → IsHeld kernel h
      → length h.timers.queue < fuel
      → IsExecuted (execute_timers clock callbacks call fuel n h)
  execute_timers_lem zero n h cs fs v few = absurd (omega arith)
  execute_timers_lem (suc fuel) n h cs fs v few = elim (Option-cases (callbacks n h)) [
    | inl e ↦ subst IsExecuted (sym (stop_thrown fuel n h e)) tt
    | inr (left, e) ↦
        let (w, shorter) = cs n h left e v in
        let t = left.timers in
        elim (Bool-cases (eqb_ℤ (get_timeout t (clock n)) no_timeout)) [
          | inl q ↦
              subst IsExecuted (sym (stop_disarmed fuel n h left e q))
                (w, (n, (get_timeout-eq-no_timeout t (clock n)).0 ((eqb_ℤ_iff _ no_timeout).0 q)))
          | inr q ↦
              let (d, ds, at) = nonempty t (clock n) q in
              elim (Bool-cases (ltb_ℤ (get_timeout t (clock n)) min_timeout)) [
                | inr k ↦
                    subst IsExecuted (sym (stop_armed fuel n h left e q k))
                      (w, (n, set-armed t (clock n) d ds w.2 at k))
                | inl k ↦
                    let (t', f, done, cb, rest, v', queue, out, unset) =
                      execute_first_timer_lem t d ds w.2 at in
                    let one_less : length t.queue ≡ suc (length t'.queue) =
                      ap length at ∙ ap (λ ds. suc (length ds)) (sym queue) in
                    elim (Option-cases (call f (record left { timers = t' }))) [
                      | inl c ↦
                          subst IsExecuted (sym (stop_called fuel n h left e q k t' f done c)) tt
                      | inr (h', c) ↦
                          let (u, less) = fs f (record left { timers = t' }) h' c (w.0, w.1, v') in
                          subst IsExecuted (sym (go_on fuel n h left e q k t' f done h' c))
                            (execute_timers_lem fuel (suc n) h' cs fs u (omega arith))
                    ]
              ]
        ]
  ]
