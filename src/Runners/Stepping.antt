-- ===== src/Runners/Stepping.antt =====
-- A step of AsyncRunner keeps the listeners and the timers right, and the timer descriptor.
use bb_eventloop.Common.{
  ℕ, ◌+◌, ◌<◌, ◌≤◌, ◌≡◌, ◌≢◌, refl, ap, subst, none, List, [], ◌∷◌, All, length, arith,
}
use bb_eventloop.Timers.Defs.{TimerQueue}
use bb_eventloop.Fds.Defs.{Runner}
use bb_eventloop.Fds.Dispatch.{Step, Round, handled, escaped, lost, ended}
use bb_eventloop.Fds.Actions.{Calm}
use bb_eventloop.Fds.Calm.{Uncaught, handle_events-Calm}
use bb_eventloop.Fds.Round.{RoundResult, handle_events_lem}
use bb_eventloop.Runners.{Held, Executed, settled}
use bb_eventloop.Runners.Settle.{IsTimed, Shrinks, IsExecuted, execute_timers_lem}
use bb_eventloop.Runners.Turn.{
  AsyncRunner, Environment, Stepped, stepped, thrown, faulty, aborted, unfinished, conclude,
  wait_and_handle, then_timers, step,
}
use bb_eventloop.Timers.Invariant
use bb_eventloop.Fds.Registry

-- The client's listeners catch no exception of the runner's calls. Its callbacks keep the map of listeners and
-- the timers right where they return, and its listeners the timers; the callbacks schedule no timer more than they cancel, while the listeners
-- may add up to `spare` of them.
pub record IsClient {K : Type 0} (env : Environment K) (spare : ℕ) : Type 0 where
  pub uncaught : (fl fd events : ℕ) (s : Runner K) → Uncaught (env.handle fl fd events s)
  pub callbacks-Shrinks : (n : ℕ) → Shrinks env.kernel (env.callbacks n)
  pub call-Shrinks : (f : ℕ) → Shrinks env.kernel (env.call f)
  pub heard-IsValid :
      (log : List Step) (tq : TimerQueue)
      → Invariant.IsValid tq
      → Invariant.IsValid (env.heard log tq)
  pub heard-length :
      (log : List Step) (tq : TimerQueue)
      → length (env.heard log tq).queue ≤ length tq.queue + spare

module _ {K : Type 0} (env : Environment K) where
  -- What is true after a step.
  abbrev pub IsSettled : Stepped (AsyncRunner K) → Type 0
  IsSettled (stepped s) =
      Registry.IsValid env.kernel s.fds
      × (s.fds.set ≡ [])
      × Invariant.IsValid s.timers
      × ((k : ℕ) × IsTimed s.timers (env.clock k) s.timer_fd)
  IsSettled thrown = Unit {0}
  IsSettled faulty = ⊥
  IsSettled aborted = Unit {0}
  IsSettled unfinished = ⊥

  wait_and_handle_lem :
      (spare : ℕ) (es : List (ℕ × ℕ)) (s : Runner K)
      → IsClient env spare
      → Registry.IsValid env.kernel s
      → s.set ≡ []
      → All (λ e. env.kernel.watched s.kernel e.0 ≢ none) es
      → (s' : Runner K) (log : List Step) → wait_and_handle env es s ≡ (handled s', log)
      → Registry.IsValid env.kernel s' × (s'.set ≡ [])
  unfolding wait_and_handle
  wait_and_handle_lem spare [] s c v e w s' log h =
      let same : s ≡ s' = cc in
      subst (λ t. Registry.IsValid env.kernel t × (t.set ≡ [])) same (v, e)
  wait_and_handle_lem spare (d ∷ es) s c v e w s' log h =
      let calm =
        subst (λ r. Calm r.1) h (handle_events-Calm env.kernel env.handle c.uncaught s (d ∷ es)) in
      let (valid, tracked, off, none_left, fresh, all) =
        subst (RoundResult env.kernel (d ∷ es)) h
          (handle_events_lem env.kernel env.handle s (d ∷ es) v e w) in
      (valid calm, none_left)

  never_lost :
      (es : List (ℕ × ℕ)) (s : Runner K)
      → Registry.IsValid env.kernel s
      → s.set ≡ []
      → All (λ e. env.kernel.watched s.kernel e.0 ≢ none) es
      → (s' : Runner K) (fd : ℕ) (log : List Step) → wait_and_handle env es s ≢ (lost s' fd, log)
  unfolding wait_and_handle
  never_lost [] s v e w s' fd log h = cc
  never_lost (d ∷ es) s v e w s' fd log h =
      subst (RoundResult env.kernel (d ∷ es)) h
        (handle_events_lem env.kernel env.handle s (d ∷ es) v e w)

  conclude_lem :
      (r : Executed (Held K))
      → IsExecuted env.kernel env.clock env.callbacks env.call r
      → IsSettled (conclude env r)
  conclude_lem (settled h fd) (v, timed) = (v.0, v.1, v.2, timed)
  conclude_lem Executed.thrown v = tt
  conclude_lem Executed.faulty v = v
  conclude_lem Executed.unfinished v = v

  then_timers_lem :
      (fuel spare : ℕ) (tq : TimerQueue) (r : Round (Runner K)) (log : List Step)
      → IsClient env spare
      → Invariant.IsValid tq
      → length tq.queue + spare < fuel
      → ((s : Runner K) → r ≡ handled s → Registry.IsValid env.kernel s × (s.set ≡ []))
      → ((s : Runner K) (fd : ℕ) → r ≢ lost s fd)
      → IsSettled (then_timers env fuel tq (r, log))
  then_timers_lem fuel spare tq (handled s) log c v h ok found =
      let (valid, none_left) = ok s refl in
      let few = c.heard-length log tq in
      conclude_lem _ (
        execute_timers_lem env.kernel env.clock env.callbacks env.call fuel 0
          (record { fds = s; timers = env.heard log tq }) c.callbacks-Shrinks c.call-Shrinks
          (valid, none_left, c.heard-IsValid log tq v) (omega (arith, few, h)))
  then_timers_lem fuel spare tq (escaped s e) log c v h ok found = tt
  then_timers_lem fuel spare tq (lost s fd) log c v h ok found = found s fd refl
  then_timers_lem fuel spare tq ended log c v h ok found = tt

  pub step_lem :
      (fuel spare : ℕ) (es : List (ℕ × ℕ)) (s : AsyncRunner K)
      → IsClient env spare
      → Registry.IsValid env.kernel s.fds
      → s.fds.set ≡ []
      → Invariant.IsValid s.timers
      → All (λ e. env.kernel.watched s.fds.kernel e.0 ≢ none) es
      → length s.timers.queue + spare < fuel
      → IsSettled (step env fuel es s)
  unfolding step
  step_lem fuel spare es s c v e tv w h =
      let round = wait_and_handle env es s.fds in
      then_timers_lem fuel spare s.timers round.0 round.1 c tv h
        (λ s' at. wait_and_handle_lem spare es s.fds c v e w s' round.1 (ap (λ r. (r, round.1)) at))
        (λ s' fd at. never_lost es s.fds v e w s' fd round.1 (ap (λ r. (r, round.1)) at))
