-- ===== src/Runners/Turn.antt =====
-- AsyncRunner::step: the events that epoll has without a wait, and then the callbacks and the timers.
use bb_eventloop.Common.{ℕ, Option, List, [], ◌∷◌}
use bb_eventloop.Common.Int.{ℤ}
use bb_eventloop.Timers.Defs.{TimerQueue}
use bb_eventloop.Fds.Defs.{Kernel, Runner}
use bb_eventloop.Fds.Dispatch.{Call, Step, Round, handled, escaped, lost, ended, handle_events}
use bb_eventloop.Runners.{TimerFd, Held, Executed, settled, execute_timers}

pub record AsyncRunner (K : Type 0) : Type 0 where
  pub fds : Runner K
  pub timers : TimerQueue
  pub timer_fd : TimerFd

-- What is not the runner's own: the kernel, the listeners with their calls of the runner and what else they do to
-- the timers, the clock, and the callbacks of the queue and of the timers.
pub record Environment (K : Type 0) : Type 1 where
  pub kernel : Kernel K
  pub handle : ℕ → ℕ → ℕ → Runner K → List Call
  pub heard : List Step → TimerQueue → TimerQueue
  pub clock : ℕ → ℤ
  pub callbacks : ℕ → Held K → Option (Held K)
  pub call : ℕ → Held K → Option (Held K)

-- How step ends: it returns, an exception leaves a listener or a callback, the runner's own code fails, the process ends, or the
-- fuel for the timers does not.
pub data Stepped (S : Type 0) : Type 0 where
  stepped : S → Stepped S
  thrown : Stepped S
  faulty : Stepped S
  aborted : Stepped S
  unfinished : Stepped S

module _ {K : Type 0} (env : Environment K) where
  abbrev pub conclude : Executed (Held K) → Stepped (AsyncRunner K)
  conclude (settled h fd) = stepped (record { fds = h.fds; timers = h.timers; timer_fd = fd })
  conclude Executed.thrown = thrown
  conclude Executed.faulty = faulty
  conclude Executed.unfinished = unfinished

  -- waitAndHandleFDEvents, with the events of a wait of no time: nothing where it times out.
  unfoldable pub wait_and_handle : List (ℕ × ℕ) → Runner K → Round (Runner K) × List Step
  wait_and_handle [] s = (handled s, [])
  wait_and_handle (e ∷ es) s = handle_events env.kernel env.handle s (e ∷ es)

  abbrev pub then_timers : ℕ → TimerQueue → Round (Runner K) × List Step → Stepped (AsyncRunner K)
  then_timers fuel tq (handled s, log) = conclude (
      execute_timers env.clock env.callbacks env.call fuel 0
        (record { fds = s; timers = env.heard log tq }))
  then_timers fuel tq (escaped s e, log) = thrown
  then_timers fuel tq (lost s fd, log) = faulty
  then_timers fuel tq (ended, log) = aborted

  unfoldable pub step : ℕ → List (ℕ × ℕ) → AsyncRunner K → Stepped (AsyncRunner K)
  step fuel es s = then_timers fuel s.timers (wait_and_handle es s.fds)
