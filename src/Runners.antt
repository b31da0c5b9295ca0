-- ===== src/Runners.antt =====
-- src/lib/AsyncRunner.cpp: a step of the runner, and what it does with its callbacks and its timers after a round of
-- events.
pub mod Settle
pub mod Turn
pub mod Stepping
use bb_eventloop.Common.{
  ℕ, zero, suc, Option, none, some, Bool, true, false, ◌==◌, if◌then◌else◌, returns, throws,
  undefined,
}
use bb_eventloop.Common.Int.{ℤ, pos, negsuc, ltb_ℤ}
use bb_eventloop.Fds.Defs.{Runner}
use bb_eventloop.Timers.Defs.{TimerQueue, no_timeout, get_timeout, execute_first_timer}

-- What the timer file descriptor is told last.
pub data TimerFd : Type 0 where
  disarmed : TimerFd
  armed : ℤ → TimerFd

-- One millisecond
abbrev pub min_timeout : ℤ
min_timeout = pos 1000

abbrev pub eqb_ℤ : ℤ → ℤ → Bool
eqb_ℤ (pos a) (pos b) = a == b
eqb_ℤ (pos a) (negsuc b) = false
eqb_ℤ (negsuc a) (pos b) = false
eqb_ℤ (negsuc a) (negsuc b) = a == b

-- What the callbacks of a client work on: the listeners and the timers.
pub record Held (K : Type 0) : Type 0 where
  pub fds : Runner K
  pub timers : TimerQueue

-- How executeTimersAndUpdateTimer ends: with the timer descriptor set, by an exception of a callback, by a
-- failure of the runner's own code, or not within the fuel.
pub data Executed (S : Type 0) : Type 0 where
  settled : S → TimerFd → Executed S
  thrown faulty unfinished : Executed S

-- The clock and what the callbacks of the queue leave, by the number of the iteration, and what the callback of a
-- timer leaves; `none` where one throws.
module _ {K : Type 0} (clock : ℕ → ℤ) (callbacks : ℕ → Held K → Option (Held K))
    (call : ℕ → Held K → Option (Held K)) where
  -- executeTimersAndUpdateTimer, from iteration `n` on.
  unfoldable pub execute_timers : ℕ → ℕ → Held K → Executed (Held K)
  execute_timers zero n h = unfinished
  execute_timers (suc fuel) n h = elim (callbacks n h) [
    | none ↦ thrown
    | some h₁ ↦
        let timeout = get_timeout h₁.timers (clock n) in
        if eqb_ℤ timeout no_timeout
        then settled h₁ disarmed
        else if ltb_ℤ timeout min_timeout
        then elim (execute_first_timer h₁.timers) [
          | returns r ↦ elim r.1 [
            | none ↦ execute_timers fuel (suc n) (record h₁ { timers = r.0 })
            | some f ↦ elim (call f (record h₁ { timers = r.0 })) [
              | none ↦ thrown
              | some h₂ ↦ execute_timers fuel (suc n) h₂
            ]
          ]
          | throws e ↦ faulty
          | undefined ↦ faulty
        ]
        else settled h₁ (armed timeout)
  ]
