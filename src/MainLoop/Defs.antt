-- ===== src/MainLoop/Defs.antt =====
-- The loop of EpollRunner::runImpl over the timers, the callback queue and the listeners. What is not the
-- runner's own is the record `Environment`: the functions of the client that it calls, and epoll_wait.
use bb_eventloop.Common.{
  ℕ, zero, suc, ◌-◌, ◌/◌, ◌%◌, Option, none, some, List, [], ◌∷◌, ◌++◌, Bool, true, false, ltb,
  if◌then◌else◌, returns, throws, undefined,
}
use bb_eventloop.Common.Int.{ℤ, pos, negsuc, ltb_ℤ}
use bb_eventloop.Timers.Defs.{Entry, TimerQueue, no_timeout, get_timeout, execute_first_timer}
use bb_eventloop.Callbacks.{CallbackQueue, pop}
use bb_eventloop.Fds.Defs.{Kernel, Runner}
use bb_eventloop.Fds.Dispatch.{Call, Step, Round, handled, escaped, lost, ended, handle_events}
use bb_eventloop.Runners.{min_timeout, eqb_ℤ}

abbrev pub minus : ℕ → ℤ
minus zero = pos 0
minus (suc n) = negsuc n

-- time_duration::total_milliseconds: the division drops the fraction.
unfoldable pub total_milliseconds : ℤ → ℤ
total_milliseconds (pos n) = pos (n / 1000)
total_milliseconds (negsuc n) = minus (suc n / 1000)

-- static_cast<int>, to 32 bits in two's complement.
abbrev pub int_mod : ℕ
int_mod = 4294967296

abbrev pub int_limit : ℕ
int_limit = 2147483648

unfoldable pub signed : ℕ → ℤ
signed n = if ltb n int_limit then pos n else negsuc (int_mod - n - 1)

unfoldable pub to_int : ℤ → ℤ
to_int (pos n) = signed (n % int_mod)
to_int (negsuc n) = signed (int_mod - 1 - n % int_mod)

unfoldable pub is_timeout : ℤ → Bool
is_timeout timeout = if eqb_ℤ timeout no_timeout then false else ltb_ℤ timeout min_timeout

-- The argument of epoll_wait
unfoldable pub wait_argument : ℤ → ℤ
wait_argument timeout = to_int (total_milliseconds timeout)

-- The state of a runner, and the time of the monotonic clock.
pub record World (K : Type 0) : Type 0 where
  pub callbacks : CallbackQueue
  pub timers : TimerQueue
  pub fds : Runner K
  pub now : ℤ

-- How epoll_wait ends: without events at the end of the time, with events, with an exception, or not at all.
-- The world is the one that the runner finds then, as another thread may add callbacks.
pub data Answer (W : Type 0) : Type 0 where
  timed_out : W → Answer W
  happened : List (ℕ × ℕ) → W → Answer W
  refused : Answer W
  waits_on : Answer W

-- A function of the client gives nothing where an exception leaves it. `heard` is what the listeners of a
-- round do besides their calls of the runner for listeners, which `handle` gives.
pub record Environment (K : Type 0) : Type 1 where
  pub kernel : Kernel K
  pub call : ℕ → World K → Option (World K)
  pub handle : ℕ → ℕ → ℕ → Runner K → List Call
  pub heard : List Step → World K → World K
  pub can_continue : World K → Option (World K × Bool)
  pub epoll_wait : ℤ → World K → Answer (World K)

-- How a turn of the loop ends: the loop goes on, it was told to stop, an exception of the client or of
-- epoll_wait leaves it, its own code fails, the process ends, or the wait or the fuel does not end.
pub data Turn (W : Type 0) : Type 0 where
  goes_on : W → Turn W
  stopped : W → Turn W
  thrown : Turn W
  faulty : Turn W
  aborted : Turn W
  blocked : Turn W
  unfinished : Turn W

-- A timer that was executed: its callback, its entry and the time.
pub record Fired : Type 0 where
  pub callback : ℕ
  pub entry : Entry
  pub time : ℤ

abbrev pub fired_of : List Entry → ℕ → ℤ → List Fired
fired_of [] f now = []
fired_of (e ∷ es) f now = record { callback = f; entry = e; time = now } ∷ []

module _ {K : Type 0} (env : Environment K) where
  abbrev pub after_call : Option (World K) → Turn (World K)
  after_call none = thrown
  after_call (some w) = goes_on w

  -- CallbackQueue::execute: the turn, and whether there was a callback.
  unfoldable pub execute_callbacks : ℕ → World K → Turn (World K) × Bool
  execute_callbacks zero w = (unfinished, false)
  execute_callbacks (suc fuel) w = elim (pop w.callbacks).1 [
    | none ↦ (goes_on w, false)
    | some c ↦ elim (env.call c (record w { callbacks = (pop w.callbacks).0 })) [
      | none ↦ (thrown, true)
      | some w' ↦ ((execute_callbacks fuel w').0, true)
    ]
  ]

  -- executeFirstTimer
  unfoldable pub execute_timer : World K → Turn (World K) × List Fired
  execute_timer w = elim (execute_first_timer w.timers) [
    | throws e ↦ (faulty, [])
    | undefined ↦ (faulty, [])
    | returns r ↦ elim r.1 [
      | none ↦ (goes_on (record w { timers = r.0 }), [])
      | some f ↦
          (after_call (env.call f (record w { timers = r.0 })), fired_of w.timers.queue f w.now)
    ]
  ]

  abbrev pub after_round : World K → List Step → Round (Runner K) → Turn (World K)
  after_round w log (handled s) = goes_on (env.heard log (record w { fds = s }))
  after_round w log (escaped s e) = thrown
  after_round w log (lost s fd) = faulty
  after_round w log ended = aborted

  unfoldable pub hand_out : List (ℕ × ℕ) → World K → Turn (World K)
  hand_out events w =
      let round = handle_events env.kernel env.handle w.fds events in after_round w round.1 round.0

  abbrev pub after_wait : Answer (World K) → Turn (World K) × List Fired
  after_wait (timed_out w) = execute_timer w
  after_wait (happened events w) = (hand_out events w, [])
  after_wait refused = (thrown, [])
  after_wait waits_on = (blocked, [])

  -- From the timeout on to the end of the loop's body.
  unfoldable pub wait_and_handle : World K → Turn (World K) × List Fired
  wait_and_handle w =
      let timeout = get_timeout w.timers w.now in
      if is_timeout timeout
      then execute_timer w
      else after_wait (env.epoll_wait (wait_argument timeout) w)

  -- The call of canContinue, if the turn has got that far.
  abbrev pub asked : Option (World K × Bool) → Turn (World K)
  asked none = thrown
  asked (some (w, true)) = goes_on w
  asked (some (w, false)) = stopped w

  abbrev pub ask : Turn (World K) → Turn (World K)
  ask (goes_on w) = asked (env.can_continue w)
  ask (stopped w) = stopped w
  ask thrown = thrown
  ask faulty = faulty
  ask aborted = aborted
  ask blocked = blocked
  ask unfinished = unfinished

  abbrev pub ask_if : Bool → Turn (World K) → Turn (World K)
  ask_if true t = ask t
  ask_if false t = t

  abbrev pub ask_behind : Turn (World K) × List Fired → Turn (World K) × List Fired
  ask_behind (t, log) = (ask t, log)

  abbrev pub then_wait : Turn (World K) → Turn (World K) × List Fired
  then_wait (goes_on w) = ask_behind (wait_and_handle w)
  then_wait (stopped w) = (stopped w, [])
  then_wait thrown = (thrown, [])
  then_wait faulty = (faulty, [])
  then_wait aborted = (aborted, [])
  then_wait blocked = (blocked, [])
  then_wait unfinished = (unfinished, [])

  unfoldable pub turn : ℕ → World K → Turn (World K) × List Fired
  turn fuel w = let (t, any) = execute_callbacks fuel w in then_wait (ask_if any t)

  abbrev pub proceed :
      (World K → Turn (World K) × List Fired)
      → Turn (World K) × List Fired
      → Turn (World K) × List Fired
  proceed f (goes_on w, log) = ((f w).0, log ++ (f w).1)
  proceed f (stopped w, log) = (stopped w, log)
  proceed f (thrown, log) = (thrown, log)
  proceed f (faulty, log) = (faulty, log)
  proceed f (aborted, log) = (aborted, log)
  proceed f (blocked, log) = (blocked, log)
  proceed f (unfinished, log) = (unfinished, log)

  -- runImpl: so many turns at most, each with `fuel` for its callbacks, and the timers that were executed.
  unfoldable pub run : ℕ → ℕ → World K → Turn (World K) × List Fired
  run zero fuel w = (unfinished, [])
  run (suc turns) fuel w = proceed (run turns fuel) (turn fuel w)
