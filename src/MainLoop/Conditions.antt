-- ===== src/MainLoop/Conditions.antt =====
-- What a run of the loop keeps, what it takes for granted, and how its turns may end.
use bb_eventloop.Common.{
  ℕ, ◌*◌, ◌≡◌, ◌≢◌, refl, sym, subst, none, some, List, [], ◌∷◌, Bool, true, false, All, All-map,
  arith, returns,
}
use bb_eventloop.Common.Int.{ℤ, pos, negsuc, ◌-ℤ◌, ◌≤ℤ◌, -ℤ_parts}
use bb_eventloop.Timers.Defs.{Entry, TimerQueue, get_timeout, execute_first_timer, pop_first}
use bb_eventloop.Fds.Defs.{Kernel, Runner}
use bb_eventloop.Fds.Dispatch.{Step}
use bb_eventloop.Fds.Calm.{Uncaught}
use bb_eventloop.MainLoop.Defs.{
  World, timed_out, happened, Environment, Turn, goes_on, stopped, thrown, faulty, aborted, blocked,
  unfinished, Fired, execute_timer, after_wait, wait_and_handle, is_timeout, wait_argument,
}
use bb_eventloop.MainLoop.Waits.{IsNear}
use bb_eventloop.Timers.Invariant
use bb_eventloop.Fds.Registry

-- Less than a millisecond early.
abbrev pub IsDue : ℤ → Entry → Type 0
IsDue now e = e.tte -ℤ now ≤ℤ pos 999

abbrev pub IsPunctual : Fired → Type 0
IsPunctual f = IsDue f.time f.entry

abbrev pub IsFirstDue : List Entry → ℤ → Type 0
IsFirstDue [] now = Unit {0}
IsFirstDue (e ∷ es) now = IsDue now e

abbrev pub IsSoon : ℤ → Entry → Type 0
IsSoon now e = e.tte -ℤ now ≤ℤ pos 2147483647999

-- Valid timers that are due in less than 2 ^ 31 milliseconds, and listeners that agree with the kernel.
pub record IsGood {K : Type 0} (kernel : Kernel K) (w : World K) : Type 0 where
  pub timers : Invariant.IsValid w.timers
  pub soon : All (IsSoon w.now) w.timers.queue
  pub fds : Registry.IsValid kernel w.fds
  pub idle : w.fds.set ≡ []

-- While the runner waits, time passes, and nothing happens to its timers and listeners.
pub record IsWaited {K : Type 0} (w w' : World K) : Type 0 where
  pub same_timers : w'.timers ≡ w.timers
  pub same_fds : w'.fds ≡ w.fds
  pub later : pos 0 ≤ℤ w'.now -ℤ w.now

-- The client's functions use the runner as they may and schedule timers at less than 2 ^ 31 milliseconds,
-- and epoll_wait is as documented: it ends without events only when the time is over,
-- never where the time is negative, and has events of the descriptors that are watched.
pub record IsEnvironment {K : Type 0} (env : Environment K) : Type 0 where
  pub call-IsGood :
      (f : ℕ) (w w' : World K) → env.call f w ≡ some w' → IsGood env.kernel w → IsGood env.kernel w'
  pub uncaught : (fl fd events : ℕ) (s : Runner K) → Uncaught (env.handle fl fd events s)
  pub heard-IsGood :
      (log : List Step) (w : World K) → IsGood env.kernel w → IsGood env.kernel (env.heard log w)
  pub can_continue-IsGood :
      (w w' : World K) (b : Bool)
      → env.can_continue w ≡ some (w', b)
      → IsGood env.kernel w
      → IsGood env.kernel w'
  pub in_time :
      (m : ℕ) (w w' : World K)
      → env.epoll_wait (pos m) w ≡ timed_out w'
      → pos (m * 1000) ≤ℤ w'.now -ℤ w.now
  pub patient : (n : ℕ) (w w' : World K) → env.epoll_wait (negsuc n) w ≢ timed_out w'
  pub waited : (a : ℤ) (w w' : World K) → env.epoll_wait a w ≡ timed_out w' → IsWaited w w'
  pub waited_for :
      (a : ℤ) (w w' : World K) (es : List (ℕ × ℕ))
      → env.epoll_wait a w ≡ happened es w'
      → IsWaited w w'
  pub watched :
      (a : ℤ) (w w' : World K) (es : List (ℕ × ℕ))
      → env.epoll_wait a w ≡ happened es w'
      → All (λ e. env.kernel.watched w'.fds.kernel e.0 ≢ none) es

later-IsSoon : (now now' : ℤ) (e : Entry) → pos 0 ≤ℤ now' -ℤ now → IsSoon now e → IsSoon now' e
later-IsSoon now now' e h k =
    omega (arith, -ℤ_parts now' now, -ℤ_parts e.tte now, -ℤ_parts e.tte now', h, k)

pub waited-IsGood :
    {K : Type 0} (kernel : Kernel K) (w w' : World K)
    → IsWaited w w'
    → IsGood kernel w
    → IsGood kernel w'
waited-IsGood {K = K} kernel w w' h g = record {
  timers = subst Invariant.IsValid (sym h.same_timers) g.timers;
  soon =
      subst (λ (tq : TimerQueue). All (IsSoon w'.now) tq.queue) (sym h.same_timers)
        (All-map (IsSoon w.now) (IsSoon w'.now) (λ e. later-IsSoon w.now w'.now e h.later)
          w.timers.queue g.soon);
  fds = subst (Registry.IsValid kernel) (sym h.same_fds) g.fds;
  idle = subst (λ (s : Runner K). s.set ≡ []) (sym h.same_fds) g.idle;
}

pub pop_first-empty :
    (tq : TimerQueue) → tq.queue ≡ [] → execute_first_timer tq ≡ returns (tq, none)
unfolding execute_first_timer pop_first
pop_first-empty tq e = rw e refl

pub first-IsNear : (es : List Entry) (now : ℤ) → All (IsSoon now) es → IsNear es now
first-IsNear [] now h = tt
first-IsNear (e ∷ es) now h = h.0

module _ {K : Type 0} (env : Environment K) where
  -- The worlds of a turn that ends well are good, and the runner's own code does not fail.
  abbrev pub IsSound : Turn (World K) → Type 0
  IsSound (goes_on w) = IsGood env.kernel w
  IsSound (stopped w) = IsGood env.kernel w
  IsSound thrown = Unit {0}
  IsSound faulty = ⊥
  IsSound aborted = Unit {0}
  IsSound blocked = Unit {0}
  IsSound unfinished = Unit {0}

  abbrev pub IsRight : Turn (World K) × List Fired → Type 0
  IsRight (t, log) = IsSound t × All IsPunctual log

  pub no_wait-eq :
      (w : World K)
      → is_timeout (get_timeout w.timers w.now) ≡ true
      → wait_and_handle env w ≡ execute_timer env w
  unfolding wait_and_handle
  no_wait-eq w h = rw (h, wait_and_handle) refl

  pub wait-eq :
      (w : World K) (a : ℤ)
      → is_timeout (get_timeout w.timers w.now) ≡ false
      → wait_argument (get_timeout w.timers w.now) ≡ a
      → wait_and_handle env w ≡ after_wait env (env.epoll_wait a w)
  unfolding wait_and_handle
  wait-eq w a h e = rw (h, e, wait_and_handle) refl
