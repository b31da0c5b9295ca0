-- ===== src/Examples/Turns.antt =====
-- A runner with the timer of Clocks and the descriptors of Rounds. Its epoll_wait has events of 6 as long as
-- that is watched, and its listener deletes it.
use bb_eventloop.Common.{
  ℕ, ◌*◌, ◌≡◌, ◌≢◌, refl, sym, ◌∙◌, subst, inl, Option, none, some, List, [], ◌∷◌, true, false,
  ◌==◌, if◌then◌else◌, All, arith,
}
use bb_eventloop.Common.Int.{ℤ, pos, negsuc, ◌+ℤ◌, ◌-ℤ◌, ◌≤ℤ◌, -ℤ_parts}
use bb_eventloop.Timers.Defs.{get_timeout}
use bb_eventloop.Fds.Defs.{Runner}
use bb_eventloop.Fds.Dispatch.{Call, del_fd}
use bb_eventloop.MainLoop.Defs.{World, Answer, timed_out, happened, waits_on, Environment, run}
use bb_eventloop.MainLoop.Waits.{WaitsFor, wait_lem}
use bb_eventloop.MainLoop.Conditions.{IsGood, IsWaited, IsEnvironment, IsRight}
use bb_eventloop.MainLoop.Punctual.{run_lem}
use bb_eventloop.MainLoop.Firing.{Executes, fires_lem, far_timer_fires}
use bb_eventloop.Runners.{disarmed}
use bb_eventloop.Fds.Calm.{Uncaught}
use bb_eventloop.Runners.Turn
use bb_eventloop.Examples.Clocks.{entry, one, one-IsValid}
use bb_eventloop.Examples.Rounds.{Watches, kernel, runner, runner-IsValid}

abbrev on_event : ℕ → ℕ → ℕ → Runner Watches → List Call
on_event fl fd events s = if fl == 60 then (del_fd 6, false) ∷ [] else []

abbrev waited_for : ℤ → World Watches → Answer (World Watches)
waited_for (pos m) w = timed_out (record w { now = w.now +ℤ pos (m * 1000) })
waited_for (negsuc n) w = waits_on

abbrev answer : Option ℕ → ℤ → World Watches → Answer (World Watches)
answer none a w = waited_for a w
answer (some events) a w = happened ((6, 1) ∷ []) w

abbrev env : Environment Watches
env = record {
  kernel = kernel;
  call = λ f w. some w;
  handle = on_event;
  heard = λ log w. w;
  can_continue = λ w. some (w, true);
  epoll_wait = λ a w. answer (w.fds.kernel 6) a w;
}

passed : (a : ℤ) (m : ℕ) → pos m ≤ℤ (a +ℤ pos m) -ℤ a
unfolding ◌+ℤ◌ ◌-ℤ◌
passed (pos a) m = ground arith
passed (negsuc a) m = ground arith

in_time :
    (o : Option ℕ) (m : ℕ) (w w' : World Watches)
    → answer o (pos m) w ≡ timed_out w'
    → pos (m * 1000) ≤ℤ w'.now -ℤ w.now
in_time none m w w' e =
    let same : record w { now = w.now +ℤ pos (m * 1000) } ≡ w' = cc in
    subst (λ u. pos (m * 1000) ≤ℤ u.now -ℤ w.now) same (passed w.now (m * 1000))
in_time (some events) m w w' e = absurd cc

patient : (o : Option ℕ) (n : ℕ) (w w' : World Watches) → answer o (negsuc n) w ≢ timed_out w'
patient none n w w' e = cc
patient (some events) n w w' e = cc

nothing_lost : (w : World Watches) → IsWaited w w
nothing_lost w = record {
  same_timers = refl;
  same_fds = refl;
  later = omega (arith, -ℤ_parts w.now w.now);
}

waited_lem :
    (o : Option ℕ) (a : ℤ) (w w' : World Watches) → answer o a w ≡ timed_out w' → IsWaited w w'
waited_lem none (pos m) w w' e =
    let same : record w { now = w.now +ℤ pos (m * 1000) } ≡ w' = cc in
    let p = passed w.now (m * 1000) in
    subst (IsWaited w) same
      (record { same_timers = refl; same_fds = refl; later = omega (arith, p) })
waited_lem none (negsuc n) w w' e = absurd cc
waited_lem (some events) a w w' e = absurd cc

never_empty : (a : ℤ) (w w' : World Watches) (es : List (ℕ × ℕ)) → waited_for a w ≢ happened es w'
never_empty (pos m) w w' es e = cc
never_empty (negsuc n) w w' es e = cc

happened-IsWaited :
    (o : Option ℕ) (a : ℤ) (w w' : World Watches) (es : List (ℕ × ℕ))
    → answer o a w ≡ happened es w'
    → IsWaited w w'
happened-IsWaited none a w w' es e = absurd (never_empty a w w' es e)
happened-IsWaited (some events) a w w' es e =
    let same : w ≡ w' = cc in subst (IsWaited w) same (nothing_lost w)

watched_lem :
    (o : Option ℕ) (a : ℤ) (w w' : World Watches) (es : List (ℕ × ℕ))
    → w.fds.kernel 6 ≡ o
    → answer o a w ≡ happened es w'
    → All (λ e. w'.fds.kernel e.0 ≢ none) es
watched_lem none a w w' es at e = absurd (never_empty a w w' es e)
watched_lem (some events) a w w' es at e =
    let same : w ≡ w' = cc in
    let events_of_6 : (6, 1) ∷ [] ≡ es = cc in
    subst (All (λ e. w'.fds.kernel e.0 ≢ none)) events_of_6
      (subst (λ u. u.fds.kernel 6 ≢ none) same (λ n. let q = sym at ∙ n in cc), tt)

on_event-Uncaught : (fl fd events : ℕ) (s : Runner Watches) → Uncaught (on_event fl fd events s)
on_event-Uncaught fl fd events s = ground arith

env-IsEnvironment : IsEnvironment env
env-IsEnvironment = record {
  call-IsGood = λ f w w' e g. let same : w ≡ w' = cc in subst (IsGood kernel) same g;
  uncaught = on_event-Uncaught;
  heard-IsGood = λ log w g. g;
  can_continue-IsGood = λ w w' b e g. let same : w ≡ w' = cc in subst (IsGood kernel) same g;
  in_time = λ m w w'. in_time (w.fds.kernel 6) m w w';
  patient = λ n w w'. patient (w.fds.kernel 6) n w w';
  waited = λ a w w'. waited_lem (w.fds.kernel 6) a w w';
  waited_for = λ a w w' es. happened-IsWaited (w.fds.kernel 6) a w w' es;
  watched = λ a w w' es. watched_lem (w.fds.kernel 6) a w w' es refl;
}

abbrev world : World Watches
world = record {
  callbacks = record { queue = 5 ∷ []; wake_up = true };
  timers = one;
  fds = runner;
  now = pos 20;
}

world-IsGood : IsGood kernel world
unfolding ◌-ℤ◌
world-IsGood = record {
  timers = one-IsValid;
  soon = (omega arith, tt);
  fds = runner-IsValid;
  idle = refl;
}

run_example : IsRight env (run env 4 3 world)
run_example = run_lem env env-IsEnvironment 4 3 world world-IsGood

wait_example : WaitsFor one.queue (pos 20) (get_timeout one (pos 20))
wait_example = wait_lem one (pos 20) one-IsValid world-IsGood.soon.0

fires_example : Executes env world entry (pos 20)
unfolding ◌-ℤ◌
fires_example = fires_lem env world world entry [] world-IsGood refl (inl (omega arith, refl))

abbrev unwatched : Runner Watches
unwatched = record { map = []; kernel = λ g. none; add_count = 0; monitoring = false; set = [] }

abbrev long_before : World Watches
long_before = record world { fds = unwatched; now = negsuc 4294967295949 }

far_timer_fires_example : Executes env long_before entry (long_before.now +ℤ pos 0)
unfolding ◌-ℤ◌
far_timer_fires_example =
    far_timer_fires env long_before (record long_before { now = long_before.now +ℤ pos 0 }) entry []
      0 one-IsValid refl refl (omega arith) refl refl

abbrev async_env : Turn.Environment Watches
async_env = record {
  kernel = kernel;
  handle = on_event;
  heard = λ log tq. tq;
  clock = λ k. pos 60;
  callbacks = λ n h. some h;
  call = λ f h. if f == 9 then none else some h;
}

abbrev async : Turn.AsyncRunner Watches
async = record { fds = runner; timers = one; timer_fd = disarmed }
