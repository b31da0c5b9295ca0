-- ===== src/MainLoop/Punctual.antt =====
-- The timers that a run of the loop executes are due, and the loop does not fail by itself.
use bb_eventloop.Common.{
  ℕ, zero, suc, ◌≡◌, refl, Option, none, some, List, Bool, true, false, All-append,
}
use bb_eventloop.MainLoop.Defs.{
  World, Environment, Turn, goes_on, stopped, thrown, faulty, aborted, blocked, unfinished, Fired,
  execute_callbacks, wait_and_handle, asked, ask, ask_if, then_wait, turn, proceed, run,
}
use bb_eventloop.MainLoop.Conditions.{IsPunctual, IsGood, IsEnvironment, IsSound, IsRight}
use bb_eventloop.MainLoop.Bodies.{execute_callbacks_lem, wait_and_handle_lem}

module _ {K : Type 0} (env : Environment K) (env_ok : IsEnvironment env) where
  abbrev Good : World K → Type 0
  Good = IsGood env.kernel

  asked-IsSound :
      (w : World K) (o : Option (World K × Bool))
      → env.can_continue w ≡ o
      → Good w
      → IsSound env (asked env o)
  asked-IsSound w none e g = tt
  asked-IsSound w (some (w', true)) e g = env_ok.can_continue-IsGood w w' true e g
  asked-IsSound w (some (w', false)) e g = env_ok.can_continue-IsGood w w' false e g

  ask-IsSound : (t : Turn (World K)) → IsSound env t → IsSound env (ask env t)
  ask-IsSound (goes_on w) g = asked-IsSound w (env.can_continue w) refl g
  ask-IsSound (stopped w) g = g
  ask-IsSound thrown g = tt
  ask-IsSound faulty g = g
  ask-IsSound aborted g = tt
  ask-IsSound blocked g = tt
  ask-IsSound unfinished g = tt

  ask_if-IsSound : (b : Bool) (t : Turn (World K)) → IsSound env t → IsSound env (ask_if env b t)
  ask_if-IsSound true t g = ask-IsSound t g
  ask_if-IsSound false t g = g

  then_wait-IsRight : (t : Turn (World K)) → IsSound env t → IsRight env (then_wait env t)
  then_wait-IsRight (goes_on w) g =
      let (sound, fired) = wait_and_handle_lem env env_ok w g in
      (ask-IsSound (wait_and_handle env w).0 sound, fired)
  then_wait-IsRight (stopped w) g = (g, tt)
  then_wait-IsRight thrown g = (tt, tt)
  then_wait-IsRight faulty g = absurd g
  then_wait-IsRight aborted g = (tt, tt)
  then_wait-IsRight blocked g = (tt, tt)
  then_wait-IsRight unfinished g = (tt, tt)

  turn_lem : (fuel : ℕ) (w : World K) → Good w → IsRight env (turn env fuel w)
  unfolding turn
  turn_lem fuel w g =
      let (t, any) = execute_callbacks env fuel w in
      then_wait-IsRight (ask_if env any t)
        (ask_if-IsSound any t (execute_callbacks_lem env env_ok fuel w g))

  proceed-IsRight :
      (f : World K → Turn (World K) × List Fired) (t : Turn (World K) × List Fired)
      → ((w : World K) → Good w → IsRight env (f w))
      → IsRight env t
      → IsRight env (proceed env f t)
  proceed-IsRight f (goes_on w, log) h (g, all) =
      let (sound, more) = h w g in (sound, All-append IsPunctual log (f w).1 all more)
  proceed-IsRight f (stopped w, log) h g = g
  proceed-IsRight f (thrown, log) h g = g
  proceed-IsRight f (faulty, log) h g = g
  proceed-IsRight f (aborted, log) h g = g
  proceed-IsRight f (blocked, log) h g = g
  proceed-IsRight f (unfinished, log) h g = g

  -- A run of EpollRunner, of any number of turns, that starts with valid timers, due in less than 2
  -- ^ 31 milliseconds, and with a listener map that agrees with the kernel, where the client's
  -- functions keep that, its listeners catch no exception of the runner's calls, and epoll_wait
  -- does not end before its time: every timer that is executed is due, or less than a millisecond
  -- early. The runner's own code does not fail: no get of a listener and no use of an iterator
  -- does. Where the run stops or may go on, the same holds of the timers and of the map.
  pub run_lem :
      (turns fuel : ℕ) (w : World K) → IsGood env.kernel w → IsRight env (run env turns fuel w)
  unfolding run
  run_lem zero fuel w g = (tt, tt)
  run_lem (suc turns) fuel w g =
      proceed-IsRight (run env turns fuel) (turn env fuel w) (run_lem turns fuel)
        (turn_lem fuel w g)
