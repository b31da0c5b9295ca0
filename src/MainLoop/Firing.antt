-- ===== src/MainLoop/Firing.antt =====
-- The timer that a wait ends for is executed, and one that is too far ahead is executed as well.
use bb_eventloop.Common.{
  ℕ, ◌+◌, ◌<◌, ◌≡◌, refl, sym, ap, subst, ◌∙◌, ◌⊎◌, inl, inr, some, List, [], ◌∷◌, false, arith,
  if◌then◌else◌,
}
use bb_eventloop.Common.Int.{ℤ, pos, ◌-ℤ◌, ◌≤ℤ◌, ltb_ℤ, -ℤ_parts}
use bb_eventloop.Timers.Defs.{Entry, get_timeout}
use bb_eventloop.Timers.Invariant.{IsValid}
use bb_eventloop.Timers.Contract.{execute_first_timer_lem, get_timeout_lem}
use bb_eventloop.MainLoop.Defs.{
  World, timed_out, Environment, fired_of, execute_timer, after_wait, wait_and_handle, is_timeout,
  wait_argument,
}
use bb_eventloop.MainLoop.Waits.{WaitsFor, wait_lem, wait_argument-wraps, is_timeout_lem}
use bb_eventloop.MainLoop.Conditions.{IsDue, IsGood, first-IsNear, no_wait-eq, wait-eq}

-- The wait of a turn has ended for the first timer: it was due before, or epoll_wait timed out.
abbrev pub IsElapsed : {K : Type 0} → Environment K → World K → Entry → World K → Type 0
IsElapsed env w e w' =
    (IsDue w.now e × (w' ≡ w))
    ⊎ ((pos 1000 ≤ℤ e.tte -ℤ w.now)
        × (env.epoll_wait (wait_argument (get_timeout w.timers w.now)) w ≡ timed_out w')
        × (w'.timers ≡ w.timers))

-- What is executed in a turn: the first timer alone.
abbrev pub Executes : {K : Type 0} → Environment K → World K → Entry → ℤ → Type 0
Executes env w e time =
    (f : ℕ) × (w.timers.cb e.timer ≡ some f)
    × ((wait_and_handle env w).1 ≡ record { callback = f; entry = e; time = time } ∷ [])

module _ {K : Type 0} (env : Environment K) where
  execute_timer-log :
      (w : World K) (e : Entry) (es : List Entry)
      → IsValid w.timers
      → w.timers.queue ≡ e ∷ es
      → (f : ℕ) × (w.timers.cb e.timer ≡ some f)
        × ((execute_timer env w).1 ≡ record { callback = f; entry = e; time = w.now } ∷ [])
  unfolding execute_timer
  execute_timer-log w e es v at =
      let (tq, f, done, cb, first, valid, queue, out, unset) =
        execute_first_timer_lem w.timers e es v at in
      (f, cb, rw (done, execute_timer) (ap (λ ds. fired_of ds f w.now) at))

  timed_out-log :
      (w w' : World K) (a : ℤ)
      → is_timeout (get_timeout w.timers w.now) ≡ false
      → wait_argument (get_timeout w.timers w.now) ≡ a
      → env.epoll_wait a w ≡ timed_out w'
      → (wait_and_handle env w).1 ≡ (execute_timer env w').1
  timed_out-log w w' a h k o = ap (λ t. t.1) (wait-eq env w a h k ∙ ap (after_wait env) o)

  fires_after :
      (w w' : World K) (a : ℤ) (e : Entry) (es : List Entry)
      → IsValid w.timers
      → w.timers.queue ≡ e ∷ es
      → is_timeout (get_timeout w.timers w.now) ≡ false
      → wait_argument (get_timeout w.timers w.now) ≡ a
      → env.epoll_wait a w ≡ timed_out w'
      → w'.timers ≡ w.timers
      → Executes env w e w'.now
  fires_after w w' a e es v at h k o same =
      let (f, cb, log) =
        execute_timer-log w' e es (subst IsValid (sym same) v) (ap (λ tq. tq.queue) same ∙ at) in
      (f, sym (ap (λ tq. tq.cb e.timer) same) ∙ cb, timed_out-log w w' a h k o ∙ log)

  -- In a turn of a good state with a first timer, where it is due before the wait or the wait
  -- times out without a change of the timers: exactly that timer is executed, with its callback.
  pub fires_lem :
      (w w' : World K) (e : Entry) (es : List Entry)
      → IsGood env.kernel w
      → w.timers.queue ≡ e ∷ es
      → IsElapsed env w e w'
      → Executes env w e w'.now
  fires_lem w w' e es g at ended =
      let wait = wait_lem w.timers w.now g.timers (first-IsNear w.timers.queue w.now g.soon) in
      go ended (subst (λ ds. WaitsFor ds w.now (get_timeout w.timers w.now)) at wait)
    where
      go :
          IsElapsed env w e w'
          → WaitsFor (e ∷ es) w.now (get_timeout w.timers w.now)
          → Executes env w e w'.now
      go (inl (due, same)) (inl (now, le)) =
          let (f, cb, log) = execute_timer-log w e es g.timers at in
          (
            f,
            cb,
            ap (λ t. t.1) (no_wait-eq env w now)
                ∙ log
                ∙ ap (λ u. record { callback = f; entry = e; time = u.now } ∷ []) (sym same),
          )
      go (inl (due, same)) (inr (wait, (m, told, least, most))) = absurd (omega (arith, due, least))
      go (inr (far, over, same)) (inl (now, le)) = absurd (omega (arith, far, le))
      go (inr (far, over, same)) (inr (wait, (m, told, least, most))) =
          fires_after w w' _ e es g.timers at wait refl over same

  -- A valid timer queue whose first timer is due in 2 ^ 32 milliseconds, almost fifty days, or less than
  -- a millisecond more, where epoll_wait times out at once for a time of 0: that timer is executed in this turn,
  -- at the time when that wait ends.
  pub far_timer_fires :
      (w w' : World K) (e : Entry) (es : List Entry) (d : ℕ)
      → IsValid w.timers
      → w.timers.queue ≡ e ∷ es
      → e.tte -ℤ w.now ≡ pos (4294967296000 + d)
      → d < 1000
      → env.epoll_wait (pos 0) w ≡ timed_out w'
      → w'.timers ≡ w.timers
      → Executes env w e w'.now
  far_timer_fires w w' e es d v at left small over same =
      let (timeout, nonneg, first) = get_timeout_lem w.timers w.now e es v at in
      let late : ltb_ℤ e.tte w.now ≡ false = ground (arith, -ℤ_parts e.tte w.now, left) in
      let full : get_timeout w.timers w.now ≡ pos (4294967296000 + d) =
        timeout ∙ ap (λ b. if b then pos 0 else e.tte -ℤ w.now) late ∙ left in
      let long : ltb_ℤ (pos (4294967296000 + d)) (pos 1000) ≡ false = ground arith in
      fires_after w w' (pos 0) e es v at
        (ap is_timeout full ∙ is_timeout_lem (4294967296000 + d) ∙ long)
        (ap wait_argument full ∙ wait_argument-wraps (4294967296000 + d) d small refl) over same
