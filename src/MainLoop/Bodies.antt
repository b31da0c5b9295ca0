-- ===== src/MainLoop/Bodies.antt =====
-- The parts of a turn: the callbacks, the first timer, the events and the wait.
use bb_eventloop.Common.{
  ℕ, zero, suc, ◌+◌, ◌*◌, ◌≡◌, ◌≢◌, refl, sym, ap, subst, ◌∙◌, inl, inr, Option, none, some, List,
  [], ◌∷◌, Option-cases, All, arith,
}
use bb_eventloop.Common.Int.{ℤ, pos, negsuc, ◌-ℤ◌, ◌≤ℤ◌, -ℤ_parts}
use bb_eventloop.Timers.Defs.{Entry, TimerQueue, get_timeout}
use bb_eventloop.Timers.Contract.{execute_first_timer_lem}
use bb_eventloop.Callbacks.{CallbackQueue, pop}
use bb_eventloop.Fds.Defs.{Runner}
use bb_eventloop.Fds.Dispatch.{Step, Round, handled, escaped, lost, ended, handle_events}
use bb_eventloop.Fds.Actions.{Calm}
use bb_eventloop.Fds.Calm.{handle_events-Calm}
use bb_eventloop.Fds.Round.{RoundResult, handle_events_lem}
use bb_eventloop.MainLoop.Defs.{
  World, Answer, timed_out, happened, refused, waits_on, Environment, fired_of, after_call,
  execute_callbacks, execute_timer, after_round, hand_out, after_wait, wait_and_handle,
}
use bb_eventloop.MainLoop.Waits.{WaitsFor, wait_lem}
use bb_eventloop.Timers.Invariant
use bb_eventloop.MainLoop.Conditions.{
  IsDue, IsPunctual, IsFirstDue, IsSoon, IsGood, IsEnvironment, waited-IsGood, first-IsNear,
  IsSound, IsRight, no_wait-eq, wait-eq, pop_first-empty,
}

module _ {K : Type 0} (env : Environment K) (env_ok : IsEnvironment env) where
  abbrev Good : World K → Type 0
  Good = IsGood env.kernel

  set_callbacks-IsGood :
      (w : World K) (q : CallbackQueue) → Good w → Good (record w { callbacks = q })
  set_callbacks-IsGood w q g = record {
    timers = g.timers;
    soon = g.soon;
    fds = g.fds;
    idle = g.idle;
  }

  after_call-IsSound :
      (f : ℕ) (w : World K) (o : Option (World K))
      → env.call f w ≡ o
      → Good w
      → IsSound env (after_call env o)
  after_call-IsSound f w none e g = tt
  after_call-IsSound f w (some w') e g = env_ok.call-IsGood f w w' e g

  pub execute_callbacks_lem :
      (fuel : ℕ) (w : World K) → Good w → IsSound env (execute_callbacks env fuel w).0
  unfolding execute_callbacks
  execute_callbacks_lem zero w g = tt
  execute_callbacks_lem (suc fuel) w g =
      let popped : World K = record w { callbacks = (pop w.callbacks).0 } in
      elim (Option-cases (pop w.callbacks).1) [
        | inl e ↦ rw (e, execute_callbacks, IsSound) g
        | inr (c, at) ↦ elim (Option-cases (env.call c popped)) [
          | inl e ↦ rw (at, e, execute_callbacks, IsSound) tt
          | inr (w', e) ↦
              rw (at, e, execute_callbacks, IsSound)
                (execute_callbacks_lem fuel w'
                  (env_ok.call-IsGood c popped w' e (set_callbacks-IsGood w (pop w.callbacks).0 g)))
        ]
      ]

  set_timers-IsGood :
      (w : World K) (tq : TimerQueue)
      → Invariant.IsValid tq
      → All (IsSoon w.now) tq.queue
      → Good w
      → Good (record w { timers = tq })
  set_timers-IsGood w tq v s g = record { timers = v; soon = s; fds = g.fds; idle = g.idle }

  execute_timer_lem :
      (w : World K) → Good w → IsFirstDue w.timers.queue w.now → IsRight env (execute_timer env w)
  unfolding execute_timer
  execute_timer_lem w g due = go w.timers.queue refl
    where
      go : (es : List Entry) → w.timers.queue ≡ es → IsRight env (execute_timer env w)
      go [] at =
          rw (pop_first-empty w.timers at, execute_timer)
            (set_timers-IsGood w w.timers g.timers g.soon g, tt)
      go (e ∷ es) at =
          let (tq, f, done, cb, first, valid, queue, out, unset) =
            execute_first_timer_lem w.timers e es g.timers at in
          let soon : All (IsSoon w.now) (e ∷ es) = subst (All (IsSoon w.now)) at g.soon in
          let left : World K = record w { timers = tq } in
          let good : Good left =
            set_timers-IsGood w tq valid (subst (All (IsSoon w.now)) (sym queue) soon.1) g in
          let fired : All IsPunctual (fired_of w.timers.queue f w.now) =
            subst (λ ds. All IsPunctual (fired_of ds f w.now)) (sym at)
              (subst (λ ds. IsFirstDue ds w.now) at due, tt) in
          rw (done, execute_timer) (after_call-IsSound f left (env.call f left) refl good, fired)

  after_round-IsSound :
      (w : World K) (es : List (ℕ × ℕ)) (log : List Step) (r : Round (Runner K))
      → Good w
      → Calm log
      → RoundResult env.kernel es (r, log)
      → IsSound env (after_round env w log r)
  after_round-IsSound w es log (handled s) g calm (valid, tracked, off, none_left, fresh, all) =
      env_ok.heard-IsGood log (record w { fds = s })
        (record { timers = g.timers; soon = g.soon; fds = valid calm; idle = none_left })
  after_round-IsSound w es log (escaped s e) g calm h = tt
  after_round-IsSound w es log (lost s fd) g calm h = h
  after_round-IsSound w es log ended g calm h = tt

  hand_out_lem :
      (w : World K) (es : List (ℕ × ℕ))
      → Good w
      → All (λ e. env.kernel.watched w.fds.kernel e.0 ≢ none) es
      → IsSound env (hand_out env es w)
  unfolding hand_out
  hand_out_lem w es g h =
      let round = handle_events env.kernel env.handle w.fds es in
      after_round-IsSound w es round.1 round.0 g
        (handle_events-Calm env.kernel env.handle env_ok.uncaught w.fds es)
        (handle_events_lem env.kernel env.handle w.fds es g.fds g.idle h)

  -- The end of a wait of as long as epoll_wait was told.
  after_wait_lem :
      (w : World K) (a : ℤ) (o : Answer (World K))
      → env.epoll_wait a w ≡ o
      → Good w
      → ((w' : World K) → env.epoll_wait a w ≡ timed_out w' → IsFirstDue w'.timers.queue w'.now)
      → IsRight env (after_wait env o)
  after_wait_lem w a (timed_out w') e g due =
      execute_timer_lem w' (waited-IsGood env.kernel w w' (env_ok.waited a w w' e) g) (due w' e)
  after_wait_lem w a (happened es w') e g due = (
    hand_out_lem w' es (waited-IsGood env.kernel w w' (env_ok.waited_for a w w' es e) g)
        (env_ok.watched a w w' es e),
    tt,
  )
  after_wait_lem w a refused e g due = (tt, tt)
  after_wait_lem w a waits_on e g due = (tt, tt)

  no_limit : (w w' : World K) (a : ℤ) (n : ℕ) → a ≡ negsuc n → env.epoll_wait a w ≡ timed_out w' → ⊥
  no_limit w w' a n e h = env_ok.patient n w w' (subst (λ b. env.epoll_wait b w ≡ timed_out w') e h)

  time_over :
      (w w' : World K) (e : Entry) (es : List Entry) (m : ℕ)
      → w.timers.queue ≡ e ∷ es
      → e.tte -ℤ w.now ≤ℤ pos (m * 1000 + 999)
      → env.epoll_wait (pos m) w ≡ timed_out w'
      → IsFirstDue w'.timers.queue w'.now
  time_over w w' e es m at left h =
      let passed = env_ok.in_time m w w' h in
      let due : IsDue w'.now e =
        omega (
          arith,
          -ℤ_parts w'.now w.now,
          -ℤ_parts e.tte w.now,
          -ℤ_parts e.tte w'.now,
          passed,
          left,
        ) in
      let same : w'.timers.queue ≡ e ∷ es =
        ap (λ (tq : TimerQueue). tq.queue) (env_ok.waited (pos m) w w' h).same_timers ∙ at in
      subst (λ ds. IsFirstDue ds w'.now) (sym same) due

  pub wait_and_handle_lem : (w : World K) → Good w → IsRight env (wait_and_handle env w)
  wait_and_handle_lem w g =
      go w.timers.queue refl
        (wait_lem w.timers w.now g.timers (first-IsNear w.timers.queue w.now g.soon))
    where
      go :
          (es : List Entry)
          → w.timers.queue ≡ es
          → WaitsFor w.timers.queue w.now (get_timeout w.timers w.now)
          → IsRight env (wait_and_handle env w)
      go [] at h =
          let (wait, forever) = subst (λ es. WaitsFor es w.now (get_timeout w.timers w.now)) at h in
          subst (IsRight env) (sym (wait-eq env w (negsuc 0) wait forever)) (
            after_wait_lem w (negsuc 0) (env.epoll_wait (negsuc 0) w) refl g
              (λ w' e. absurd (no_limit w w' (negsuc 0) 0 refl e)))
      go (e ∷ es) at h = elim (subst (λ ds. WaitsFor ds w.now (get_timeout w.timers w.now)) at h) [
        | inl (now, due) ↦
            subst (IsRight env) (sym (no_wait-eq env w now))
              (execute_timer_lem w g (subst (λ ds. IsFirstDue ds w.now) (sym at) due))
        | inr (wait, (m, told, least, most)) ↦
            subst (IsRight env) (sym (wait-eq env w (pos (suc m)) wait told)) (
              after_wait_lem w (pos (suc m)) (env.epoll_wait (pos (suc m)) w) refl g
                (λ w' h. time_over w w' e es (suc m) at most h))
      ]
