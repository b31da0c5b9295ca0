-- ===== src/MainLoop/Waking.antt =====
-- A callback that another thread adds wakes the thread that waits; many of them may block both.
use bb_eventloop.Common.{
  ℕ, zero, suc, ◌-◌, ◌<◌, ◌≤◌, ◌≡◌, refl, sym, ap, subst, ◌∙◌, Option, none, some, List, [], ◌∷◌,
  Bool, true, false, not, ◌&&◌, ◌==◌, ltb, min, if◌then◌else◌, length, length-append, arith,
}
use bb_eventloop.Callbacks.{CallbackQueue, push, pop}
use bb_eventloop.MainLoop.Threads.{
  Phase, outside, executing, checking, waiting, handling, Shared, Event, adds, writes, begins, pops,
  continues, wakes, wakes_otherwise, loops, ends, read_all, needs_wake_up, is_runner, is_waiting,
  is_checking, is_late, continue_at, has_room, add_from, popped, pop_at, woken, loop_at, end_at,
  begin_at, step, start, Reaches, starts, then_step,
}

-- The handler of the pipe ends and leaves nothing in it.
read_all_lem : (fuel pipe : ℕ) → pipe < fuel → read_all fuel pipe ≡ some 0
unfolding read_all
read_all_lem zero pipe h = absurd (omega arith)
read_all_lem (suc fuel) pipe h =
    let ih = read_all_lem fuel (pipe - min 32 pipe) in ground (arith, ih)

abbrev is_inside : Phase → Bool
is_inside outside = false
is_inside executing = true
is_inside checking = true
is_inside waiting = true
is_inside handling = true

-- Behind the loop of execute, up to the end of the wait.
abbrev is_past : Phase → Bool
is_past outside = false
is_past executing = false
is_past checking = true
is_past waiting = true
is_past handling = false

past-inside : (p : Phase) → is_past p ≡ true → is_inside p ≡ true
past-inside outside h = h
past-inside executing h = refl
past-inside checking h = refl
past-inside waiting h = refl
past-inside handling h = refl

never_past :
    (p : Phase) (own : Bool)
    → own && is_waiting p ≡ false
    → (is_checking p && own) && true ≡ false
    → own && is_past p ≡ false
never_past outside own h k = h
never_past executing own h k = h
never_past checking own h k = ground (arith, k)
never_past waiting own h k = h
never_past handling own h k = h

waits-inside : (p : Phase) → is_waiting p ≡ true → is_inside p ≡ true
waits-inside outside h = h
waits-inside executing h = refl
waits-inside checking h = refl
waits-inside waiting h = refl
waits-inside handling h = refl

some_inj : {s t : Shared} → some s ≡ some t → s ≡ t
some_inj h = cc

if_none :
    (b : Bool) (o : Option Shared) (t : Shared)
    → (if b then none else o) ≡ some t
    → (b ≡ false) × (o ≡ some t)
if_none true o t e = absurd cc
if_none false o t e = (refl, e)

if_some :
    (b : Bool) (o : Option Shared) (t : Shared)
    → (if b then o else none) ≡ some t
    → (b ≡ true) × (o ≡ some t)
if_some true o t e = (refl, e)
if_some false o t e = absurd cc

and_left : (a b : Bool) → a && b ≡ true → a ≡ true
and_left a b h = ground (arith, h)

pop-empty : (q : CallbackQueue) → q.queue ≡ [] → pop q ≡ (q, none)
unfolding pop
pop-empty q e = ground (arith, e)

pop-first :
    (q : CallbackQueue) (c : ℕ) (cs : List ℕ)
    → q.queue ≡ c ∷ cs
    → pop q ≡ (record q { queue = cs }, some c)
unfolding pop
pop-first q c cs e = rw (e, pop) refl

-- While a thread is behind execute in run, and while it waits, the queue has its wake-up and is not empty without a byte in the pipe.
record IsAwake (s : Shared) : Type 0 where
  pub set : s.callbacks.wake_up ≡ true
  pub run_by : is_inside s.phase ≡ true → (r : ℕ) × (s.runner ≡ some r)
  pub awake : is_past s.phase ≡ true → 0 < length s.callbacks.queue → 0 < s.pipe

start-IsAwake : IsAwake start
start-IsAwake = record { set = refl; run_by = λ h. cc; awake = λ h. cc }

module _ (capacity : ℕ) (large : 4 ≤ capacity) where
  add_from-awake :
      (thread c r : ℕ) (s : Shared)
      → s.runner ≡ some r
      → (r == thread) ≡ false
      → s.callbacks.wake_up ≡ true
      → (0 < length s.callbacks.queue → 0 < s.pipe)
      → 0 < (add_from capacity thread c s).pipe
  unfolding add_from push needs_wake_up
  add_from-awake thread c r s at other set awake =
      let longer = length-append s.callbacks.queue (c ∷ []) in
      let writes : needs_wake_up s.runner thread ≡ true =
        ap (λ o. needs_wake_up o thread) at ∙ ap not other in
      ground (arith, writes, set, longer, awake)

  not_self : (a b : Bool) → b ≡ true → a && b ≡ false → a ≡ false
  not_self a b h k = ground (arith, h, k)

  add_from-IsAwake :
      (thread c : ℕ) (s : Shared)
      → is_runner s.runner thread && is_past s.phase ≡ false
      → IsAwake s
      → IsAwake (add_from capacity thread c s)
  unfolding add_from push needs_wake_up
  add_from-IsAwake thread c s h a = record {
    set = ground (arith, a.set);
    run_by = λ w. ground (arith, a.run_by);
    awake = λ w q.
        let same : (add_from capacity thread c s).phase ≡ s.phase = ground arith in
        let still : is_past s.phase ≡ true = ap is_past (sym same) ∙ w in
        let (r, at) = a.run_by (past-inside s.phase still) in
        let other : (r == thread) ≡ false =
          not_self (r == thread) (is_past s.phase) still
            (subst (λ o. is_runner o thread && is_past s.phase ≡ false) at h) in
        add_from-awake thread c r s at other a.set (a.awake still);
  }

  popped-IsAwake :
      (s : Shared) (cs : List ℕ)
      → s.phase ≡ executing
      → s.callbacks.queue ≡ cs
      → IsAwake s
      → IsAwake (popped (pop s.callbacks) s)
  popped-IsAwake s [] at none_left a =
      subst (λ p. IsAwake (popped p s)) (sym (pop-empty s.callbacks none_left))
        (record {
          set = a.set;
          run_by = λ h. a.run_by (ap is_inside at);
          awake = λ h some_left. absurd (omega (arith, ap length none_left, some_left));
        })
  popped-IsAwake s (c ∷ cs) at queue a =
      subst (λ p. IsAwake (popped p s)) (sym (pop-first s.callbacks c cs queue))
        (record {
          set = a.set;
          run_by = a.run_by;
          awake = λ h. let w : false ≡ true = sym (ap is_past at) ∙ h in absurd cc;
        })

  pop_at-IsAwake :
      (p : Phase) (s t : Shared) → s.phase ≡ p → pop_at p s ≡ some t → IsAwake s → IsAwake t
  pop_at-IsAwake outside s t at e a = absurd cc
  pop_at-IsAwake executing s t at e a =
      let (free, next) = if_none s.writing _ t e in
      subst IsAwake (some_inj next) (popped-IsAwake s s.callbacks.queue at refl a)
  pop_at-IsAwake checking s t at e a = absurd cc
  pop_at-IsAwake waiting s t at e a = absurd cc
  pop_at-IsAwake handling s t at e a = absurd cc

  continue_at-IsAwake :
      (p : Phase) (s t : Shared) → s.phase ≡ p → continue_at p s ≡ some t → IsAwake s → IsAwake t
  continue_at-IsAwake outside s t at e a = absurd cc
  continue_at-IsAwake executing s t at e a = absurd cc
  continue_at-IsAwake checking s t at e a = subst IsAwake (some_inj e) (record {
    set = a.set;
    run_by = λ h. a.run_by (ap is_inside at);
    awake = λ h. a.awake (ap is_past at);
  })
  continue_at-IsAwake waiting s t at e a = absurd cc
  continue_at-IsAwake handling s t at e a = absurd cc

  loop_at-IsAwake :
      (p : Phase) (s t : Shared) → s.phase ≡ p → loop_at p s ≡ some t → IsAwake s → IsAwake t
  loop_at-IsAwake outside s t at e a = absurd cc
  loop_at-IsAwake executing s t at e a = absurd cc
  loop_at-IsAwake checking s t at e a = absurd cc
  loop_at-IsAwake waiting s t at e a = absurd cc
  loop_at-IsAwake handling s t at e a =
      subst IsAwake (some_inj e)
        (record { set = a.set; run_by = λ h. a.run_by (ap is_inside at); awake = λ h. absurd cc })

  end_at-IsAwake : (p : Phase) (s t : Shared) → end_at p s ≡ some t → IsAwake s → IsAwake t
  end_at-IsAwake outside s t e a = absurd cc
  end_at-IsAwake executing s t e a = absurd cc
  end_at-IsAwake checking s t e a =
      subst IsAwake (some_inj e)
        (record { set = a.set; run_by = λ h. absurd cc; awake = λ h. absurd cc })
  end_at-IsAwake waiting s t e a =
      subst IsAwake (some_inj e)
        (record { set = a.set; run_by = λ h. absurd cc; awake = λ h. absurd cc })
  end_at-IsAwake handling s t e a =
      subst IsAwake (some_inj e)
        (record { set = a.set; run_by = λ h. absurd cc; awake = λ h. absurd cc })

  begin_at-IsAwake :
      (o : Option ℕ) (thread : ℕ) (s t : Shared)
      → begin_at o thread s ≡ some t
      → IsAwake s
      → IsAwake t
  begin_at-IsAwake none thread s t e a =
      subst IsAwake (some_inj e)
        (record { set = a.set; run_by = λ h. (thread, refl); awake = λ h. absurd cc })
  begin_at-IsAwake (some r) thread s t e a = absurd cc

  step-IsAwake :
      (e : Event) (s t : Shared)
      → is_late e s && true ≡ false
      → step capacity e s ≡ some t
      → IsAwake s
      → IsAwake t
  unfolding step
  step-IsAwake (adds thread c) s t early e a =
      let (free, inner) = if_none s.writing _ t e in
      let (other, next) = if_none (is_runner s.runner thread && is_waiting s.phase) _ t inner in
      subst IsAwake (some_inj next)
        (add_from-IsAwake thread c s (never_past s.phase _ other early) a)
  step-IsAwake writes s t early e a =
      let (able, next) = if_some (s.writing && has_room capacity s.pipe) _ t e in
      subst IsAwake (some_inj next)
        (record { set = a.set; run_by = a.run_by; awake = λ h k. omega arith })
  step-IsAwake (begins thread) s t early e a = begin_at-IsAwake s.runner thread s t e a
  step-IsAwake pops s t early e a = pop_at-IsAwake s.phase s t refl e a
  step-IsAwake wakes s t early e a =
      let (able, next) = if_some (is_waiting s.phase && ltb 0 s.pipe) _ t e in
      let all_read = read_all_lem (suc s.pipe) s.pipe (omega arith) in
      let woke = ap (λ o. woken o s) (sym all_read) ∙ next in
      subst IsAwake (some_inj woke) (record {
        set = a.set;
        run_by = λ h. a.run_by (waits-inside s.phase (and_left _ _ able));
        awake = λ h. absurd cc;
      })
  step-IsAwake wakes_otherwise s t early e a =
      let (able, next) = if_some (is_waiting s.phase) _ t e in
      subst IsAwake (some_inj next) (record {
        set = a.set;
        run_by = λ h. a.run_by (waits-inside s.phase able);
        awake = λ h. absurd cc;
      })
  step-IsAwake continues s t early e a = continue_at-IsAwake s.phase s t refl e a
  step-IsAwake loops s t early e a = loop_at-IsAwake s.phase s t refl e a
  step-IsAwake ends s t early e a = end_at-IsAwake s.phase s t e a

  reaches-IsAwake : {s : Shared} → Reaches capacity false s → IsAwake s
  reaches-IsAwake starts = start-IsAwake
  reaches-IsAwake (then_step {s = s} {t = t} e r early h) =
      step-IsAwake e s t early h (reaches-IsAwake r)

  -- Any interleaving of threads that add callbacks with a thread that runs and adds them too, in
  -- callbacks, listeners and in canContinue at the end of a turn, but not in canContinue between
  -- execute and the wait, with a pipe of four bytes at least: whenever the running thread waits and
  -- the queue is not empty, the pipe has bytes for epoll_wait. The wait can end for them, which
  -- empties the pipe, and the thread goes on to its events.
  pub no_lost_wake_up :
      {s : Shared}
      → Reaches capacity false s
      → s.phase ≡ waiting
      → 0 < length s.callbacks.queue
      → (0 < s.pipe) × (step capacity wakes s ≡ some (record s { pipe = 0; phase = handling }))
  unfolding step
  no_lost_wake_up {s = s} r at queued =
      let waits = ap is_waiting at in
      let more = (reaches-IsAwake r).awake (ap is_past at) queued in
      let all_read = read_all_lem (suc s.pipe) s.pipe (omega arith) in
      (more, ground (arith, waits, more, all_read))
