-- ===== src/MainLoop/Blocking.antt =====
-- The pipe is only read after a wait. Callbacks that another thread adds one at a time, each while the last
-- one runs, keep the runner in the loop of execute and fill it.
use bb_eventloop.Common.{
  ℕ, zero, suc, ◌+◌, ◌<◌, ◌≤◌, ◌≡◌, refl, inl, inr, none, some, [], ◌∷◌, Bool, true, false, ◌==◌,
  leb, Bool-cases, arith,
}
use bb_eventloop.Callbacks.{push, pop}
use bb_eventloop.MainLoop.Threads.{
  executing, checking, waiting, Shared, Event, adds, writes, begins, pops, continues, wakes,
  wakes_otherwise, loops, ends, needs_wake_up, add_from, step, Reaches, starts, then_step,
}

-- A thread runs a callback, with none left in the queue.
abbrev busy : Bool → ℕ → ℕ → Shared
busy executed r pipe = record {
  callbacks = record { queue = []; wake_up = true };
  runner = some r;
  phase = executing;
  executed = executed;
  pipe = pipe;
  writing = false;
}

-- One was added, and another thread has to write and has the lock.
abbrev held : Bool → ℕ → ℕ → ℕ → Shared
held executed r c pipe = record {
  callbacks = record { queue = c ∷ []; wake_up = true };
  runner = some r;
  phase = executing;
  executed = executed;
  pipe = pipe;
  writing = true;
}

abbrev added : Bool → ℕ → ℕ → ℕ → Shared
added executed r c pipe = record (held executed r c pipe) { writing = false }

module _ (capacity r thread c : ℕ) (other : (r == thread) ≡ false) where
  add_fits :
      (b : Bool) (pipe : ℕ)
      → pipe + 4 ≤ capacity
      → step capacity (adds thread c) (busy b r pipe) ≡ some (added b r c (pipe + 4))
  unfolding step add_from push needs_wake_up
  add_fits b pipe h = ground (arith, other)

  add_blocks :
      (b : Bool) (pipe : ℕ)
      → capacity < pipe + 4
      → step capacity (adds thread c) (busy b r pipe) ≡ some (held b r c pipe)
  unfolding step add_from push needs_wake_up
  add_blocks b pipe h = ground (arith, other)

  pop_busy : (b : Bool) (pipe : ℕ) → step capacity pops (added b r c pipe) ≡ some (busy true r pipe)
  unfolding step pop
  pop_busy b pipe = refl

  stuck :
      (b : Bool) (pipe : ℕ)
      → capacity < pipe + 4
      → (e : Event) → step capacity e (held b r c pipe) ≡ none
  unfolding step
  stuck b pipe h (adds t d) = refl
  stuck b pipe h writes = ground arith
  stuck b pipe h (begins t) = refl
  stuck b pipe h pops = refl
  stuck b pipe h continues = refl
  stuck b pipe h wakes = refl
  stuck b pipe h wakes_otherwise = refl
  stuck b pipe h loops = refl
  stuck b pipe h ends = refl

  fill :
      (n : ℕ) (b : Bool) (pipe : ℕ)
      → Reaches capacity false (busy b r pipe)
      → capacity ≤ pipe + n
      → (full : ℕ) × (d : Bool) × Reaches capacity false (held d r c full) × (capacity < full + 4)
  fill zero b pipe s h =
      (pipe, b, then_step (adds thread c) s refl (add_blocks b pipe (omega arith)), omega arith)
  fill (suc n) b pipe s h = elim (Bool-cases (leb (pipe + 4) capacity)) [
    | inl q ↦
        fill n true (pipe + 4)
          (then_step pops (then_step (adds thread c) s refl (add_fits b pipe (ground arith))) refl
            (pop_busy b (pipe + 4)))
          (omega arith)
    | inr q ↦
        let over : capacity < pipe + 4 = ground arith in
        (pipe, b, then_step (adds thread c) s refl (add_blocks b pipe over), over)
  ]

  begun : Reaches capacity false (busy false r 0)
  unfolding step
  begun = then_step (begins r) starts refl refl

  -- For a pipe of any size, and a thread other than the one that runs: a state is reached in which the running
  -- thread is between callbacks, with one more in the queue, and nothing can happen any more. The
  -- other thread waits in the write of wakeUp for room in the pipe and has the lock of
  -- the queue, and the running thread waits for the lock.
  pub wake_up_blocks :
      (s : Shared) × Reaches capacity false s
      × (s.phase ≡ executing)
      × (s.callbacks.queue ≡ c ∷ [])
      × ((e : Event) → step capacity e s ≡ none)
  wake_up_blocks =
      let (full, b, reached, over) = fill capacity false 0 begun (omega arith) in
      (held b r c full, reached, refl, refl, stuck b full over)

-- With a canContinue that adds a callback between execute and the wait, in the thread that runs: for a pipe of
-- any size, a state is reached in which that thread waits with the callback in the queue, and the pipe has
-- nothing for epoll_wait.
pub can_continue_loses :
    (capacity r c : ℕ)
    → (s : Shared) × Reaches capacity true s
      × (s.phase ≡ waiting)
      × (s.callbacks.queue ≡ c ∷ [])
      × (s.pipe ≡ 0)
      × (step capacity wakes s ≡ none)
unfolding step add_from push pop needs_wake_up
can_continue_loses capacity r c =
    let late : Shared = record {
      callbacks = record { queue = []; wake_up = true };
      runner = some r;
      phase = checking;
      executed = true;
      pipe = 0;
      writing = false;
    } in
    let reached : Reaches capacity true late =
      then_step pops
        (then_step pops (then_step (begins r) (then_step (adds r c) starts refl refl) refl refl)
          refl refl)
        refl refl in
    let added_late : Reaches capacity true
        (record late { callbacks = record { queue = c ∷ []; wake_up = true } }) =
      then_step (adds r c) reached (ground arith) (ground arith) in
    (_, then_step continues added_late refl refl, refl, refl, refl, refl)
