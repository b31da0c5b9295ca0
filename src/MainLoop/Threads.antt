-- ===== src/MainLoop/Threads.antt =====
-- Threads that add callbacks while one of them runs an EpollRunner: CallbackQueue::add with its lock,
-- EpollRunner::wakeUp, and the class EventPipe. A thread is a number. The pipe is the number of bytes in it;
-- its writing end blocks where they do not fit, its reading end does not.
use bb_eventloop.Common.{
  ℕ, ◌≡◌, zero, suc, ◌+◌, ◌-◌, Option, none, some, [], Bool, true, false, not, ◌&&◌, ◌==◌, ltb, leb,
  min, if◌then◌else◌,
}
use bb_eventloop.Callbacks.{CallbackQueue, push, pop}

-- What the thread in run is at: the loop of CallbackQueue::execute, the call of canContinue behind it, getTimeout and
-- epoll_wait, or what the wait has given, up to the call of canContinue at the end of the turn.
pub data Phase : Type 0 where
  outside : Phase
  executing : Phase
  checking : Phase
  waiting : Phase
  handling : Phase

-- `runner` is runnerThreadId, and `executed` tells that execute has called a callback
-- in this turn, and `writing` that a thread is in the write of wakeUp, with the lock of the
-- callback queue, and has not written yet.
pub record Shared : Type 0 where
  pub callbacks : CallbackQueue
  pub runner : Option ℕ
  pub phase : Phase
  pub executed : Bool
  pub pipe : ℕ
  pub writing : Bool

pub data Event : Type 0 where
  adds : ℕ → ℕ → Event
  writes : Event
  begins : ℕ → Event
  pops : Event
  continues : Event
  wakes : Event
  wakes_otherwise : Event
  loops : Event
  ends : Event

-- sizeof(int), and the buffer of EventPipe::handleEventsCb
abbrev pub event_size : ℕ
event_size = 4

abbrev pub buffer_size : ℕ
buffer_size = 32

-- EventPipe::handleEventsCb: what it leaves in the pipe; `none` when the fuel runs out.
unfoldable pub read_all : ℕ → ℕ → Option ℕ
read_all zero pipe = none
read_all (suc fuel) pipe =
    let count = min buffer_size pipe in
    let rest = read_all fuel (pipe - count) in if ltb 0 count then rest else some pipe

-- Whether wakeUp writes, called by a thread.
unfoldable pub needs_wake_up : Option ℕ → ℕ → Bool
needs_wake_up none thread = false
needs_wake_up (some runner) thread = not (runner == thread)

abbrev pub is_runner : Option ℕ → ℕ → Bool
is_runner none thread = false
is_runner (some runner) thread = runner == thread

abbrev pub is_waiting : Phase → Bool
is_waiting outside = false
is_waiting executing = false
is_waiting checking = false
is_waiting waiting = true
is_waiting handling = false

abbrev pub is_checking : Phase → Bool
is_checking outside = false
is_checking executing = false
is_checking checking = true
is_checking waiting = false
is_checking handling = false

-- The function canContinue of the client adds a callback, behind execute and before the wait.
abbrev pub is_late : Event → Shared → Bool
is_late (adds thread c) s = is_checking s.phase && is_runner s.runner thread
is_late writes s = false
is_late (begins thread) s = false
is_late pops s = false
is_late continues s = false
is_late wakes s = false
is_late wakes_otherwise s = false
is_late loops s = false
is_late ends s = false

-- setWakeUp is called by the constructor.
abbrev pub start : Shared
start = record {
  callbacks = record { queue = []; wake_up = true };
  runner = none;
  phase = outside;
  executed = false;
  pipe = 0;
  writing = false;
}

-- A call of pop in the loop of execute, which returns when the queue is empty: canContinue is called where there was a
-- callback to execute.
abbrev pub popped : CallbackQueue × Option ℕ → Shared → Shared
popped (q, none) s = record s { callbacks = q; phase = if s.executed then checking else waiting }
popped (q, some c) s = record s { callbacks = q; executed = true }

abbrev pub pop_at : Phase → Shared → Option Shared
pop_at outside s = none
pop_at executing s = if s.writing then none else some (popped (pop s.callbacks) s)
pop_at checking s = none
pop_at waiting s = none
pop_at handling s = none

abbrev pub continue_at : Phase → Shared → Option Shared
continue_at outside s = none
continue_at executing s = none
continue_at checking s = some (record s { phase = waiting })
continue_at waiting s = none
continue_at handling s = none

abbrev pub woken : Option ℕ → Shared → Option Shared
woken none s = none
woken (some pipe) s = some (record s { pipe = pipe; phase = handling })

abbrev pub loop_at : Phase → Shared → Option Shared
loop_at outside s = none
loop_at executing s = none
loop_at checking s = none
loop_at waiting s = none
loop_at handling s = some (record s { phase = executing; executed = false })

-- canContinue may end the run before the wait and at the end of a turn, and so may an exception of the wait.
abbrev pub end_at : Phase → Shared → Option Shared
end_at outside s = none
end_at executing s = none
end_at checking s = some (record s { phase = outside; runner = none })
end_at waiting s = some (record s { phase = outside; runner = none })
end_at handling s = some (record s { phase = outside; runner = none })

abbrev pub begin_at : Option ℕ → ℕ → Shared → Option Shared
begin_at none thread s =
    some (record s { runner = some thread; phase = executing; executed = false })
begin_at (some runner) thread s = none

module _ (capacity : ℕ) where
  abbrev pub has_room : ℕ → Bool
  has_room pipe = leb (pipe + event_size) capacity

  -- CallbackQueue::add, up to the end of the write or to its begin.
  unfoldable pub add_from : ℕ → ℕ → Shared → Shared
  add_from thread c s =
      let (q, woke) = push s.callbacks c in
      if woke && needs_wake_up s.runner thread
      then if has_room s.pipe
        then record s { callbacks = q; pipe = s.pipe + event_size }
        else record s { callbacks = q; writing = true }
      else record s { callbacks = q }

  -- An event, where it can happen: the runner's own thread adds in a callback, a listener or
  -- canContinue, and who wants the lock of the queue waits until it is free.
  unfoldable pub step : Event → Shared → Option Shared
  step (adds thread c) s =
      if s.writing
      then none
      else if is_runner s.runner thread && is_waiting s.phase
      then none
      else some (add_from thread c s)
  step writes s =
      if s.writing && has_room s.pipe
      then some (record s { pipe = s.pipe + event_size; writing = false })
      else none
  step (begins thread) s = begin_at s.runner thread s
  step pops s = pop_at s.phase s
  step continues s = continue_at s.phase s
  step wakes s =
      if is_waiting s.phase && ltb 0 s.pipe then woken (read_all (suc s.pipe) s.pipe) s else none
  step wakes_otherwise s = if is_waiting s.phase then some (record s { phase = handling }) else none
  step loops s = loop_at s.phase s
  step ends s = end_at s.phase s

  -- The states that are reached; with `late`, canContinue may add callbacks before the wait.
  pub data Reaches (late : Bool) : Shared → Type 0 where
    starts : Reaches late start
    then_step :
        {s t : Shared} (e : Event)
        → Reaches late s
        → is_late e s && not late ≡ false
        → step e s ≡ some t
        → Reaches late t
