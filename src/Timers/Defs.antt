-- ===== src/Timers/Defs.antt =====
-- The classes TimerQueue and Timer. A timer is a number, and so is a node of the multimap, to which an
-- iterator points: `position` is the field of that name of every timer, `none` at `end()`, and `cb` its
-- callback, `none` where it is empty. A duration is an integral number of microseconds, and the
-- monotonic clock is read where its value is an argument.
use bb_eventloop.Common.{
  update, ℕ, suc, ltb, Option, none, some, List, [], ◌∷◌, Bool, true, false, ◌==◌, if◌then◌else◌,
  length, Outcome, returns, throws, undefined, null_callback, bad_function_call, ◌>>=◌,
}
use bb_eventloop.Common.Int.{ℤ, pos, negsuc, ◌+ℤ◌, ◌-ℤ◌, ltb_ℤ}

-- A node of the multimap, with the time to execute at.
pub record Entry : Type 0 where
  pub tte : ℤ
  pub timer : ℕ
  pub node : ℕ

pub record TimerQueue : Type 0 where
  pub queue : List Entry
  pub position : ℕ → Option ℕ
  pub cb : ℕ → Option ℕ
  pub next_node : ℕ

-- boost::posix_time::milliseconds(-1)
abbrev pub no_timeout : ℤ
no_timeout = negsuc 999

unfoldable pub empty : TimerQueue
empty = record { queue = []; position = λ t. none; cb = λ t. none; next_node = 0 }

unfoldable pub find_node : ℕ → List Entry → Option Entry
find_node n [] = none
find_node n (e ∷ es) = if e.node == n then some e else find_node n es

unfoldable pub remove_node : ℕ → List Entry → List Entry
remove_node n [] = []
remove_node n (e ∷ es) = if e.node == n then es else e ∷ remove_node n es

-- std::multimap::insert: behind the entries of the same key.
unfoldable pub insert_entry : Entry → List Entry → List Entry
insert_entry e [] = e ∷ []
insert_entry e (f ∷ fs) = if ltb_ℤ e.tte f.tte then e ∷ f ∷ fs else f ∷ insert_entry e fs

-- TimerQueue::erase: undefined for an iterator to no node of the queue.
unfoldable pub erase : TimerQueue → ℕ → Outcome TimerQueue
erase tq n = elim (find_node n tq.queue) [
  | none ↦ undefined
  | some e ↦
      returns
        (record tq { queue = remove_node n tq.queue; position = update tq.position e.timer none })
]

-- TimerQueue::cancel
unfoldable pub cancel_entry : TimerQueue → ℕ → Outcome TimerQueue
cancel_entry tq t = elim (tq.position t) [ none ↦ returns tq | some n ↦ erase tq n ]

-- The insertion of TimerQueue::schedule.
unfoldable pub insert_timer : TimerQueue → ℕ → ℤ → TimerQueue
insert_timer tq t tte = record tq {
  queue = insert_entry (record { tte = tte; timer = t; node = tq.next_node }) tq.queue;
  position = update tq.position t (some tq.next_node);
  next_node = suc tq.next_node;
}

-- A finite duration of boost: its 64 bits stand for it, but for those of the two infinities and of no duration.
abbrev pub is_duration : ℤ → Bool
is_duration (pos n) = ltb n 9223372036854775806
is_duration (negsuc n) = ltb n 9223372036854775807

-- TimerQueue::schedule, with the clock at `now`; a sum that is no finite duration is a signed overflow.
unfoldable pub schedule_entry : TimerQueue → ℕ → ℤ → ℤ → Outcome TimerQueue
schedule_entry tq t timeout now = do
  tq' ← cancel_entry tq t
  if is_duration (now +ℤ timeout) then returns (insert_timer tq' t (now +ℤ timeout)) else undefined

-- TimerQueue::popFirstTimerToExecute
unfoldable pub pop_first : TimerQueue → Outcome (TimerQueue × Option ℕ)
pop_first tq = elim tq.queue [
  | [] ↦ returns (tq, none)
  | e ∷ es ↦ do tq' ← erase tq e.node; returns (tq', some e.timer)
]

-- TimerQueue::getTimeout, by the nodes of the queue, with the clock at `now`
unfoldable pub timeout_of : List Entry → ℤ → ℤ
timeout_of [] now = no_timeout
timeout_of (e ∷ es) now = if ltb_ℤ (e.tte -ℤ now) (pos 0) then pos 0 else e.tte -ℤ now

unfoldable pub get_timeout : TimerQueue → ℤ → ℤ
get_timeout tq now = timeout_of tq.queue now

unfoldable pub is_empty : TimerQueue → Bool
is_empty tq = elim tq.queue [ [] ↦ true | e ∷ es ↦ false ]

unfoldable pub get_scheduled_timer_count : TimerQueue → ℕ
get_scheduled_timer_count tq = length tq.queue

-- Timer::schedule
unfoldable pub schedule : TimerQueue → ℕ → ℤ → Option ℕ → ℤ → Outcome TimerQueue
schedule tq t timeout cb now = elim cb [
  | none ↦ throws null_callback
  | some f ↦ schedule_entry (record tq { cb = update tq.cb t (some f) }) t timeout now
]

-- Timer::cancel, which the destructor calls too
unfoldable pub cancel : TimerQueue → ℕ → Outcome TimerQueue
cancel tq t = do tq' ← cancel_entry tq t; returns (record tq' { cb = update tq'.cb t none })

-- Timer::isScheduled
unfoldable pub is_scheduled : TimerQueue → ℕ → Bool
is_scheduled tq t = elim (tq.position t) [ none ↦ false | some n ↦ true ]

-- Timer::execute: the queue that the callback finds, and the callback to call.
unfoldable pub execute : TimerQueue → ℕ → Outcome (TimerQueue × ℕ)
execute tq t = elim (tq.cb t) [
  | none ↦ throws bad_function_call
  | some f ↦ returns (record tq { cb = update tq.cb t none }, f)
]

-- BaseEpollRunner::executeFirstTimer: the callback to call, if there is a timer.
unfoldable pub execute_first_timer : TimerQueue → Outcome (TimerQueue × Option ℕ)
execute_first_timer tq = do
  (tq', first) ← pop_first tq
  elim first [
    | none ↦ returns (tq', none)
    | some t ↦ do (tq'', f) ← execute tq' t; returns (tq'', some f)
  ]
