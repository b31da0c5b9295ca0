-- ===== src/Examples/Clocks.antt =====
-- A timer queue with one timer, 7, for the time 50 and with callback 3.
use bb_eventloop.Common.{
  ℕ, ◌≡◌, Bool-cases, inl, inr, refl, none, some, ◌==◌, [], ◌∷◌, arith, true, update, returns,
}
use bb_eventloop.Common.Int.{pos, ◌+ℤ◌}
use bb_eventloop.Timers.Defs.{Entry, TimerQueue, insert_entry, find_node, schedule, is_scheduled}
use bb_eventloop.Timers.Invariant.{IsValid}
use bb_eventloop.Timers.Contract.{ChangedAt, others_of, schedule_lem}

abbrev pub entry : Entry
entry = record { tte = pos 50; timer = 7; node = 0 }

abbrev pub one : TimerQueue
one = record {
  queue = entry ∷ [];
  position = update (λ t. none) 7 (some 0);
  cb = update (λ t. none) 7 (some 3);
  next_node = 1;
}

one-owned :
    (t n : ℕ)
    → one.position t ≡ some n
    → (e : Entry) × (find_node n one.queue ≡ some e) × (e.timer ≡ t)
unfolding find_node
one-owned t n p = elim (Bool-cases (7 == t)) [
  | inl k ↦ let at : n ≡ 0 = ground arith in (entry, rw at, ground arith)
  | inr k ↦ absurd (ground arith)
]

pub one-IsValid : IsValid one
one-IsValid = record {
  sorted = (tt, tt);
  distinct = (tt, tt);
  old = (omega arith, tt);
  linked = (refl, tt);
  owned = one-owned;
  armed = ((3, refl), tt);
}

schedule_example :
    (tq' : TimerQueue) × (e : Entry) × (schedule one 7 (pos 20) (some 4) (pos 40) ≡ returns tq')
    × IsValid tq'
    × (tq'.queue ≡ insert_entry e (others_of 7 one.queue))
    × (e.timer ≡ 7)
    × (e.tte ≡ pos 40 +ℤ pos 20)
    × (is_scheduled tq' 7 ≡ true)
    × ChangedAt one 7 (some e.node) (some 4) tq'
unfolding ◌+ℤ◌
schedule_example = schedule_lem one 7 4 (pos 20) (pos 40) one-IsValid refl
