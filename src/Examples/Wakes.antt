-- ===== src/Examples/Wakes.antt =====
-- Thread 1 runs an EpollRunner, and thread 2 adds callback 5 while it waits; and a pipe of eight bytes.
use bb_eventloop.Common.{◌<◌, ◌≡◌, refl, none, some, [], ◌∷◌, true, false, arith}
use bb_eventloop.MainLoop.Threads.{
  executing, waiting, handling, Shared, Event, adds, begins, pops, wakes, needs_wake_up, add_from,
  step, start, Reaches, starts, then_step,
}
use bb_eventloop.MainLoop.Waking.{no_lost_wake_up}
use bb_eventloop.MainLoop.Blocking.{wake_up_blocks}
use bb_eventloop.Callbacks.{push, pop}

abbrev asleep : Shared
asleep = record start { runner = some 1; phase = waiting }

abbrev called_up : Shared
called_up = record asleep { callbacks = record { queue = 5 ∷ []; wake_up = true }; pipe = 4 }

called_up-Reaches : Reaches 64 false called_up
unfolding step push pop add_from needs_wake_up
called_up-Reaches =
    then_step (adds 2 5)
      (then_step {t = asleep} pops (then_step (begins 1) starts refl refl) refl refl) refl refl

no_lost_wake_up_example :
    (0 < called_up.pipe)
    × (step 64 wakes called_up ≡ some (record called_up { pipe = 0; phase = handling }))
no_lost_wake_up_example = no_lost_wake_up 64 (omega arith) called_up-Reaches refl (omega arith)

wake_up_blocks_example :
    (s : Shared) × Reaches 8 false s
    × (s.phase ≡ executing)
    × (s.callbacks.queue ≡ 5 ∷ [])
    × ((e : Event) → step 8 e s ≡ none)
wake_up_blocks_example = wake_up_blocks 8 1 2 5 refl
