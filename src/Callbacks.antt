-- ===== src/Callbacks.antt =====
-- src/lib/CallbackQueue.cpp, the queue of callbacks that a runner executes. A callback is a number. Its
-- execution may add callbacks, from its own thread or from another one: `spawn` gives those that
-- are added while a callback runs, in the order in which the lock lets them in.
pub mod Order
use bb_eventloop.Common.{
  ℕ, zero, suc, Option, none, some, List, [], ◌∷◌, ◌++◌, Bool, true, false, ◌&&◌, ◌==◌,
  if◌then◌else◌, length, Outcome, returns, throws, null_callback, ◌>>=◌,
}

-- `wake_up` tells whether there is a function to call.
pub record CallbackQueue : Type 0 where
  pub queue : List ℕ
  pub wake_up : Bool

abbrev pub empty : CallbackQueue
empty = record { queue = []; wake_up = false }

pub set_wake_up : CallbackQueue → Bool → CallbackQueue
set_wake_up q set = record q { wake_up = set }

-- add: the new queue, and whether `wakeUp` is called.
unfoldable pub push : CallbackQueue → ℕ → CallbackQueue × Bool
push q c =
    let queue = q.queue ++ c ∷ [] in (record q { queue = queue }, length queue == 1 && q.wake_up)

pub add : CallbackQueue → Option ℕ → Outcome (CallbackQueue × Bool)
unfolding push
add q none = throws null_callback
add q (some c) = returns (push q c)

pub push_all : CallbackQueue → List ℕ → CallbackQueue
push_all q [] = q
push_all q (c ∷ cs) = push_all (push q c).0 cs

unfoldable pub pop : CallbackQueue → CallbackQueue × Option ℕ
pop q = elim q.queue [ [] ↦ (q, none) | c ∷ cs ↦ (record q { queue = cs }, some c) ]

-- How often `wakeUp` is called while callbacks are added and none is executed.
pub wake_ups : CallbackQueue → List ℕ → ℕ
wake_ups q [] = 0
wake_ups q (c ∷ cs) = let rest = wake_ups (push q c).0 cs in if (push q c).1 then suc rest else rest

module _ (spawn : ℕ → List ℕ) where
  -- The loop of execute, and the callbacks that it has called; `none` when the fuel runs out.
  pub execute_loop : ℕ → CallbackQueue → Option (CallbackQueue × List ℕ)
  execute_loop zero q = none
  execute_loop (suc fuel) q = elim (pop q).1 [
    | none ↦ some ((pop q).0, [])
    | some c ↦ elim (execute_loop fuel (push_all (pop q).0 (spawn c))) [
      | none ↦ none
      | some (q', called) ↦ some (q', c ∷ called)
    ]
  ]

  -- execute: whether a callback was called.
  pub execute : ℕ → CallbackQueue → Option (CallbackQueue × Bool)
  execute fuel q = elim (execute_loop fuel q) [
    | none ↦ none
    | some (q', []) ↦ some (q', false)
    | some (q', c ∷ called) ↦ some (q', true)
  ]
