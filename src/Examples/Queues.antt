-- ===== src/Examples/Queues.antt =====
-- A callback 5 that adds the callbacks 1 and 2, which add none.
use bb_eventloop.Common.{
  Bool-cases, inl, inr, ℕ, ◌≡◌, ◌<◌, some, List, [], ◌∷◌, ◌++◌, true, ◌==◌, if◌then◌else◌, ltb,
  arith,
}
use bb_eventloop.Callbacks.{CallbackQueue, execute_loop, execute}
use bb_eventloop.Callbacks.Order.{total, all_spawned, execute_lem}

abbrev spawn : ℕ → List ℕ
spawn c = if c == 5 then 1 ∷ 2 ∷ [] else []

abbrev weight : ℕ → ℕ
weight c = if c == 5 then 3 else 1

nested : (c : ℕ) → total weight (spawn c) < weight c
nested c = elim (Bool-cases (c == 5)) [ inl k ↦ rw k (omega arith) | inr k ↦ rw k (omega arith) ]

abbrev waiting : CallbackQueue
waiting = record { queue = 5 ∷ 4 ∷ []; wake_up = true }

execute_example :
    (q' : CallbackQueue) × (called : List ℕ) × (execute_loop spawn 9 waiting ≡ some (q', called))
    × (called ≡ (5 ∷ 4 ∷ []) ++ all_spawned spawn called)
    × (q'.queue ≡ [])
    × (q'.wake_up ≡ true)
    × (execute spawn 9 waiting ≡ some (q', ltb 0 2))
execute_example = execute_lem spawn weight 9 waiting nested (omega arith)
