-- ===== src/Callbacks/Order.antt =====
-- Callbacks are executed in the order in which they were added, none is lost or executed twice,
-- and the wake-up is called once for a queue that gets its first callbacks.
use bb_eventloop.Common.{
  ℕ, zero, suc, ◌+◌, ◌<◌, ◌≡◌, refl, ap, ap₂, ◌∙◌, sym, inl, inr, some, List, [], ◌∷◌, ◌++◌, arith,
  ltb, Bool, true, false, ◌&&◌, ◌==◌, if◌then◌else◌, Bool-cases, append_assoc, append-nil, length,
  length-append,
}
use bb_eventloop.Callbacks.{CallbackQueue, push, push_all, pop, wake_ups, execute_loop, execute}

queue-push_all : (q : CallbackQueue) (cs : List ℕ) → (push_all q cs).queue ≡ q.queue ++ cs
unfolding push_all push
queue-push_all q [] = sym (append-nil q.queue)
queue-push_all q (c ∷ cs) = queue-push_all (push q c).0 cs ∙ append_assoc q.queue (c ∷ []) cs

wake-push_all : (q : CallbackQueue) (cs : List ℕ) → (push_all q cs).wake_up ≡ q.wake_up
unfolding push_all push
wake-push_all q [] = refl
wake-push_all q (c ∷ cs) = wake-push_all (push q c).0 cs

-- What a callback and all that come of it take to execute.
abbrev pub total : (ℕ → ℕ) → List ℕ → ℕ
total weight [] = 0
total weight (c ∷ cs) = weight c + total weight cs

total-append :
    (weight : ℕ → ℕ) (cs ds : List ℕ) → total weight (cs ++ ds) ≡ total weight cs + total weight ds
total-append weight [] ds = omega arith
total-append weight (c ∷ cs) ds = omega (arith, total-append weight cs ds)

-- All callbacks that the callbacks of a list add, in order.
abbrev pub all_spawned : (ℕ → List ℕ) → List ℕ → List ℕ
all_spawned spawn [] = []
all_spawned spawn (c ∷ cs) = spawn c ++ all_spawned spawn cs

abbrev queue_of : List ℕ → Bool → CallbackQueue
queue_of cs wake = record { queue = cs; wake_up = wake }

push_all-eq :
    (cs ds : List ℕ) (wake : Bool)
    → push_all (record { queue = cs; wake_up = wake }) ds
      ≡ record { queue = cs ++ ds; wake_up = wake }
push_all-eq cs ds wake =
    ap₂ queue_of (queue-push_all (record { queue = cs; wake_up = wake }) ds)
      (wake-push_all (record { queue = cs; wake_up = wake }) ds)

module _ (spawn : ℕ → List ℕ) where
  execute_loop-cons :
      (fuel c : ℕ) (cs called : List ℕ) (wake : Bool) (q' : CallbackQueue)
      → execute_loop spawn fuel (record { queue = cs ++ spawn c; wake_up = wake })
        ≡ some (q', called)
      → execute_loop spawn (suc fuel) (record { queue = c ∷ cs; wake_up = wake })
        ≡ some (q', c ∷ called)
  unfolding execute_loop pop
  execute_loop-cons fuel c cs called wake q' h = rw (push_all-eq cs (spawn c) wake, h)

  execute_loop-nil :
      (fuel : ℕ) (wake : Bool)
      → execute_loop spawn (suc fuel) (queue_of [] wake) ≡ some (queue_of [] wake, [])
  unfolding execute_loop pop
  execute_loop-nil fuel wake = refl

  execute_loop_lem :
      (weight : ℕ → ℕ) (fuel : ℕ) (cs : List ℕ) (wake : Bool)
      → ((c : ℕ) → total weight (spawn c) < weight c)
      → total weight cs < fuel
      → (called : List ℕ) × (execute_loop spawn fuel (record { queue = cs; wake_up = wake })
          ≡ some (record { queue = []; wake_up = wake }, called))
        × (called ≡ cs ++ all_spawned spawn called)
  unfolding execute_loop pop
  execute_loop_lem weight zero cs wake nested h = absurd (omega arith)
  execute_loop_lem weight (suc fuel) [] wake nested h = ([], refl, refl)
  execute_loop_lem weight (suc fuel) (c ∷ cs) wake nested h =
      let less : total weight (cs ++ spawn c) < fuel =
        omega (arith, total-append weight cs (spawn c), nested c) in
      let (called, done, order) = execute_loop_lem weight fuel (cs ++ spawn c) wake nested less in
      (
        c ∷ called,
        execute_loop-cons fuel c cs called wake _ done,
        ap (◌∷◌ c) (order ∙ append_assoc cs (spawn c) (all_spawned spawn called)),
      )

  execute-called :
      (fuel : ℕ) (q q' : CallbackQueue) (c : ℕ) (called : List ℕ)
      → execute_loop spawn fuel q ≡ some (q', c ∷ called)
      → execute spawn fuel q ≡ some (q', true)
  unfolding execute
  execute-called fuel q q' c called h = ground arith

  execute-flag :
      (fuel : ℕ) (cs called rest : List ℕ) (wake : Bool) (q' : CallbackQueue)
      → 0 < fuel
      → execute_loop spawn fuel (queue_of cs wake) ≡ some (q', called)
      → called ≡ cs ++ rest
      → execute spawn fuel (queue_of cs wake) ≡ some (q', ltb 0 (length cs))
  unfolding execute
  execute-flag zero cs called rest wake q' pos done order = absurd (omega arith)
  execute-flag (suc fuel) [] called rest wake q' pos done order =
      let r' : CallbackQueue × List ℕ = (q', called) in
      let r : CallbackQueue × List ℕ = (queue_of [] wake, []) in
      let at : some r' ≡ some r = sym done ∙ execute_loop-nil fuel wake in
      let same : r' ≡ r = cc in
      rw (execute_loop-nil fuel wake, execute)
        (ap (λ (p : CallbackQueue × List ℕ). some (p.0, false)) (sym same))
  execute-flag (suc fuel) (c ∷ cs) called rest wake q' pos done order =
      execute-called (suc fuel) _ q' c (cs ++ rest) (done ∙ ap (λ l. some (q', l)) order)
      ∙ ap (λ b. some (q', b)) (ground arith)

  -- CallbackQueue::execute, when what a callback adds weighs less than the callback itself, so that the
  -- chain of additions ends: it returns as soon as the fuel exceeds the weight of the queue. It has then
  -- called first the callbacks of the queue, then those that the called ones added, in the order
  -- in which they were added, each once; the queue is empty, and the result tells whether it was
  -- not empty before.
  pub execute_lem :
      (weight : ℕ → ℕ) (fuel : ℕ) (q : CallbackQueue)
      → ((c : ℕ) → total weight (spawn c) < weight c)
      → total weight q.queue < fuel
      → (q' : CallbackQueue) × (called : List ℕ) × (execute_loop spawn fuel q ≡ some (q', called))
        × (called ≡ q.queue ++ all_spawned spawn called)
        × (q'.queue ≡ [])
        × (q'.wake_up ≡ q.wake_up)
        × (execute spawn fuel q ≡ some (q', ltb 0 (length q.queue)))
  unfolding execute
  execute_lem weight fuel q nested h =
      let (called, done, order) = execute_loop_lem weight fuel q.queue q.wake_up nested h in
      (
        record { queue = []; wake_up = q.wake_up },
        called,
        done,
        order,
        refl,
        refl,
        execute-flag fuel q.queue called (all_spawned spawn called) q.wake_up _ (omega arith) done
            order,
      )

wake_ups_none : (q : CallbackQueue) (cs : List ℕ) → 0 < length q.queue → wake_ups q cs ≡ 0
unfolding wake_ups push
wake_ups_none q [] h = refl
wake_ups_none q (c ∷ cs) h =
    let n = length-append q.queue (c ∷ []) in
    let rest : wake_ups (push q c).0 cs ≡ 0 = wake_ups_none (push q c).0 cs (omega (arith, n)) in
    let not_one : (length (q.queue ++ c ∷ []) == 1) ≡ false = ground (arith, n) in
    rw (not_one, rest)

wake_ups-step :
    (q : CallbackQueue) (c : ℕ) (cs : List ℕ) (n : ℕ)
    → wake_ups (push q c).0 cs ≡ n
    → wake_ups q (c ∷ cs) ≡ (if (push q c).1 then suc n else n)
unfolding wake_ups
wake_ups-step q c cs n h = rw h

if-same : (a b w : Bool) → a ≡ b → w ≡ true → (if a && w then suc 0 else 0) ≡ (if b then 1 else 0)
if-same a b true e h = elim (Bool-cases b) [ inl k ↦ rw (e, k) | inr k ↦ rw (e, k) ]
if-same a b false e h = cc

-- Callbacks that are added to an empty queue with a wake-up function call it once, on the first
-- of them; added to a queue that is not empty they do not call it.
pub wake_ups_lem :
    (q : CallbackQueue) (c : ℕ) (cs : List ℕ)
    → q.wake_up ≡ true
    → wake_ups q (c ∷ cs) ≡ (if length q.queue == 0 then 1 else 0)
unfolding wake_ups push
wake_ups_lem q c cs h =
    let n = length-append q.queue (c ∷ []) in
    let rest : wake_ups (push q c).0 cs ≡ 0 = wake_ups_none (push q c).0 cs (omega (arith, n)) in
    let same : (length (q.queue ++ c ∷ []) == 1) ≡ (length q.queue == 0) = ground (arith, n) in
    wake_ups-step q c cs 0 rest ∙ if-same _ _ _ same h
