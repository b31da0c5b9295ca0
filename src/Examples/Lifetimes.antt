-- ===== src/Examples/Lifetimes.antt =====
-- Descriptor 7 in two objects, a callee and its copy, the handlers of a program, a thread's SIGPIPE, and a socket
-- that accepts two connections, of which the second makes its callback throw.
use bb_eventloop.Common.{
  ◌==◌, ℕ, ◌+◌, ◌≡◌, refl, none, some, [], ◌∷◌, Bool, true, false, if◌then◌else◌, returns,
  undefined, ◌>>=◌, arith,
}
use bb_eventloop.Descriptors.Defs.{
  Process, constructs, swaps, destroys, apply, construct, swap, destroy, Reaches, starts, then_op,
}
use bb_eventloop.Descriptors.Owned.{count, held, owned_lem}
use bb_eventloop.Callees.Defs
use bb_eventloop.Callees.Alive
use bb_eventloop.Callees.Copied.{copied_lem}
use bb_eventloop.Handlers.Terminate.{own, null, enable, disable, call_handler}
use bb_eventloop.Handlers.Nested.{plain, enable_nested}
use bb_eventloop.Handlers.Pipe.{Thread, suppress, restore}
use bb_eventloop.Listening.Defs.{
  standard, Connection, connects, would_block, Reaction, ListeningSocket, handle_events_cb,
}
use bb_eventloop.Listening.Accepted.{Handled, serves_lem}
use bb_eventloop.Handlers.Suppressed.{IsWrite, IsUnchanged, suppress_lem}

abbrev swapped : Process
swapped = record {
  slots = record { object = 2; fd = some 7 } ∷ record { object = 1; fd = none } ∷ [];
  closed = [];
  released = [];
}

abbrev after_all : Process
after_all = record { slots = record { object = 1; fd = none } ∷ []; closed = 7 ∷ []; released = [] }

after_all-Reaches : Reaches (7 ∷ []) after_all
unfolding apply construct swap destroy
after_all-Reaches =
    then_op (destroys 2)
      (then_op {q = swapped} (swaps 1 2)
        (then_op (constructs 2 none) (then_op (constructs 1 (some 7)) starts refl) refl) refl)
      refl

owned_example :
    1 ≡ count 7 (held after_all.slots) + (count 7 after_all.closed + count 7 after_all.released)
owned_example = owned_lem 7 after_all-Reaches

abbrev callees : Defs.Heap
callees = record { callees = record { object = 4; life = 0 } ∷ []; next_life = 1 }

callees-IsValid : Alive.IsValid callees
callees-IsValid = record { old = (omega arith, tt); distinct = (refl, tt) }

abbrev gone : Defs.Heap
gone = record { callees = record { object = 5; life = 1 } ∷ []; next_life = 2 }

alive_example :
    (w : Defs.WeakCallback) × (Defs.weak_callback 4 9 callees ≡ some w)
    × (Defs.execute w gone
        ≡ (if Alive.ends 4 (Defs.constructs 5 ∷ Defs.destroys 4 ∷ []) then none else some 9))
unfolding Defs.run Defs.apply Defs.construct Defs.destroy
alive_example =
    Alive.alive_lem 4 9 0 (Defs.constructs 5 ∷ Defs.destroys 4 ∷ []) callees gone callees-IsValid
      refl refl refl

copied_example :
    (w : Defs.WeakCallback) × (h' : Defs.Heap) × (Defs.weak_callback 4 9 callees ≡ some w)
    × ((Defs.copy 5 4 callees >>= Defs.destroy 4) ≡ returns h')
    × (h'.callees ≡ record { object = 5; life = 0 } ∷ [])
    × (Defs.execute w h' ≡ some 9)
copied_example = copied_lem 4 5 9 0 callees refl refl

enable_nested_example :
    (disable (enable (plain 1 2)) ≡ plain 1 2)
    × (call_handler 5 (enable (plain 1 2)).original_terminate (enable (plain 1 2)).terminate
        ≡ some (returns 2))
    × (call_handler 3
          (enable (enable (plain 1 2))).original_terminate
          (enable (enable (plain 1 2))).terminate
        ≡ none)
    × (disable (disable (enable (enable (plain 1 2))))
        ≡ record (plain 1 2) { unexpected = own; terminate = own })
    × (call_handler 5 null own ≡ some undefined)
enable_nested_example = enable_nested 1 2 3

record Pipe : Type 0 where
  on : Bool
  waits : Bool
  got : ℕ

abbrev let_through : Pipe → Pipe
let_through k =
    if k.waits
    then record { on = false; waits = false; got = k.got + 1 }
    else record k { on = false }

abbrev thread : Thread Pipe
thread = record {
  blocked = λ k. k.on;
  pending = λ k. k.waits;
  delivered = λ k. k.got;
  block = λ k. record k { on = true };
  unblock = let_through;
  timed_wait = λ k. record k { waits = if k.on then false else k.waits };
  block-blocked = λ k. refl;
  block-pending = λ k. refl;
  block-delivered = λ k. refl;
  unblock-blocked = λ k. ground arith;
  unblock-pending = λ k h. ground arith;
  unblock-delivered = λ k h. ground arith;
  timed_wait-blocked = λ k. refl;
  timed_wait-pending = λ k h. ground arith;
  timed_wait-delivered = λ k h. refl;
}

abbrev write : Pipe → Pipe
write k = if k.on then record k { waits = true } else record k { got = k.got + 1 }

write-IsWrite : IsWrite thread write
write-IsWrite = record {
  keeps = λ k. ground arith;
  delivers_none = λ k h. ground arith;
  stays = λ k h. ground arith;
}

abbrev open_pipe : Pipe
open_pipe = record { on = false; waits = false; got = 0 }

suppress_example :
    IsUnchanged thread open_pipe
      (restore thread (suppress thread open_pipe).1 (write (suppress thread open_pipe).0))
suppress_example = suppress_lem thread write open_pipe write-IsWrite (λ h. absurd cc)

abbrev react : Connection → Reaction
react c = record { releases = c.fd == 8; throws = if c.fd == 9 then some standard else none }

abbrev listening : ListeningSocket
listening = record {
  answers =
      connects (record { fd = 8; address = [] })
      ∷ connects (record { fd = 9; address = [] })
      ∷ would_block
      ∷ [];
  has_handler = true;
  handler_throws = false;
  calls = [];
  released = [];
  closed = [];
  reports = 0;
}

serves_example : Handled react listening.answers listening (handle_events_cb react listening)
serves_example = serves_lem react listening
