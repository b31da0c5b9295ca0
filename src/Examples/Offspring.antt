-- ===== src/Examples/Offspring.antt =====
-- A kernel as Linux is, a child process that runs, one that exited with code 3, and one that is fed with two bytes.
use bb_eventloop.Common.{
  ◌≡◌, refl, none, some, [], ◌∷◌, true, false, arith, returns, throws, system_exception,
}
use bb_eventloop.Children.Defs.{
  Kernel, IsKernel, running, reaped, ended, ChildProcess, Callbacks, close_all, kill,
  sig_child_received,
}
use bb_eventloop.Children.Ending.{exits, waited_for, kill_twice, sig_child_received_lem}
use bb_eventloop.Children.Feeding.{feed, feed_lem}

abbrev kernel : Kernel
kernel = record {
  kill = λ c. elim c [ running ↦ ended 9 | ended status ↦ ended status | reaped ↦ reaped ];
  wait = λ c. elim c [
    | running ↦ throws system_exception
    | ended status ↦ returns reaped
    | reaped ↦ throws system_exception
  ];
  poll = λ c. elim c [
    | running ↦ returns (none, running)
    | ended status ↦ returns (some status, reaped)
    | reaped ↦ throws system_exception
  ];
}

kernel-IsKernel : IsKernel kernel
kernel-IsKernel = record {
  kill_running = refl;
  kill_ended = λ status. refl;
  kill_reaped = refl;
  wait_ended = λ status. refl;
  wait_reaped = refl;
  poll_ended = λ status. refl;
}

abbrev parent : Callbacks
parent = record { has_success = true; has_error = true; has_signal = true }

abbrev worker : ChildProcess
worker = record {
  pid = 77;
  in_fd = some 4;
  out_fd = some 5;
  err_fd = some 6;
  child = running;
  source = 1 ∷ 2 ∷ [];
  good = true;
  fed = [];
  out_text = [];
  err_text = [];
  calls = [];
}

abbrev finished : ChildProcess
finished = record worker { child = ended 768 }

kill_twice_example :
    (q : ChildProcess) × (kill kernel worker ≡ returns q)
    × (q ≡ close_all (record worker { child = reaped }))
    × (kill kernel q ≡ throws system_exception)
kill_twice_example = kill_twice kernel worker kernel-IsKernel (omega arith) (λ h. cc)

sig_child_received_example :
    (sig_child_received parent kernel finished ≡ returns (waited_for parent (exits 3) finished))
    × (sig_child_received parent kernel (waited_for parent (exits 3) finished)
        ≡ returns (waited_for parent (exits 3) finished))
    × (kill kernel (waited_for parent (exits 3) finished)
        ≡ returns (waited_for parent (exits 3) finished))
sig_child_received_example =
    sig_child_received_lem parent kernel finished (exits 3) kernel-IsKernel (omega arith) refl refl

feed_example :
    feed 2 worker ≡ record worker { in_fd = none; source = []; good = false; fed = 1 ∷ 2 ∷ [] }
feed_example = feed_lem 1 4 worker refl refl (omega arith)
