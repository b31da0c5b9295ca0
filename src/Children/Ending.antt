-- ===== src/Children/Ending.antt =====
-- The end of a child process: it is killed, or waited for once it ended.
use bb_eventloop.Common.{
  ap, ◌∙◌, ℕ, ◌*◌, ◌+◌, ◌/◌, ◌%◌, ◌<◌, ◌&&◌, ◌++◌, ◌==◌, ltb, if◌then◌else◌, ◌≡◌, ◌≢◌, refl, none,
  List, [], ◌∷◌, Bool, true, false, arith, returns, throws, system_exception,
}
use bb_eventloop.Children.Defs.{
  Child, running, reaped, ended, ChildProcess, close_all, Kernel, IsKernel, kill, Callbacks,
  sig_child_received, handle_wait_status, Call, success, error, signal,
}

killed : (k : Kernel) (c : Child) → IsKernel k → c ≢ reaped → k.wait (k.kill c) ≡ returns reaped
killed k running v h = ap k.wait v.kill_running ∙ v.wait_ended 9
killed k (ended status) v h = ap k.wait (v.kill_ended status) ∙ v.wait_ended status
killed k reaped v h = absurd (h refl)

gone : (k : Kernel) → IsKernel k → k.wait (k.kill reaped) ≡ throws system_exception
gone k v = ap k.wait v.kill_reaped ∙ v.wait_reaped

-- With a kernel that does what its manual says, a child that was not waited for yet: kill returns, with all the pipes closed, the child gone and the pid
-- kept. A second kill, as that of the destructor, throws then: waitpid does not know the child any more.
pub kill_twice :
    (k : Kernel) (p : ChildProcess)
    → IsKernel k
    → p.pid ≢ 0
    → p.child ≢ reaped
    → (q : ChildProcess) × (kill k p ≡ returns q)
      × (q ≡ close_all (record p { child = reaped }))
      × (kill k q ≡ throws system_exception)
unfolding kill close_all
kill_twice k p v h n = (
  close_all (record p { child = reaped }),
  ground (arith, h, killed k p.child v n),
  refl,
  ground (arith, h, gone k v),
)

-- Why a child ended, and the wait status of that: an exit code, or a signal, with or without a core dump.
pub data Cause : Type 0 where
  exits : ℕ → Cause
  killed_by : ℕ → Bool → Cause

abbrev pub status_of : Cause → ℕ
status_of (exits n) = 256 * n
status_of (killed_by s core) = s + (if core then 128 else 0)

abbrev pub is_cause : Cause → Bool
is_cause (exits n) = ltb n 256
is_cause (killed_by s core) = ltb 0 s && ltb s 127

-- The callback for it, where it is set.
abbrev pub report : Callbacks → Cause → List Call
report c (exits n) =
    if n == 0
    then (if c.has_success then success ∷ [] else [])
    else (if c.has_error then error n ∷ [] else [])
report c (killed_by s core) = if c.has_signal then signal s ∷ [] else []

handle_wait_status-exits :
    (c : Callbacks) (p : ChildProcess) (n : ℕ)
    → n < 256
    → handle_wait_status c (256 * n) p
      ≡ returns (record p { calls = report c (exits n) ++ p.calls })
unfolding handle_wait_status
handle_wait_status-exits c p n h =
    let code : 256 * n / 256 % 256 ≡ n = omega arith in
    let low : 256 * n % 128 ≡ 0 = omega arith in ground (arith, code, low)

handle_wait_status-killed_by :
    (c : Callbacks) (p : ChildProcess) (s status : ℕ)
    → 0 < s
    → s < 127
    → status % 128 ≡ s
    → handle_wait_status c status p
      ≡ returns (record p { calls = (if c.has_signal then signal s ∷ [] else []) ++ p.calls })
unfolding handle_wait_status
handle_wait_status-killed_by c p s status h k e = ground (arith, e)

handle_wait_status_lem :
    (c : Callbacks) (p : ChildProcess) (cause : Cause)
    → is_cause cause ≡ true
    → handle_wait_status c (status_of cause) p
      ≡ returns (record p { calls = report c cause ++ p.calls })
handle_wait_status_lem c p (exits n) h = handle_wait_status-exits c p n (ground (arith, h))
handle_wait_status_lem c p (killed_by s false) h =
    handle_wait_status-killed_by c p s (s + 0) (ground (arith, h)) (ground (arith, h))
      (ground (arith, h))
handle_wait_status_lem c p (killed_by s true) h =
    handle_wait_status-killed_by c p s (s + 128) (ground (arith, h)) (ground (arith, h))
      (ground (arith, h))

-- What SIGCHLD leaves of a process whose child ended.
abbrev pub waited_for : Callbacks → Cause → ChildProcess → ChildProcess
waited_for c cause p = record p {
  pid = 0;
  child = reaped;
  in_fd = none;
  out_fd = none;
  err_fd = none;
  calls = report c cause ++ p.calls;
}

-- With such a kernel, a child that ended with an exit code, or by a signal, and was not waited for yet: on SIGCHLD it is, all
-- the pipes are closed, and the callback for the code 0, for another code or for the signal, where it is
-- set, is called once with what the child ended with. A further SIGCHLD or kill, as that of the
-- destructor, changes nothing.
pub sig_child_received_lem :
    (c : Callbacks) (k : Kernel) (p : ChildProcess) (cause : Cause)
    → IsKernel k
    → p.pid ≢ 0
    → is_cause cause ≡ true
    → p.child ≡ ended (status_of cause)
    → (sig_child_received c k p ≡ returns (waited_for c cause p))
      × (sig_child_received c k (waited_for c cause p) ≡ returns (waited_for c cause p))
      × (kill k (waited_for c cause p) ≡ returns (waited_for c cause p))
unfolding sig_child_received kill close_all
sig_child_received_lem c k p cause v h i e = (
  ground (
    arith,
    h,
    ap k.poll e ∙ v.poll_ended (status_of cause),
    handle_wait_status_lem c (close_all (record p { child = reaped; pid = 0 })) cause i,
  ),
  refl,
  refl,
)
