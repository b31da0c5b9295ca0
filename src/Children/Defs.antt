-- ===== src/Children/Defs.antt =====
-- The class ChildProcess after fork, with the state of the child that kill and waitpid see. A pipe end that
-- is open has its listener: the two are given up together. Wait statuses are numbers, as Linux codes them.
use bb_eventloop.Common.{
  ◌≡◌, ℕ, ◌/◌, ◌%◌, Option, none, some, List, [], ◌∷◌, ◌++◌, Bool, false, not, ◌&&◌, ◌==◌, leb,
  if◌then◌else◌, length, take, drop, Outcome, returns, throws, ◌>>=◌, system_exception, aborted,
}

-- It runs, it ended with a status that nobody waited for yet, or its pid is given back.
pub data Child : Type 0 where
  running reaped : Child
  ended : ℕ → Child

pub data Call : Type 0 where
  success : Call
  error signal : ℕ → Call

pub record ChildProcess : Type 0 where
  pub pid : ℕ
  pub in_fd : Option ℕ
  pub out_fd : Option ℕ
  pub err_fd : Option ℕ
  pub child : Child
  pub source : List ℕ
  pub good : Bool
  pub fed : List ℕ
  pub out_text : List ℕ
  pub err_text : List ℕ
  pub calls : List Call

-- Which callbacks are set.
pub record Callbacks : Type 0 where
  pub has_success : Bool
  pub has_error : Bool
  pub has_signal : Bool

abbrev pub call : Call → ChildProcess → ChildProcess
call c p = record p { calls = c ∷ p.calls }

abbrev pub pipe_buf : ℕ
pipe_buf = 4096

abbrev pub sigkill : ℕ
sigkill = 9

unfoldable pub close_all : ChildProcess → ChildProcess
close_all p = record p { in_fd = none; out_fd = none; err_fd = none }

-- What the system calls do to the child: kill with SIGKILL, whose result is not looked at, waitpid, and
-- waitpid with WNOHANG, which gives a status if it waited for the child.
pub record Kernel : Type 0 where
  pub kill : Child → Child
  pub wait : Child → Outcome Child
  pub poll : Child → Outcome (Option ℕ × Child)

-- What kill(2) and waitpid(2) say: SIGKILL ends a child that still runs, one that ended keeps its status
-- until it is waited for, and waiting for a child that is gone fails with ECHILD.
pub record IsKernel (k : Kernel) : Type 0 where
  pub kill_running : k.kill running ≡ ended sigkill
  pub kill_ended : (status : ℕ) → k.kill (ended status) ≡ ended status
  pub kill_reaped : k.kill reaped ≡ reaped
  pub wait_ended : (status : ℕ) → k.wait (ended status) ≡ returns reaped
  pub wait_reaped : k.wait reaped ≡ throws system_exception
  pub poll_ended : (status : ℕ) → k.poll (ended status) ≡ returns (some status, reaped)

-- kill, which the destructor calls too
unfoldable pub kill : Kernel → ChildProcess → Outcome ChildProcess
kill k p =
    if not (p.pid == 0)
    then (do child ← k.wait (k.kill p.child); returns (close_all (record p { child = child })))
    else returns (close_all p)

-- WIFEXITED, WEXITSTATUS, WTERMSIG and WIFSIGNALED
abbrev pub is_exited : ℕ → Bool
is_exited status = status % 128 == 0

abbrev pub exit_status : ℕ → ℕ
exit_status status = status / 256 % 256

abbrev pub term_signal : ℕ → ℕ
term_signal status = status % 128

abbrev pub is_signaled : ℕ → Bool
is_signaled status = not (status % 128 == 0) && not (status % 128 == 127)

module _ (c : Callbacks) where
  unfoldable pub handle_wait_status : ℕ → ChildProcess → Outcome ChildProcess
  handle_wait_status status p =
      if is_exited status
      then returns (
          if exit_status status == 0 && c.has_success
          then call success p
          else if not (status == 0) && c.has_error
          then call (error (exit_status status)) p
          else p)
      else if is_signaled status
      then returns (if c.has_signal then call (signal (term_signal status)) p else p)
      else throws aborted

  unfoldable pub sig_child_received : Kernel → ChildProcess → Outcome ChildProcess
  sig_child_received k p =
      if not (p.pid == 0)
      then (do
        (status, child) ← k.poll p.child
        elim status [
          | none ↦ returns (record p { child = child })
          | some n ↦ handle_wait_status n (close_all (record p { child = child; pid = 0 }))
        ])
      else returns p

-- The chunks that read gives, until there is none or it gives nothing.
unfoldable pub read_loop : List (List ℕ) → List ℕ → List ℕ
read_loop [] text = text
read_loop ([] ∷ chunks) text = text
read_loop ((b ∷ bs) ∷ chunks) text = read_loop chunks (text ++ (b ∷ bs))

abbrev pub is_fd : ℕ → Option ℕ → Bool
is_fd fd none = false
is_fd fd (some n) = n == fd

-- handleEventIn with getInput
unfoldable pub handle_event_in : ℕ → List (List ℕ) → ChildProcess → Outcome ChildProcess
handle_event_in fd chunks p =
    if is_fd fd p.out_fd
    then returns (record p { out_text = read_loop chunks p.out_text })
    else if is_fd fd p.err_fd
    then returns (record p { err_text = read_loop chunks p.err_text })
    else throws aborted

-- `accepts`: whether write takes the bytes or throws. A pipe that got EVENT_OUT takes PIPE_BUF bytes.
unfoldable pub handle_event_out : Bool → ChildProcess → ChildProcess
handle_event_out accepts p =
    if p.good
    then (let q = record p {
      source = drop pipe_buf p.source;
      good = leb pipe_buf (length p.source);
    } in
        if accepts
        then record q { fed = p.fed ++ take pipe_buf p.source }
        else record q { in_fd = none })
    else record p { in_fd = none }

unfoldable pub handle_event_hup : ℕ → ChildProcess → ChildProcess
handle_event_hup fd p =
    if is_fd fd p.out_fd
    then record p { out_fd = none }
    else if is_fd fd p.err_fd
    then record p { err_fd = none }
    else if is_fd fd p.in_fd
    then record p { in_fd = none }
    else p

-- The events of a descriptor, and what the reads and the write on it will give.
pub record Events : Type 0 where
  pub event_in : Bool
  pub event_out : Bool
  pub event_hup : Bool
  pub chunks : List (List ℕ)
  pub accepts : Bool

unfoldable pub handle_events_cb : ℕ → Events → ChildProcess → Outcome ChildProcess
handle_events_cb fd e p =
    (if e.event_in then handle_event_in fd e.chunks p else returns p)
    >>= (λ q. returns (if e.event_out then handle_event_out e.accepts q else q))
    >>= (λ q. returns (if e.event_hup then handle_event_hup fd q else q))
