-- ===== src/Signals/Defs.antt =====
-- The class SignalSet, a sigset_t as the numbers that it holds, and EpollRunner::SignalFD with the mask of
-- blocked signals of the thread and the signals of its signalfd. Which numbers the C library takes for
-- signals is a parameter. Signal numbers are not negative.
use bb_eventloop.Common.{
  ℕ, zero, suc, ◌+◌, ◌-◌, List, [], ◌∷◌, ◌++◌, Bool, true, false, not, ◌&&◌, ◌||◌, ◌==◌,
  if◌then◌else◌, update, Outcome, returns, throws, ◌>>=◌, system_exception, codes,
}

abbrev pub SignalSet : Type 0
SignalSet = ℕ → Bool

-- SignalSet::MAX_SIGNAL, the number of the signals with a name
abbrev pub max_signal : ℕ
max_signal = 31

abbrev pub empty : SignalSet
empty sig = false

-- The names of the signals from 1 on, without the second names that the map has for some of them.
abbrev pub signal_name_map : List (List ℕ)
signal_name_map =
    codes "SIGHUP"
    ∷ codes "SIGINT"
    ∷ codes "SIGQUIT"
    ∷ codes "SIGILL"
    ∷ codes "SIGTRAP"
    ∷ codes "SIGABRT"
    ∷ codes "SIGBUS"
    ∷ codes "SIGFPE"
    ∷ codes "SIGKILL"
    ∷ codes "SIGUSR1"
    ∷ codes "SIGSEGV"
    ∷ codes "SIGUSR2"
    ∷ codes "SIGPIPE"
    ∷ codes "SIGALRM"
    ∷ codes "SIGTERM"
    ∷ codes "SIGSTKFLT"
    ∷ codes "SIGCHLD"
    ∷ codes "SIGCONT"
    ∷ codes "SIGSTOP"
    ∷ codes "SIGTSTP"
    ∷ codes "SIGTTIN"
    ∷ codes "SIGTTOU"
    ∷ codes "SIGURG"
    ∷ codes "SIGXCPU"
    ∷ codes "SIGXFSZ"
    ∷ codes "SIGVTALRM"
    ∷ codes "SIGPROF"
    ∷ codes "SIGWINCH"
    ∷ codes "SIGIO"
    ∷ codes "SIGPWR"
    ∷ codes " SIGSYS"
    ∷ []

unfoldable pub find_name : List (List ℕ) → ℕ → List ℕ
find_name [] sig = codes "unknown-signal"
find_name (n ∷ ns) zero = codes "unknown-signal"
find_name (n ∷ ns) (suc sig) = if sig == 0 then n else find_name ns sig

unfoldable pub signal_to_string : ℕ → List ℕ
signal_to_string sig = find_name signal_name_map sig

-- The signals behind a comma each, but for the first one.
abbrev pub join_names : List ℕ → List ℕ
join_names [] = []
join_names (sig ∷ sigs) = 44 ∷ signal_to_string sig ++ join_names sigs

abbrev pub output_names : List ℕ → List ℕ
output_names [] = []
output_names (sig ∷ sigs) = signal_to_string sig ++ join_names sigs

-- `is_signal` says for which numbers sigaddset, sigdelset and sigismember do not fail with EINVAL.
module _ (is_signal : ℕ → Bool) where
  -- sigismember returns -1 for another number, which counts as true
  abbrev pub is_set : SignalSet → ℕ → Bool
  is_set s sig = if is_signal sig then s sig else true

  unfoldable pub set : SignalSet → ℕ → Outcome SignalSet
  set s sig = if is_signal sig then returns (update s sig true) else throws system_exception

  unfoldable pub unset : SignalSet → ℕ → Outcome SignalSet
  unset s sig = if is_signal sig then returns (update s sig false) else throws system_exception

  -- The loops count how many signals are left.
  unfoldable pub size_loop : SignalSet → ℕ → ℕ → ℕ
  size_loop s zero i = 0
  size_loop s (suc left) i = (if is_set s i then 1 else 0) + size_loop s left (i + 1)

  unfoldable pub size : SignalSet → ℕ
  size s = size_loop s max_signal 1

  unfoldable pub next_loop : SignalSet → ℕ → ℕ → ℕ
  next_loop s zero i = max_signal + 1
  next_loop s (suc left) i = if is_set s i then i else next_loop s left (i + 1)

  unfoldable pub get_next : SignalSet → ℕ → ℕ
  get_next s current = next_loop s (max_signal - current) (current + 1)

  unfoldable pub equal_loop : SignalSet → SignalSet → ℕ → ℕ → Bool
  equal_loop s t zero i = true
  equal_loop s t (suc left) i =
      (is_set s i && is_set t i || not (is_set s i) && not (is_set t i))
      && equal_loop s t left (i + 1)

  unfoldable pub equal : SignalSet → SignalSet → Bool
  equal s t = equal_loop s t (max_signal + 1) 0

  -- What an iteration from begin() to end() visits; there are at most as many signals as fuel.
  unfoldable pub iterate : SignalSet → ℕ → ℕ → List ℕ
  iterate s zero i = []
  iterate s (suc fuel) i = if i == max_signal + 1 then [] else i ∷ iterate s fuel (get_next s i)

  unfoldable pub signals : SignalSet → List ℕ
  signals s = iterate s (max_signal + 1) (get_next s 0)

  unfoldable pub output : SignalSet → List ℕ
  output s = output_names (signals s)

-- The fields of SignalFD, the signals that the thread blocks, and those that the signalfd reads.
pub record SignalFd : Type 0 where
  pub handled_signals : SignalSet
  pub originally_blocked_signals : SignalSet
  pub blocked : SignalSet
  pub fd_signals : SignalSet

-- sigprocmask, which ignores SIGKILL and SIGSTOP
abbrev pub can_block : ℕ → Bool
can_block sig = not (sig == 9 || sig == 19)

abbrev pub unite : SignalSet → SignalSet → SignalSet
unite s t sig = s sig || (t sig && can_block sig)

abbrev pub take_away : SignalSet → SignalSet → SignalSet
take_away s t sig = s sig && not (t sig)

-- The constructor, from the mask of the thread.
unfoldable pub start : SignalSet → SignalSet → SignalFd
start mask signal_set = record {
  handled_signals = signal_set;
  originally_blocked_signals = mask;
  blocked = unite mask signal_set;
  fd_signals = signal_set;
}

-- The destructor, as the mask that it leaves.
unfoldable pub finish : SignalFd → SignalSet
finish f = f.originally_blocked_signals

module _ (is_signal : ℕ → Bool) where
  -- The signals to block and to unblock, after a loop over the new signals and one over the signals
  -- that were blocked at the start.
  unfoldable pub plan_new :
      SignalFd → List ℕ → SignalSet × SignalSet → Outcome (SignalSet × SignalSet)
  plan_new f [] plan = returns plan
  plan_new f (i ∷ is) (block, unblock) =
      if is_set is_signal f.originally_blocked_signals i
      then plan_new f is (block, unblock)
      else if not (is_set is_signal f.handled_signals i)
      then set is_signal block i >>= (λ block'. plan_new f is (block', unblock))
      else unset is_signal unblock i >>= (λ unblock'. plan_new f is (block, unblock'))

  unfoldable pub unset_all : List ℕ → SignalSet → Outcome SignalSet
  unset_all [] s = returns s
  unset_all (i ∷ is) s = unset is_signal s i >>= unset_all is

  unfoldable pub set_signals : SignalFd → SignalSet → Outcome SignalFd
  set_signals f signal_set = do
    (block, unblock) ← plan_new f (signals is_signal signal_set) (empty, f.handled_signals)
    unblock' ← unset_all (signals is_signal f.originally_blocked_signals) unblock
    returns (record f {
      handled_signals = signal_set;
      blocked = take_away (unite f.blocked block) unblock';
      fd_signals = signal_set;
    })
