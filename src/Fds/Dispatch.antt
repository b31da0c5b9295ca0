-- ===== src/Fds/Dispatch.antt =====
-- The loop of EpollRunner::runImpl and AsyncRunner::waitAndHandleFDEvents over the events of one
-- wait. A listener may add, modify and delete listeners while it handles its event: `handle` gives
-- these calls, by the listener, the descriptor, the events and the runner that it finds. An exception
-- of a call is caught by the listener, which goes on then, or leaves it, and the loop with it.
use bb_eventloop.Common.{ℕ, Bool, none, some, List, [], ◌∷◌, ◌++◌, if◌then◌else◌, Exception}
use bb_eventloop.Fds.Defs.{
  Kernel, Runner, Ending, done, failed, aborted, find, has, start_monitoring, stop_monitoring, add,
  modify, del_fd_listener,
}

pub data Action : Type 0 where
  add_fd : ℕ → ℕ → ℕ → Action
  modify_fd : ℕ → ℕ → Action
  del_fd : ℕ → Action

-- A call, and whether the listener catches its exception.
abbrev pub Call : Type 0
Call = Action × Bool

-- What is seen from outside: a call of a listener for a descriptor and its events, a call of
-- delFDListener, and an exception that a listener catches.
pub data Step : Type 0 where
  called : ℕ → ℕ → ℕ → Step
  deleted : ℕ → Step
  caught : Exception → Step

-- How the loop ends: with all events handled, by an exception of a listener, by one of
-- FDListenerMap::get, or with the end of the process.
pub data Round (S : Type 0) : Type 0 where
  handled : S → Round S
  escaped : S → Exception → Round S
  lost : S → ℕ → Round S
  ended : Round S

abbrev pub trace : Action → List Step → List Step
trace (add_fd fl fd events) log = log
trace (modify_fd fd events) log = log
trace (del_fd fd) log = deleted fd ∷ log

-- The destructor of the FDMonitor::Guard runs on every way out of the block.
abbrev pub leave : {K : Type 0} → Round (Runner K) → Round (Runner K)
leave (handled s) = handled (stop_monitoring s)
leave (escaped s e) = escaped (stop_monitoring s) e
leave (lost s fd) = lost (stop_monitoring s) fd
leave ended = ended

module _ {K : Type 0} (kernel : Kernel K) where
  unfoldable pub perform : Runner K → Action → Ending (Runner K)
  perform s (add_fd fl fd events) = add kernel s fl fd events
  perform s (modify_fd fd events) = modify kernel s fd events
  perform s (del_fd fd) = del_fd_listener kernel s fd

  unfoldable pub perform_all : Runner K → List Call → Ending (Runner K) × List Step
  perform_all s [] = (done s, [])
  perform_all s ((a, catches) ∷ acts) = elim (perform s a) [
    | done s' ↦ let rest = perform_all s' acts in (rest.0, trace a rest.1)
    | failed s' e ↦
        let rest = perform_all s' acts in
        if catches then (rest.0, trace a (caught e ∷ rest.1)) else (failed s' e, trace a [])
    | aborted ↦ (aborted, trace a [])
  ]

  module _ (handle : ℕ → ℕ → ℕ → Runner K → List Call) where
    unfoldable pub dispatch_loop : Runner K → List (ℕ × ℕ) → Round (Runner K) × List Step
    dispatch_loop s [] = (handled s, [])
    dispatch_loop s ((fd, events) ∷ es) =
        let skipped = dispatch_loop s es in
        if has s.set fd then skipped else elim (find fd s.map) [
          | none ↦ (lost s fd, [])
          | some m ↦
              let (ending, log) = perform_all s (handle m.fl fd events s) in
              elim ending [
                | done s' ↦
                    let rest = dispatch_loop s' es in
                    (rest.0, called m.fl fd events ∷ log ++ rest.1)
                | failed s' e ↦ (escaped s' e, called m.fl fd events ∷ log)
                | aborted ↦ (ended, called m.fl fd events ∷ log)
              ]
        ]

    unfoldable pub handle_events : Runner K → List (ℕ × ℕ) → Round (Runner K) × List Step
    handle_events s es =
        let round = dispatch_loop (start_monitoring s) es in (leave round.0, round.1)
