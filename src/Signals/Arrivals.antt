-- ===== src/Signals/Arrivals.antt =====
-- What EpollRunner does when signals arrive: SignalFD::handleEventsCb, and setSignals of the runner itself.
-- `bind` gives the callback that calls the signal handler with a number, and the list of the signals that the
-- descriptor has ends where read(2) has nothing.
use bb_eventloop.Common.{
  ℕ, ◌≡◌, sym, ◌∙◌, Option, none, some, List, [], ◌∷◌, ◌++◌, map, append-nil, append_assoc, Bool,
  Outcome, returns, throws, ◌>>=◌, no_signal_handling,
}
use bb_eventloop.Callbacks.{CallbackQueue, push}
use bb_eventloop.Signals.Defs.{SignalSet, SignalFd, set_signals}

unfoldable pub read_signals : (ℕ → ℕ) → List ℕ → CallbackQueue → CallbackQueue
read_signals bind [] q = q
read_signals bind (signal ∷ signals) q = read_signals bind signals (push q (bind signal)).0

-- EpollRunner::setSignals, where there may be no SignalFD
unfoldable pub set_runner_signals :
    (ℕ → Bool) → Option SignalFd → SignalSet → Outcome (Option SignalFd)
set_runner_signals is_signal none signal_set = throws no_signal_handling
set_runner_signals is_signal (some f) signal_set = do
  f' ← set_signals is_signal f signal_set
  returns (some f')

-- Every signal that arrived is queued once for the handler, behind what is queued, in the order of arrival.
pub read_signals_lem :
    (bind : ℕ → ℕ) (arrived : List ℕ) (q : CallbackQueue)
    → (read_signals bind arrived q).queue ≡ q.queue ++ map bind arrived
unfolding read_signals push
read_signals_lem bind [] q = sym (append-nil q.queue)
read_signals_lem bind (s ∷ ss) q =
    read_signals_lem bind ss (push q (bind s)).0 ∙ append_assoc q.queue (bind s ∷ []) (map bind ss)
