-- ===== src/Examples/Interrupts.antt =====
-- Signals: SIGINT blocked at the start, SIGHUP and the real-time signal 34 handled, SIGTERM to be handled.
use bb_eventloop.Common.{
  ℕ, ◌<◌, ◌≤◌, ◌≡◌, refl, Bool, true, false, ◌&&◌, ◌||◌, ◌==◌, leb, arith, returns,
}
use bb_eventloop.Signals.Defs.{SignalSet, SignalFd, can_block, set_signals}
use bb_eventloop.Signals.Masks.{set_signals_lem, set_signals_unblocks}

abbrev is_signal : ℕ → Bool
is_signal sig = leb 1 sig && leb sig 64

known : (i : ℕ) → 1 ≤ i → i < 32 → is_signal i ≡ true
known i h k = ground arith

abbrev interrupt : SignalSet
interrupt sig = sig == 2

abbrev hang_up : SignalSet
hang_up sig = sig == 1 || sig == 34

abbrev terminate : SignalSet
terminate sig = sig == 15 || sig == 34

abbrev handler : SignalFd
handler = record {
  handled_signals = hang_up;
  originally_blocked_signals = interrupt;
  blocked = λ sig. interrupt sig || (hang_up sig && can_block sig);
  fd_signals = hang_up;
}

set_signals_example :
    (g : SignalFd) × (set_signals is_signal handler terminate ≡ returns g)
    × (g.blocked 2 ≡ g.originally_blocked_signals 2 || (g.handled_signals 2 && can_block 2))
    × (g.fd_signals 2 ≡ terminate 2)
    × (g.handled_signals 2 ≡ terminate 2)
    × (g.originally_blocked_signals 2 ≡ handler.originally_blocked_signals 2)
set_signals_example =
    set_signals_lem is_signal known handler terminate 2 (omega arith) (omega arith) refl

set_signals_unblocks_example :
    (g : SignalFd) × (set_signals is_signal handler terminate ≡ returns g) × (g.blocked 34 ≡ false)
set_signals_unblocks_example =
    set_signals_unblocks is_signal known handler terminate 34 (omega arith) refl refl
