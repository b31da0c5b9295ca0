-- ===== src/Signals.antt =====
-- src/lib/SignalSet.cpp, and the signals of an EpollRunner.
pub mod Defs
pub mod Members
pub mod Masks
pub mod Arrivals
