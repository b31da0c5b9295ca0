-- ===== src/Timers.antt =====
-- src/lib/TimerQueue.cpp and src/lib/Timer.cpp: the timers of a runner.
pub mod Defs
pub mod Entries
pub mod Invariant
pub mod Contract
