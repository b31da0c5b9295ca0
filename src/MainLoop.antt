-- ===== src/MainLoop.antt =====
-- EpollRunner::run of src/lib/EpollRunner.cpp: a turn of its loop executes the callbacks, waits until the
-- first timer is due or a descriptor has events, and then executes that timer or hands the events out.
pub mod Defs
pub mod Waits
pub mod Conditions
pub mod Bodies
pub mod Punctual
pub mod Firing
pub mod Threads
pub mod Waking
pub mod Blocking
