-- ===== src/Children.antt =====
-- src/lib/ChildProcess.cpp: a child process, its pipes and its end.
pub mod Defs
pub mod Ending
pub mod Feeding
