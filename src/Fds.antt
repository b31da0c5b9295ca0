-- ===== src/Fds.antt =====
-- The listeners of file descriptors: src/lib/FDListenerMap.cpp, src/lib/Epoll.cpp, src/lib/FDMonitor.cpp,
-- and what src/lib/BaseEpollRunner.cpp, src/lib/EpollRunner.cpp and src/lib/AsyncRunner.cpp make of them.
pub mod Defs
pub mod Entries
pub mod Registry
pub mod Adding
pub mod Modifying
pub mod Deleting
pub mod Dispatch
pub mod Tracking
pub mod Performing
pub mod Actions
pub mod Round
pub mod Calm
