-- ===== src/Handlers.antt =====
-- src/lib/UncaughtExceptionHandler.cpp, the handlers that the library sets in the C++ runtime, and
-- src/lib/SigPipeSuppressor.cpp, which keeps SIGPIPE from a thread for the life of an object.
pub mod Terminate
pub mod Nested
pub mod Pipe
pub mod Suppressed
