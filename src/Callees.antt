-- ===== src/Callees.antt =====
-- include/EventLoop/Callee.hpp and include/EventLoop/WeakCallback.hpp, callbacks that do nothing once the
-- object that they are for is destroyed.
pub mod Defs
pub mod Alive
pub mod Copied
