-- ===== src/ControlMessage.antt =====
-- include/EventLoop/ControlMessage.hpp and src/lib/ControlMessage.cpp: ancillary data of sockets.
pub mod Defs
pub mod Layout
pub mod RoundTrip
pub mod PastEnd
