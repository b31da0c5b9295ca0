-- ===== src/Listening.antt =====
-- src/lib/ListeningSocket.cpp, a socket that accepts connections.
pub mod Defs
pub mod Accepted
