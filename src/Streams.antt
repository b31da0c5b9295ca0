-- ===== src/Streams.antt =====
-- src/lib/StreamSocket.cpp: a socket that sends the bytes of its output buffer as the kernel takes them.
pub mod Defs
pub mod Sending
pub mod Writing
pub mod Events
pub mod Handling
pub mod Run
pub mod Refused
