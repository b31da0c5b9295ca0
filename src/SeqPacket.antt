-- ===== src/SeqPacket.antt =====
-- src/lib/SeqPacketSocket.cpp: a socket that sends whole packets, in order, and queues what the kernel refuses.
pub mod Defs
pub mod Queue
pub mod Sending
pub mod Events
pub mod Run
pub mod Draining
pub mod Greeting
pub mod Refused
