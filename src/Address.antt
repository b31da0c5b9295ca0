-- ===== src/Address.antt =====
-- src/lib/SocketAddress.cpp: socket addresses as blocks of bytes, their order and their text.
pub mod Defs
pub mod Lexicographic
pub mod Order
pub mod Validity
pub mod Pattern
pub mod Text
pub mod RoundTrip
