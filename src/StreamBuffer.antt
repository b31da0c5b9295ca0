-- ===== src/StreamBuffer.antt =====
-- src/lib/StreamBuffer.cpp and include/EventLoop/StreamBuffer.hpp.
-- `Memory` is the heap with the shared blocks, `Defs` the class and its operations; the other
-- modules prove what the operations do to the bytes that a stream buffer holds.
pub mod Memory
pub mod Defs
pub mod Arrays
pub mod Cells
pub mod Locate
pub mod Disjoint
pub mod Cut
pub mod Allocate
pub mod Copy
pub mod Fill
pub mod Append
pub mod Sharing
pub mod Join
pub mod Gather
pub mod Linear
pub mod Linearize
pub mod Insert
pub mod Reserve
pub mod Values
pub mod Vectors
pub mod Ranges
