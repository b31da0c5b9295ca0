-- ===== src/Descriptors.antt =====
-- src/lib/FileDescriptor.cpp, objects that own a file descriptor.
pub mod Defs
pub mod Owned
