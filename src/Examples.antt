-- ===== src/Examples.antt =====
-- Concrete states and runs of the modelled code.
mod Addresses
mod Ancillaries
mod Buffers
mod Flows
mod Interrupts
mod Clocks
mod Lifetimes
mod Offspring
mod Packets
mod Queues
mod Rounds
mod Turns
mod Wakes
