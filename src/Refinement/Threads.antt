-- ===== src/Refinement/Threads.antt =====
-- The threads of MultiQueue/Threads.antt against the log of the values sent.
pub mod Sound
pub mod Room
pub mod Frame
pub mod Changes
pub mod Advance
pub mod Assembly
pub mod Flags
pub mod Senders
pub mod Receivers
pub mod Reached
pub mod Delivery
pub mod Counts
pub mod Pins
pub mod Pinning
pub mod Cloning
pub mod Alone
pub mod Progress
pub mod Values
pub mod Consuming
pub mod Receiving
