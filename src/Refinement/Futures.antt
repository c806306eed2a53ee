-- ===== src/Refinement/Futures.antt =====
-- The futures part of src/multiqueue.rs against the log.
pub mod Waking
pub mod Offers
pub mod Sink
pub mod Start
pub mod Parking
pub mod Polling
pub mod Poll
pub mod Panics
pub mod NoReader
pub mod Wakeups
pub mod Rescue
pub mod Dropping
