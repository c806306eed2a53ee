-- ===== src/Refinement.antt =====
-- The queue of src/multiqueue.rs against a log: the list of all values sent so far, in which every
-- stream has a position.
pub mod Log
pub mod Writing
pub mod Sending
pub mod Multi
pub mod Receiving
pub mod Taking
pub mod Rounds
pub mod Loop
pub mod Waiting
pub mod Fresh
pub mod Closing
pub mod Calls
pub mod Runs
pub mod Blocking
pub mod Woken
pub mod Signals
pub mod Handles
pub mod Handing
pub mod Streams
pub mod Leaving
pub mod Sharing
pub mod Threads
pub mod Futures
