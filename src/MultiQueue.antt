-- ===== src/MultiQueue.antt =====
-- src/multiqueue.rs: the queue that `broadcast` and `mpmc` wrap.
pub mod Policy
pub mod State
pub mod Send
pub mod Recv
pub mod Handles
pub mod Blocking
pub mod Teardown
pub mod Threads
pub mod Futures
