-- ===== src/MultiQueue/Futures.antt =====
-- The futures part of src/multiqueue.rs: handles that park a task of the futures crate where those of
-- MultiQueue/Handles.antt would refuse or wait. All handles of a queue share the two `FutWait`s; the
-- type of the tasks is a parameter, the task that calls is an argument, and the tasks notified so
-- far are listed.
pub mod Wait
pub mod State
pub mod Send
pub mod Park
pub mod Recv
pub mod Uni
pub mod Steps
