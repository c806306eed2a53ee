-- ===== src/ReadCursor.antt =====
-- src/read_cursor.rs: the positions of the streams, the handles on them, and the group of positions
-- that the writers look at. A call runs with no other between its accesses, so that a
-- compare-exchange finds the pointer that was loaded last; both outcomes are written out.
pub mod Attempt
pub mod Group
pub mod Distance
pub mod Removal
pub mod Rounds
