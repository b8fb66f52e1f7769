-- ===== src/DirtyCellTracker/Closure.antt =====
-- The loops of the two queries: the loops in Defs, what they mark in Marks, and their invariant in
-- Progress; Close is the loop of `query_dirty_cells`, Related and Recorded are about that of the other.
pub mod Defs
pub mod Marks
pub mod Progress
pub mod Close
pub mod Related
pub mod Recorded
