-- ===== src/DirtyCellTracker.antt =====
-- `dirty_cell_tracker` (src/libixion/dirty_cell_tracker.cpp): the operations in Defs over the R-tree of
-- Rtree, what they record in Record, and the two queries in Query and Sort.
pub mod Rtree
pub mod Defs
pub mod Closure
pub mod Record
pub mod Remove
pub mod Sheets
pub mod Query
pub mod Sort
