-- ===== src/DepthFirstSearch.antt =====
-- `depth_first_search` (src/include/depth_first_search.hpp): the class in Defs, its graph in Graph, the
-- reading of its colours in Colors, one call of `visit` in Visit, and the whole run in Run.
pub mod Defs
pub mod Graph
mod Colors
mod Index
mod Invariant
mod Assign
mod Visit
pub mod Run
