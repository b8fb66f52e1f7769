-- ===== src/AddressIterator.antt =====
-- `abs_address_iterator` (src/libixion/address_iterator.cpp): its steps in Defs, its states in States, that
-- the steps undo each other in Vertical and Inverse, and the cells that a loop visits in Visits.
pub mod Defs
pub mod States
pub mod Vertical
pub mod Inverse
pub mod Visits
