-- ===== src/Address.antt =====
-- Cell addresses and ranges (include/ixion/address.hpp, src/libixion/address.cpp): the types and their
-- operations in Defs, `operator<` in Order, and the cells of ranges in Range.
pub mod Defs
pub mod Order
pub mod Range
