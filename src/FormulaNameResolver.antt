-- ===== src/FormulaNameResolver.antt =====
-- The A1 form of addresses and the names of sheets in src/libixion/formula_name_resolver.cpp.
pub mod A1
pub mod SheetName
