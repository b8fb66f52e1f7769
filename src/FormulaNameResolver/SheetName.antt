-- ===== src/FormulaNameResolver/SheetName.antt =====
-- The name of a sheet in front of an address.
pub mod Defs
pub mod RoundTrip
