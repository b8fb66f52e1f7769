-- ===== src/FormulaNameResolver/A1.antt =====
-- The A1 form of an address, without the name of a sheet.
pub mod Defs
pub mod Digits
pub mod RoundTrip
pub mod Bounds
