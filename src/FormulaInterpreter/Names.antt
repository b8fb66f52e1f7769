-- ===== src/FormulaInterpreter/Names.antt =====
-- The expansion of named expressions, by what its theorems say.
pub mod Defs
pub mod Repeated
pub mod Outcome
pub mod Formula
