-- ===== src/FormulaInterpreter/Values/Stack.antt =====
-- `formula_value_stack`, by the definitions of Defs.
pub mod Defs
pub mod Booleans
pub mod Takes
pub mod Texts
