-- ===== src/FormulaInterpreter/Values.antt =====
-- Values of the stack and the operators of expressions on them.
pub mod Cells
pub mod Defs
pub mod Order
pub mod Result
pub mod Stack
