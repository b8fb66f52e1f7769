-- ===== src/FormulaInterpreter/Syntax.antt =====
-- The expressions that formulas stand for: their tokens, and the value that the structure of the expression
-- gives them. Inline arrays are left out here.
pub mod Defs
pub mod Runs
pub mod Evaluates
