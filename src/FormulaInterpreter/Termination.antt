-- ===== src/FormulaInterpreter/Termination.antt =====
-- The interpretation of tokens ends, whatever they are.
pub mod Steps
pub mod Total
