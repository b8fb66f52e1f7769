-- ===== src/FormulaInterpreter.antt =====
-- `formula_interpreter`: the tokens of a formula, with its named expressions expanded, and their value.
pub mod Tokens
pub mod Names
pub mod Operations
pub mod Array
pub mod Grammar
pub mod Syntax
pub mod Interpret
pub mod Termination
pub mod Values
