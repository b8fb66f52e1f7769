-- ===== src/FormulaParser.antt =====
-- `formula_parser` (src/libixion/formula_parser.cpp): tokens in Token, the parser in Defs, what its tokens
-- stand for in Spelling, one round of its loop in Steps, and a whole run in Runs.
pub mod Token
pub mod Defs
pub mod Spelling
pub mod Steps
pub mod Runs
