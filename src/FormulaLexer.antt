-- ===== src/FormulaLexer.antt =====
-- The tokenizer (src/libixion/formula_lexer.cpp, src/libixion/lexer_tokens.hpp): tokens in Token, the
-- state machine in Defs, that it ends in Ends, that it loses nothing in Spelling, and
-- where it throws in Errors.
pub mod Token
pub mod Defs
pub mod Ends
pub mod Errors
pub mod Keys
pub mod Loops
pub mod Spelling
