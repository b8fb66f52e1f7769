-- ===== src/FormulaLexer/Token.antt =====
-- `lexer_opcode_t`, `formula_error_t` and `lexer_token`.
use ixion.Prelude.{ℕ, List}

-- The opcodes of tokens without a value.
pub data Opcode : Type 0 where
  plus minus divide multiply exponent : Opcode
  concat equal less greater : Opcode
  paren_open paren_close sep array_open array_close array_row_sep : Opcode

-- The values of `formula_error_t` that an error token of the lexer has.
pub data FormulaError : Type 0 where
  ref_result_not_available division_by_zero invalid_expression name_not_found : FormulaError
  no_range_intersection invalid_value_type no_value_available : FormulaError

-- A string view into the input is the list of its bytes.
abbrev pub Bytes : Type 0
Bytes = List ℕ

-- `lexer_token`, over the type of the floating-point numbers.
pub data LexerToken {ℓ} (Double : Type ℓ) : Type ℓ where
  op : Opcode → LexerToken Double
  name : Bytes → LexerToken Double
  string : Bytes → LexerToken Double
  value : Double → LexerToken Double
  error : FormulaError → LexerToken Double
