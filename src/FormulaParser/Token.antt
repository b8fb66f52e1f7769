-- ===== src/FormulaParser/Token.antt =====
-- `fopcode_t`, `table_t`, `formula_token` and `formula_name_t`.
use ixion.Prelude.{ℕ, Bool, ◌&&◌, ◌==◌, ◌≡◌, arith}
use ixion.Address.Defs.{Address, Range}
use ixion.FormulaLexer.Token.{Bytes, FormulaError}

-- The opcodes that the parser gives to tokens without a value.
pub data Fopcode : Type 0 where
  fop_plus fop_minus fop_divide fop_multiply fop_exponent fop_concat : Fopcode
  fop_equal fop_not_equal fop_less fop_greater fop_less_equal fop_greater_equal : Fopcode
  fop_open fop_close fop_sep fop_array_row_sep fop_array_open fop_array_close : Fopcode

-- `table_t`, whose strings are identifiers in the pool.
pub record Table : Type 0 where
  pub name : ℕ
  pub column_first : ℕ
  pub column_last : ℕ
  pub areas : ℕ

-- `operator==` of `table_t`. It compares the last column of one with the first column of the other.
unfoldable pub eq_table : Table → Table → Bool
eq_table t r =
    t.name == r.name
    && (t.column_first == r.column_first && (t.column_last == r.column_first && t.areas == r.areas))

-- `formula_name_t::table_type`, whose strings are views of the formula.
pub record TableName : Type 0 where
  pub name : Bytes
  pub column_first : Bytes
  pub column_last : Bytes
  pub areas : ℕ

-- `formula_token`, over the types of numbers and of functions.
pub data FormulaToken {ℓ} (Double Function : Type ℓ) : Type ℓ where
  operator : Fopcode → FormulaToken Double Function
  single_ref : Address → FormulaToken Double Function
  range_ref : Range → FormulaToken Double Function
  table_ref : Table → FormulaToken Double Function
  function_token : Function → FormulaToken Double Function
  error_token : FormulaError → FormulaToken Double Function
  value_token : Double → FormulaToken Double Function
  string_token : ℕ → FormulaToken Double Function
  named_expression_token : Bytes → FormulaToken Double Function

-- `formula_name_t`
pub data FormulaName {ℓ} (Function : Type ℓ) : Type ℓ where
  invalid named_expression : FormulaName Function
  cell_reference : Address → FormulaName Function
  range_reference : Range → FormulaName Function
  table_reference : TableName → FormulaName Function
  function : Function → FormulaName Function

-- A table equals itself by that operator exactly where its two columns are the same.
pub eq_table_self : (t : Table) → eq_table t t ≡ (t.column_first == t.column_last)
unfolding eq_table
eq_table_self t = ground arith
