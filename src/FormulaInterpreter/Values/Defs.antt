-- ===== src/FormulaInterpreter/Values/Defs.antt =====
-- `stack_value`, `pop_stack_value`, and what `expression` does with two values. Floating-point numbers, and the
-- operators on matrices, are parameters.
use ixion.Prelude.{Bool, true, false, not, ◌||◌, ◌&&◌, [], ◌∷◌, none, some, ltb, ◌==◌}
use ixion.Address.Defs.{AbsAddress, AbsRange}
use ixion.FormulaLexer.Token
use ixion.FormulaLexer.Token.{Bytes, FormulaError, invalid_value_type}
use ixion.FormulaParser.Token.{
  Fopcode, fop_plus, fop_minus, fop_equal, fop_not_equal, fop_less, fop_less_equal, fop_greater,
  fop_greater_equal,
}
use ixion.FormulaInterpreter.Operations.{
  Run, ran, threw, follow, invalid_expression, formula_error, formula_general_error,
}
use ixion.StringPool.Defs.{eq_bytes}
use ixion.FormulaInterpreter.Values.Cells.{
  CellError, FormulaResult, result_boolean, result_value, result_string, result_error,
  result_matrix, CellAccess, empty_cell, unknown_cell, boolean_cell, numeric_cell, string_cell,
  formula_cell, Numbers, get_formula_result,
}

pub data StackValue {ℓ} (Double Matrix : Type ℓ) : Type ℓ where
  boolean : Bool → StackValue Double Matrix
  error : CellError → StackValue Double Matrix
  value : Double → StackValue Double Matrix
  string : Bytes → StackValue Double Matrix
  single_ref : AbsAddress → StackValue Double Matrix
  range_ref : AbsRange → StackValue Double Matrix
  matrix : Matrix → StackValue Double Matrix

-- The comparison of a matrix with a number, from either side.
pub record Matrices {ℓ} (Double Matrix : Type ℓ) : Type ℓ where
  pub compare_value_to_matrix : Fopcode → Double → Matrix → Run Matrix
  pub compare_matrix_to_value : Fopcode → Matrix → Double → Run Matrix

-- `operator<` of strings.
unfoldable pub less_bytes : Bytes → Bytes → Bool
less_bytes [] [] = false
less_bytes [] (d ∷ t) = true
less_bytes (c ∷ s) [] = false
less_bytes (c ∷ s) (d ∷ t) = ltb c d || (c == d && less_bytes s t)

module _ {ℓ} {Double Matrix : Type ℓ} (num : Numbers Double) where
  -- A truth value is pushed as a number.
  abbrev pub push_test : Bool → Run (StackValue Double Matrix)
  push_test b = ran (value (num.of_bool b))

  -- `compare_values`; `a > b` is `b < a`, which is what it is for floating-point numbers.
  unfoldable pub compare_values : Fopcode → Double → Double → Run (StackValue Double Matrix)
  compare_values fop_plus a b = ran (value (num.add a b))
  compare_values fop_minus a b = ran (value (num.subtract a b))
  compare_values fop_equal a b = push_test (num.equal a b)
  compare_values fop_not_equal a b = push_test (not (num.equal a b))
  compare_values fop_less a b = push_test (num.less a b)
  compare_values fop_less_equal a b = push_test (num.less_equal a b)
  compare_values fop_greater a b = push_test (num.less b a)
  compare_values fop_greater_equal a b = push_test (num.less_equal b a)
  compare_values op a b = threw invalid_expression

  unfoldable pub compare_strings : Fopcode → Bytes → Bytes → Run (StackValue Double Matrix)
  compare_strings fop_plus s t = threw (formula_error Token.invalid_expression)
  compare_strings fop_minus s t = threw (formula_error Token.invalid_expression)
  compare_strings fop_equal s t = push_test (eq_bytes s t)
  compare_strings fop_not_equal s t = push_test (not (eq_bytes s t))
  compare_strings fop_less s t = push_test (less_bytes s t)
  compare_strings fop_less_equal s t = push_test (not (less_bytes t s))
  compare_strings fop_greater s t = push_test (less_bytes t s)
  compare_strings fop_greater_equal s t = push_test (not (less_bytes s t))
  compare_strings op s t = threw invalid_expression

  unfoldable pub compare_value_to_string : Fopcode → Double → Bytes → Run (StackValue Double Matrix)
  compare_value_to_string fop_plus a t = threw (formula_error Token.invalid_expression)
  compare_value_to_string fop_minus a t = threw (formula_error Token.invalid_expression)
  compare_value_to_string fop_equal a t = push_test false
  compare_value_to_string fop_not_equal a t = push_test true
  compare_value_to_string fop_less a t = push_test true
  compare_value_to_string fop_less_equal a t = push_test true
  compare_value_to_string fop_greater a t = push_test false
  compare_value_to_string fop_greater_equal a t = push_test false
  compare_value_to_string op a t = threw invalid_expression

  unfoldable pub compare_string_to_value : Fopcode → Bytes → Double → Run (StackValue Double Matrix)
  compare_string_to_value fop_plus s b = threw (formula_error Token.invalid_expression)
  compare_string_to_value fop_minus s b = threw (formula_error Token.invalid_expression)
  compare_string_to_value fop_equal s b = push_test false
  compare_string_to_value fop_not_equal s b = push_test true
  compare_string_to_value fop_less s b = push_test false
  compare_string_to_value fop_less_equal s b = push_test false
  compare_string_to_value fop_greater s b = push_test true
  compare_string_to_value fop_greater_equal s b = push_test true
  compare_string_to_value op s b = threw invalid_expression

  module _ (mat : Matrices Double Matrix) where
    -- The switch of `expression` over the types of the two values.
    unfoldable pub compare :
        Fopcode
        → StackValue Double Matrix
        → StackValue Double Matrix
        → Run (StackValue Double Matrix)
    compare op (value a) (value b) = compare_values op a b
    compare op (value a) (string t) = compare_value_to_string op a t
    compare op (value a) (matrix m) =
        follow (mat.compare_value_to_matrix op a m) (λ r. ran (matrix r))
    compare op (value a) (error e) = ran (error e)
    compare op (value a) w = threw formula_general_error
    compare op (string s) (value b) = compare_string_to_value op s b
    compare op (string s) (string t) = compare_strings op s t
    compare op (string s) w = threw formula_general_error
    compare op (matrix m) (value b) =
        follow (mat.compare_matrix_to_value op m b) (λ r. ran (matrix r))
    compare op (matrix m) w = threw formula_general_error
    compare op (error e) w = ran (error e)
    compare op v w = threw formula_general_error

  -- The value of a result, by `pop_stack_value`.
  unfoldable pub value_of_result : FormulaResult Double Matrix → Run (StackValue Double Matrix)
  value_of_result (result_boolean b) = push_test b
  value_of_result (result_value a) = ran (value a)
  value_of_result (result_string s) = ran (string s)
  value_of_result (result_error e) = ran (error e)
  value_of_result (result_matrix m) = threw formula_general_error

  -- A value that was found in a cell, by `pop_stack_value`.
  unfoldable pub value_of_cell : CellAccess Double Matrix → Run (StackValue Double Matrix)
  value_of_cell empty_cell = ran (value num.zero)
  value_of_cell (boolean_cell b) = push_test b
  value_of_cell (numeric_cell a) = ran (value a)
  value_of_cell (string_cell none) = threw formula_general_error
  value_of_cell (string_cell (some s)) = ran (string s)
  value_of_cell (formula_cell c) = follow (get_formula_result num c) value_of_result
  value_of_cell unknown_cell = threw formula_general_error

  -- `pop_stack_value`, where `expression` throws if it has no value.
  unfoldable pub pop_stack_value :
      (AbsAddress → CellAccess Double Matrix)
      → StackValue Double Matrix
      → Run (StackValue Double Matrix)
  pop_stack_value cells (boolean b) = push_test b
  pop_stack_value cells (value v) = ran (value v)
  pop_stack_value cells (string s) = ran (string s)
  pop_stack_value cells (matrix m) = ran (matrix m)
  pop_stack_value cells (error e) = ran (error e)
  pop_stack_value cells (single_ref a) = value_of_cell (cells a)
  pop_stack_value cells (range_ref r) = threw formula_general_error
