-- ===== src/FormulaInterpreter/Values/Stack/Texts.antt =====
-- A reference to one cell, as the operator of concatenation reads it and as the other operators do.
use ixion.Prelude.{List, ◌∷◌, ◌≡◌, Bool, true, false, refl, some, none, arith}
use ixion.Address.Defs.{AbsAddress}
use ixion.FormulaLexer.Token.{Bytes}
use ixion.FormulaInterpreter.Operations.{Run, ran, threw, follow, formula_stack_error}
use ixion.FormulaInterpreter.Values.Cells.{
  thrown_of, FormulaResult, result_boolean, result_value, result_string, result_error,
  result_matrix, no_result, own_result, group_result, CellAccess, empty_cell, unknown_cell,
  boolean_cell, numeric_cell, string_cell, formula_cell, Numbers, View, get_single_formula_result,
  get_formula_result,
}
use ixion.FormulaInterpreter.Values.Defs.{
  StackValue, error, value, string, single_ref, value_of_result, value_of_cell, pop_stack_value,
}
use ixion.FormulaInterpreter.Values.Stack.Defs.{
  leaving, string_of_result, string_of_cell, pop_string,
}

abbrev pub words_of {ℓ} : {Double Matrix : Type ℓ} → StackValue Double Matrix → Run Bytes
words_of (string s) = ran s
words_of (error e) = threw (thrown_of e)
words_of v = threw formula_stack_error

abbrev pub is_number {ℓ} : {Double Matrix : Type ℓ} → StackValue Double Matrix → Bool
is_number (value x) = true
is_number v = false

module _ {ℓ} {Double Matrix : Type ℓ} (num : Numbers Double) (view : View Double Matrix) where
  string_of_result-value_of_result :
      (r : FormulaResult Double Matrix) {w : StackValue Double Matrix}
      → value_of_result num r ≡ ran w
      → is_number w ≡ false
      → string_of_result num view r ≡ words_of w
  unfolding string_of_result value_of_result
  string_of_result-value_of_result (result_boolean b) h other = ground arith
  string_of_result-value_of_result (result_value v) h other = ground arith
  string_of_result-value_of_result (result_string s) h other = ground arith
  string_of_result-value_of_result (result_error e) h other = ground arith
  string_of_result-value_of_result (result_matrix m) h other = ground arith

  string_of_cell-value_of_cell :
      (c : CellAccess Double Matrix) {w : StackValue Double Matrix}
      → value_of_cell num c ≡ ran w
      → is_number w ≡ false
      → string_of_cell num view c ≡ words_of w
  unfolding string_of_cell value_of_cell follow get_formula_result
  string_of_cell-value_of_cell empty_cell h other = ground arith
  string_of_cell-value_of_cell unknown_cell h other = ground arith
  string_of_cell-value_of_cell (boolean_cell v) h other = ground arith
  string_of_cell-value_of_cell (numeric_cell v) h other = ground arith
  string_of_cell-value_of_cell (string_cell none) h other = ground arith
  string_of_cell-value_of_cell (string_cell (some s)) h other = ground arith
  string_of_cell-value_of_cell (formula_cell no_result) h other = absurd (cc)
  string_of_cell-value_of_cell (formula_cell (own_result r)) h other =
      string_of_result-value_of_result r h other
  string_of_cell-value_of_cell (formula_cell (group_result x)) h other =
      string_of_result-value_of_result (get_single_formula_result num x) h other

  -- Where the other operators find a string or an error in the one cell that is on top, concatenation reads the same
  -- string, or throws the same error.
  pub pop_string-pop_stack_value :
      (a : AbsAddress) (vs : List (StackValue Double Matrix)) {w : StackValue Double Matrix}
      → pop_stack_value num view.cells (single_ref a) ≡ ran w
      → is_number w ≡ false
      → pop_string num view (single_ref a ∷ vs) ≡ leaving (words_of w) vs
  unfolding pop_string pop_stack_value
  pop_string-pop_stack_value a vs h other =
      rw (string_of_cell-value_of_cell (view.cells a) h other) refl
