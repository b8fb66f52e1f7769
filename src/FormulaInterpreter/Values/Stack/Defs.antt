-- ===== src/FormulaInterpreter/Values/Stack/Defs.antt =====
-- The pops of `formula_value_stack`, with the conversions of what is on top. The values of a
-- range and the text of a number are parameters.
use ixion.Prelude.{Bool, true, false, not, List, [], ◌∷◌, Option, none, some}
use ixion.Address.Defs.{AbsAddress, AbsRange}
use ixion.FormulaLexer.Token.{Bytes, invalid_value_type}
use ixion.FormulaInterpreter.Operations.{
  Run, ran, threw, follow, formula_error, formula_stack_error,
}
use ixion.FormulaInterpreter.Values.Cells.{
  CellError, thrown_of, FormulaResult, result_boolean, result_value, result_string, result_error,
  result_matrix, CellAccess, empty_cell, unknown_cell, boolean_cell, numeric_cell, string_cell,
  formula_cell, Numbers, View, CellValueType, empty_value, boolean_value, numeric_value,
  other_value, get_value_type, get_formula_result, get_numeric_value, get_boolean_value,
}
use ixion.FormulaInterpreter.Values.Defs.{
  StackValue, boolean, error, value, string, single_ref, range_ref, matrix,
}

-- `resolved_stack_value`
pub data Resolved {ℓ} (Double Matrix : Type ℓ) : Type ℓ where
  resolved_matrix : Matrix → Resolved Double Matrix
  resolved_numeric : Double → Resolved Double Matrix
  resolved_string : Bytes → Resolved Double Matrix

-- `std::boolalpha`
abbrev pub text_of_bool : Bool → Bytes
text_of_bool true = b't' ∷ b'r' ∷ b'u' ∷ b'e' ∷ []
text_of_bool false = b'f' ∷ b'a' ∷ b'l' ∷ b's' ∷ b'e' ∷ []

-- What a pop returns, with the stack that it leaves; the head of the list is the top.
abbrev pub Popped {ℓ κ} : Type ℓ → Type ℓ → Type κ → Type (ℓ ⊔ κ)
Popped Double Matrix A = Run (A × List (StackValue Double Matrix))

abbrev pub leaving {ℓ κ} : {A : Type ℓ} {B : Type κ} → Run A → B → Run (A × B)
leaving r vs = follow r (λ a. ran (a, vs))

module _ {ℓ} {Double Matrix : Type ℓ} (num : Numbers Double) (view : View Double Matrix) where
  -- The switch of `get_boolean_value` over the type of the value of a cell.
  unfoldable pub boolean_of_cell : CellAccess Double Matrix → CellValueType → Run Bool
  boolean_of_cell c numeric_value = get_boolean_value num view c
  boolean_of_cell c boolean_value = get_boolean_value num view c
  boolean_of_cell c empty_value = ran false
  boolean_of_cell c other_value = threw (formula_error invalid_value_type)

  -- `get_boolean_value`
  unfoldable pub boolean_of : StackValue Double Matrix → Run Bool
  boolean_of (boolean b) = ran b
  boolean_of (value a) = ran (not (num.equal a num.zero))
  boolean_of (matrix m) = ran (not (num.equal (view.first_numeric m) num.zero))
  boolean_of (single_ref a) =
      follow (get_value_type num (view.cells a)) (boolean_of_cell (view.cells a))
  boolean_of v = threw (formula_error invalid_value_type)

  -- `get_numeric_value`
  unfoldable pub numeric_of : StackValue Double Matrix → Run Double
  numeric_of (boolean b) = ran (num.of_bool b)
  numeric_of (value a) = ran a
  numeric_of (matrix m) = ran (view.first_numeric m)
  numeric_of (string s) = ran num.zero
  numeric_of (single_ref a) = get_numeric_value num view (view.cells a)
  numeric_of v = threw (formula_error invalid_value_type)

  unfoldable pub pop_boolean : List (StackValue Double Matrix) → Popped Double Matrix Bool
  pop_boolean [] = threw formula_stack_error
  pop_boolean (v ∷ vs) = leaving (boolean_of v) vs

  unfoldable pub pop_value : List (StackValue Double Matrix) → Popped Double Matrix Double
  pop_value [] = threw formula_stack_error
  pop_value (v ∷ vs) = leaving (numeric_of v) vs

  -- The text of a result, by `pop_string`.
  unfoldable pub string_of_result : FormulaResult Double Matrix → Run Bytes
  string_of_result (result_error e) = threw (thrown_of e)
  string_of_result (result_string s) = ran s
  string_of_result (result_boolean b) = ran (text_of_bool b)
  string_of_result (result_value a) = ran (view.text_of a)
  string_of_result (result_matrix m) = threw formula_stack_error

  -- The text of a cell, by `pop_string`.
  unfoldable pub string_of_cell : CellAccess Double Matrix → Run Bytes
  string_of_cell empty_cell = ran []
  string_of_cell (formula_cell c) = follow (get_formula_result num c) string_of_result
  string_of_cell (numeric_cell a) = ran (view.text_of a)
  string_of_cell (string_cell (some s)) = ran s
  string_of_cell (string_cell none) = threw formula_stack_error
  string_of_cell (boolean_cell b) = threw formula_stack_error
  string_of_cell unknown_cell = threw formula_stack_error

  unfoldable pub pop_string : List (StackValue Double Matrix) → Popped Double Matrix Bytes
  pop_string [] = threw formula_stack_error
  pop_string (string s ∷ vs) = ran (s, vs)
  pop_string (boolean b ∷ vs) = ran (text_of_bool b, vs)
  pop_string (value a ∷ vs) = ran (view.text_of a, vs)
  pop_string (single_ref a ∷ vs) = leaving (string_of_cell (view.cells a)) vs
  pop_string (v ∷ vs) = threw formula_stack_error

  unfoldable pub pop_range_value : List (StackValue Double Matrix) → Popped Double Matrix Matrix
  pop_range_value [] = threw formula_stack_error
  pop_range_value (range_ref r ∷ vs) = leaving (view.get_range_value r) vs
  pop_range_value (v ∷ vs) = threw formula_stack_error

  -- Without a matrix or a range on top, nothing is taken.
  unfoldable pub maybe_pop_matrix :
      List (StackValue Double Matrix) → Popped Double Matrix (Option Matrix)
  maybe_pop_matrix [] = threw formula_stack_error
  maybe_pop_matrix (matrix m ∷ vs) = ran (some m, vs)
  maybe_pop_matrix (range_ref r ∷ vs) =
      follow (pop_range_value (range_ref r ∷ vs)) (λ (m, ws). ran (some m, ws))
  maybe_pop_matrix (v ∷ vs) = ran (none, v ∷ vs)

  unfoldable pub pop_matrix : List (StackValue Double Matrix) → Popped Double Matrix Matrix
  pop_matrix vs =
      follow (maybe_pop_matrix vs)
        (λ (found, ws). elim found [ some m ↦ ran (m, ws) | none ↦ threw formula_stack_error ])

  unfoldable pub pop_matrix_or_numeric :
      List (StackValue Double Matrix) → Popped Double Matrix (Resolved Double Matrix)
  pop_matrix_or_numeric vs = follow (maybe_pop_matrix vs) (λ (found, ws). elim found [
    | some m ↦ ran (resolved_matrix m, ws)
    | none ↦ follow (pop_value ws) (λ (a, rest). ran (resolved_numeric a, rest))
  ])

  unfoldable pub pop_matrix_or_string :
      List (StackValue Double Matrix) → Popped Double Matrix (Resolved Double Matrix)
  pop_matrix_or_string vs = follow (maybe_pop_matrix vs) (λ (found, ws). elim found [
    | some m ↦ ran (resolved_matrix m, ws)
    | none ↦ follow (pop_string ws) (λ (s, rest). ran (resolved_string s, rest))
  ])

  unfoldable pub pop_single_ref : List (StackValue Double Matrix) → Popped Double Matrix AbsAddress
  pop_single_ref [] = threw formula_stack_error
  pop_single_ref (single_ref a ∷ vs) = ran (a, vs)
  pop_single_ref (range_ref r ∷ vs) = ran (r.first, vs)
  pop_single_ref (v ∷ vs) = threw formula_stack_error

  unfoldable pub pop_range_ref : List (StackValue Double Matrix) → Popped Double Matrix AbsRange
  pop_range_ref [] = threw formula_stack_error
  pop_range_ref (single_ref a ∷ vs) = ran (record { first = a; last = a }, vs)
  pop_range_ref (range_ref r ∷ vs) = ran (r, vs)
  pop_range_ref (v ∷ vs) = threw formula_stack_error

  unfoldable pub pop_error : List (StackValue Double Matrix) → Popped Double Matrix CellError
  pop_error [] = threw formula_stack_error
  pop_error (error e ∷ vs) = ran (e, vs)
  pop_error (v ∷ vs) = threw formula_stack_error
