-- ===== src/FormulaInterpreter/Values/Result.antt =====
-- `pop_result`: the result that the last value on the stack gives.
use ixion.Prelude.{Bool, true, false, [], none, some, ◌≡◌, refl, arith}
use ixion.FormulaInterpreter.Operations.{Run, ran, follow}
use ixion.FormulaInterpreter.Values.Cells.{
  FormulaResult, result_boolean, result_value, result_string, result_error, result_matrix,
  CellAccess, empty_cell, unknown_cell, boolean_cell, numeric_cell, string_cell, formula_cell,
  Numbers, View, get_formula_result, no_result, own_result, group_result,
}
use ixion.FormulaInterpreter.Values.Defs.{
  StackValue, boolean, error, value, string, single_ref, range_ref, matrix, value_of_result,
  value_of_cell, pop_stack_value,
}

module _ {ℓ} {Double Matrix : Type ℓ} (num : Numbers Double) where
  -- `get_result_from_cell`. The result was reset before, to the number 0, and stays so for an empty cell; a string
  -- that the pool does not have is empty.
  unfoldable pub get_result_from_cell : CellAccess Double Matrix → Run (FormulaResult Double Matrix)
  get_result_from_cell (formula_cell c) = get_formula_result num c
  get_result_from_cell (boolean_cell b) = ran (result_boolean b)
  get_result_from_cell (numeric_cell a) = ran (result_value a)
  get_result_from_cell (string_cell (some s)) = ran (result_string s)
  get_result_from_cell (string_cell none) = ran (result_string [])
  get_result_from_cell empty_cell = ran (result_value num.zero)
  get_result_from_cell unknown_cell = ran (result_value num.zero)

  -- `pop_result`, of the value on top; a range gives the result of its first cell.
  unfoldable pub pop_result :
      View Double Matrix → StackValue Double Matrix → Run (FormulaResult Double Matrix)
  pop_result view (range_ref r) = get_result_from_cell (view.cells r.first)
  pop_result view (single_ref a) = get_result_from_cell (view.cells a)
  pop_result view (string s) = ran (result_string s)
  pop_result view (boolean b) = ran (result_boolean b)
  pop_result view (value a) = ran (result_value a)
  pop_result view (matrix m) = ran (result_matrix m)
  pop_result view (error e) = ran (result_error e)

abbrev pub is_matrix {ℓ} : {Double Matrix : Type ℓ} → StackValue Double Matrix → Bool
is_matrix (matrix m) = true
is_matrix v = false

module _ {ℓ} {Double Matrix : Type ℓ} (num : Numbers Double) (view : View Double Matrix) where
  -- A result that is kept and read again.
  abbrev pub KeepsValue : Run (FormulaResult Double Matrix) → StackValue Double Matrix → Type ℓ
  KeepsValue kept w =
      (r : FormulaResult Double Matrix) × (kept ≡ ran r)
      × (value_of_cell num (formula_cell (own_result r)) ≡ ran w)

  cell-KeepsValue :
      (c : CellAccess Double Matrix) {w : StackValue Double Matrix}
      → value_of_cell num c ≡ ran w
      → KeepsValue (get_result_from_cell num c) w
  unfolding value_of_cell get_result_from_cell get_formula_result value_of_result follow
  cell-KeepsValue empty_cell h = (_, refl, h)
  cell-KeepsValue unknown_cell h = absurd (cc)
  cell-KeepsValue (boolean_cell b) h = (_, refl, h)
  cell-KeepsValue (numeric_cell a) h = (_, refl, h)
  cell-KeepsValue (string_cell none) h = absurd (cc)
  cell-KeepsValue (string_cell (some s)) h = (_, refl, h)
  cell-KeepsValue (formula_cell no_result) h = absurd (cc)
  cell-KeepsValue (formula_cell (own_result r)) h = (_, refl, h)
  cell-KeepsValue (formula_cell (group_result x)) h = (_, refl, h)

  pub pop_result-KeepsValue :
      (v : StackValue Double Matrix) {w : StackValue Double Matrix}
      → pop_stack_value num view.cells v ≡ ran w
      → is_matrix w ≡ false
      → KeepsValue (pop_result num view v) w
  unfolding pop_stack_value pop_result value_of_cell get_formula_result value_of_result follow
  pop_result-KeepsValue (boolean b) h other = (_, refl, h)
  pop_result-KeepsValue (error e) h other = (_, refl, h)
  pop_result-KeepsValue (value a) h other = (_, refl, h)
  pop_result-KeepsValue (string s) h other = (_, refl, h)
  pop_result-KeepsValue (single_ref a) h other = cell-KeepsValue (view.cells a) h
  pop_result-KeepsValue (range_ref r) h other = absurd (cc)
  pop_result-KeepsValue (matrix m) h other = ground arith
