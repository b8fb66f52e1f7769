-- ===== src/FormulaInterpreter/Values/Stack/Booleans.antt =====
-- The truth value that a pop reads, against the number that a pop reads.
use ixion.Prelude.{true, Bool, not, List, [], ◌∷◌, ◌≡◌, ◌∙◌, sym, arith}
use ixion.FormulaInterpreter.Operations.{Run, ran, threw, follow}
use ixion.FormulaInterpreter.Values.Cells.{
  result_boolean, result_value, result_string, result_error, result_matrix, element_empty,
  element_outside, element_boolean, element_numeric, element_string, element_error, no_result,
  own_result, group_result, CellAccess, empty_cell, unknown_cell, boolean_cell, numeric_cell,
  string_cell, formula_cell, Numbers, View, get_single_formula_result, get_formula_result,
  type_of_result, get_value_type, fetch_value_from_result, get_numeric_value, get_boolean_value,
}
use ixion.FormulaInterpreter.Values.Defs.{
  StackValue, boolean, error, value, string, single_ref, range_ref, matrix,
}
use ixion.FormulaInterpreter.Values.Stack.Defs.{
  leaving, boolean_of_cell, boolean_of, numeric_of, pop_boolean, pop_value,
}

leaving-ran {ℓ κ} :
    {A : Type ℓ} {C : Type κ} (r : Run A) {vs ws : C} {a : A}
    → leaving r vs ≡ ran (a, ws)
    → (r ≡ ran a) × (vs ≡ ws)
unfolding follow
leaving-ran (ran b) h = ground arith
leaving-ran (threw e) h = ground arith

module _ {ℓ} {Double Matrix : Type ℓ} (num : Numbers Double) (view : View Double Matrix) where
  module _ (of_bool : (b : Bool) → num.equal (num.of_bool b) num.zero ≡ not b)
      (of_zero : num.equal num.zero num.zero ≡ true) where
    cell-numeric :
        (c : CellAccess Double Matrix) {b : Bool} {x : Double}
        → follow (get_value_type num c) (boolean_of_cell num view c) ≡ ran b
        → get_numeric_value num view c ≡ ran x
        → b ≡ not (num.equal x num.zero)
    unfolding get_value_type boolean_of_cell get_numeric_value get_boolean_value follow
        fetch_value_from_result get_formula_result get_single_formula_result type_of_result
    cell-numeric empty_cell h k = ground (arith, of_zero)
    cell-numeric unknown_cell h k = ground arith
    cell-numeric (boolean_cell v) h k = ground (arith, of_bool v)
    cell-numeric (numeric_cell v) h k = ground arith
    cell-numeric (string_cell s) h k = ground arith
    cell-numeric (formula_cell no_result) h k = ground arith
    cell-numeric (formula_cell (own_result (result_boolean v))) h k = ground (arith, of_bool v)
    cell-numeric (formula_cell (own_result (result_value v))) h k = ground arith
    cell-numeric (formula_cell (own_result (result_string s))) h k = ground arith
    cell-numeric (formula_cell (own_result (result_error e))) h k = ground arith
    cell-numeric (formula_cell (own_result (result_matrix m))) h k = ground arith
    cell-numeric (formula_cell (group_result element_empty)) h k = ground (arith, of_zero)
    cell-numeric (formula_cell (group_result element_outside)) h k = ground arith
    cell-numeric (formula_cell (group_result (element_boolean v))) h k = ground (arith, of_bool v)
    cell-numeric (formula_cell (group_result (element_numeric v))) h k = ground arith
    cell-numeric (formula_cell (group_result (element_string s))) h k = ground arith
    cell-numeric (formula_cell (group_result (element_error e))) h k = ground arith

    boolean_of-numeric_of :
        (v : StackValue Double Matrix) {b : Bool} {x : Double}
        → boolean_of num view v ≡ ran b
        → numeric_of num view v ≡ ran x
        → b ≡ not (num.equal x num.zero)
    unfolding boolean_of numeric_of
    boolean_of-numeric_of (boolean b) h k = ground (arith, of_bool b)
    boolean_of-numeric_of (error e) h k = ground arith
    boolean_of-numeric_of (value a) h k = ground arith
    boolean_of-numeric_of (string s) h k = ground arith
    boolean_of-numeric_of (single_ref a) h k = cell-numeric (view.cells a) h k
    boolean_of-numeric_of (range_ref r) h k = ground arith
    boolean_of-numeric_of (matrix m) h k = ground arith

    -- Where the numbers of truth values compare to 0 as floating-point numbers do, and a truth value and a number can
    -- both be popped of a stack, a reference to a cell of any kind on top included, they leave the same rest, and the
    -- truth value is whether the number is not zero.
    pub pop_boolean-pop_value :
        (vs : List (StackValue Double Matrix)) {us ws : List (StackValue Double Matrix)} {b : Bool}
        {x : Double}
        → pop_boolean num view vs ≡ ran (b, us)
        → pop_value num view vs ≡ ran (x, ws)
        → (us ≡ ws) × (b ≡ not (num.equal x num.zero))
    unfolding pop_boolean pop_value
    pop_boolean-pop_value [] h k = ground arith
    pop_boolean-pop_value (v ∷ vs) h k =
        let (p, left) = leaving-ran (boolean_of num view v) h in
        let (q, right) = leaving-ran (numeric_of num view v) k in
        (sym left ∙ right, boolean_of-numeric_of v p q)
