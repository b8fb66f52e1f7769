-- ===== src/FormulaInterpreter/Values/Cells.antt =====
-- What the interpreter reads of a cell: `cell_access`, and the reads of `model_context_impl` and `formula_cell`.
-- Floating-point numbers are a parameter, and the cells are those that the containers of the model hold.
use ixion.Prelude.{Bool, false, not, Option}
use ixion.Address.Defs.{AbsAddress, AbsRange}
use ixion.FormulaLexer.Token.{Bytes, FormulaError, invalid_value_type, ref_result_not_available}
use ixion.FormulaInterpreter.Operations.{
  Thrown, Run, ran, threw, follow, formula_error, formula_general_error, formula_stack_error,
  formula_no_result_error, logic_error,
}

-- `formula_error_t`, with the errors that only the library uses.
pub data CellError : Type 0 where
  official : FormulaError → CellError
  no_result_error stack_error general_error : CellError

-- `throw formula_error` of such a value.
abbrev pub thrown_of : CellError → Thrown
thrown_of (official e) = formula_error e
thrown_of no_result_error = formula_no_result_error
thrown_of stack_error = formula_stack_error
thrown_of general_error = formula_general_error

-- `formula_result`
pub data FormulaResult {ℓ} (Double Matrix : Type ℓ) : Type ℓ where
  result_boolean : Bool → FormulaResult Double Matrix
  result_value : Double → FormulaResult Double Matrix
  result_string : Bytes → FormulaResult Double Matrix
  result_error : CellError → FormulaResult Double Matrix
  result_matrix : Matrix → FormulaResult Double Matrix

-- What the matrix of a group of cells has at the position of one of them.
pub data Element {ℓ} (Double : Type ℓ) : Type ℓ where
  element_empty : Element Double
  element_outside : Element Double
  element_boolean : Bool → Element Double
  element_numeric : Double → Element Double
  element_string : Bytes → Element Double
  element_error : CellError → Element Double

-- The result that a formula cell has, if any: one that the cell shares with no group, or that is no matrix; or a
-- place in the matrix of its group.
pub data Cached {ℓ} (Double Matrix : Type ℓ) : Type ℓ where
  no_result : Cached Double Matrix
  own_result : FormulaResult Double Matrix → Cached Double Matrix
  group_result : Element Double → Cached Double Matrix

-- A cell. A string is missing where the pool does not have it.
pub data CellAccess {ℓ} (Double Matrix : Type ℓ) : Type ℓ where
  empty_cell : CellAccess Double Matrix
  unknown_cell : CellAccess Double Matrix
  boolean_cell : Bool → CellAccess Double Matrix
  numeric_cell : Double → CellAccess Double Matrix
  string_cell : Option Bytes → CellAccess Double Matrix
  formula_cell : Cached Double Matrix → CellAccess Double Matrix

-- The operators of `double` that the code uses, and the conversion of a truth value.
pub record Numbers {ℓ} (Double : Type ℓ) : Type ℓ where
  pub add : Double → Double → Double
  pub subtract : Double → Double → Double
  pub equal : Double → Double → Bool
  pub less : Double → Double → Bool
  pub less_equal : Double → Double → Bool
  pub zero : Double
  pub of_bool : Bool → Double

-- The cells of the model, and what other parts of it give: the values of a range, the number at the first position
-- of a matrix and in front of it, and the text of a number.
pub record View {ℓ} (Double Matrix : Type ℓ) : Type ℓ where
  pub cells : AbsAddress → CellAccess Double Matrix
  pub get_range_value : AbsRange → Run Matrix
  pub first_numeric : Matrix → Double
  pub outside_numeric : Matrix → Run Double
  pub text_of : Double → Bytes

-- `cell_value_t`, as far as `get_boolean_value` tells the types apart.
pub data CellValueType : Type 0 where
  empty_value boolean_value numeric_value other_value : CellValueType

module _ {ℓ} {Double Matrix : Type ℓ} (num : Numbers Double) where
  -- `get_single_formula_result`; a new `formula_result` is the number 0.
  unfoldable pub get_single_formula_result : Element Double → FormulaResult Double Matrix
  get_single_formula_result element_empty = result_value num.zero
  get_single_formula_result element_outside = result_error (official invalid_value_type)
  get_single_formula_result (element_boolean b) = result_value (num.of_bool b)
  get_single_formula_result (element_numeric a) = result_value a
  get_single_formula_result (element_string s) = result_string s
  get_single_formula_result (element_error e) = result_error e

  -- `get_formula_result`, by `formula_cell::get_result_cache`.
  unfoldable pub get_formula_result : Cached Double Matrix → Run (FormulaResult Double Matrix)
  get_formula_result no_result = threw (formula_error ref_result_not_available)
  get_formula_result (own_result r) = ran r
  get_formula_result (group_result x) = ran (get_single_formula_result x)

  -- The switch of `to_cell_value_type` over the type of a result.
  unfoldable pub type_of_result : FormulaResult Double Matrix → Run CellValueType
  type_of_result (result_boolean b) = ran boolean_value
  type_of_result (result_value a) = ran numeric_value
  type_of_result (result_string s) = ran other_value
  type_of_result (result_error e) = ran other_value
  type_of_result (result_matrix m) = threw logic_error

  -- `get_value_type`
  unfoldable pub get_value_type : CellAccess Double Matrix → Run CellValueType
  get_value_type empty_cell = ran empty_value
  get_value_type unknown_cell = ran other_value
  get_value_type (boolean_cell b) = ran boolean_value
  get_value_type (numeric_cell a) = ran numeric_value
  get_value_type (string_cell s) = ran other_value
  get_value_type (formula_cell c) = follow (get_formula_result c) type_of_result

  module _ (view : View Double Matrix) where
    -- `formula_cell::get_value`, by `fetch_value_from_result`, which reads the matrix of a cell without a group at
    -- the position of such a cell, in front of the matrix.
    unfoldable pub fetch_value_from_result : Cached Double Matrix → Run Double
    fetch_value_from_result no_result = threw (formula_error ref_result_not_available)
    fetch_value_from_result (own_result (result_boolean b)) = ran (num.of_bool b)
    fetch_value_from_result (own_result (result_value a)) = ran a
    fetch_value_from_result (own_result (result_string s)) =
        threw (formula_error invalid_value_type)
    fetch_value_from_result (own_result (result_error e)) = threw (thrown_of e)
    fetch_value_from_result (own_result (result_matrix m)) = view.outside_numeric m
    fetch_value_from_result (group_result element_empty) = ran num.zero
    fetch_value_from_result (group_result element_outside) =
        threw (formula_error invalid_value_type)
    fetch_value_from_result (group_result (element_boolean b)) = ran (num.of_bool b)
    fetch_value_from_result (group_result (element_numeric a)) = ran a
    fetch_value_from_result (group_result (element_string s)) =
        threw (formula_error invalid_value_type)
    fetch_value_from_result (group_result (element_error e)) =
        threw (formula_error invalid_value_type)

    -- `model_context_impl::get_numeric_value`
    unfoldable pub get_numeric_value : CellAccess Double Matrix → Run Double
    get_numeric_value (numeric_cell a) = ran a
    get_numeric_value (boolean_cell b) = ran (num.of_bool b)
    get_numeric_value (formula_cell c) = fetch_value_from_result c
    get_numeric_value c = ran num.zero

    -- `cell_access::get_boolean_value`
    unfoldable pub get_boolean_value : CellAccess Double Matrix → Run Bool
    get_boolean_value (numeric_cell a) = ran (not (num.equal a num.zero))
    get_boolean_value (boolean_cell b) = ran b
    get_boolean_value (formula_cell c) =
        follow (fetch_value_from_result c) (λ a. ran (not (num.equal a num.zero)))
    get_boolean_value c = ran false
