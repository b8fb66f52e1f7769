-- ===== src/Tests/Results.antt =====
-- An instance of the theorem on `interpret`, for the formula `=A1`.
use ixion.Prelude.{ℕ, List, [], ◌∷◌, none, ◌≡◌, true, false, refl, arith}
use ixion.Prelude.Int.{pos}
use ixion.Address.Defs.{AbsAddress, Address}
use ixion.FormulaParser.Token.{FormulaToken, single_ref}
use ixion.ModelContext.Defs.{Context}
use ixion.FormulaInterpreter.Operations.{ran, threw, follow, Operations, invalid_expression}
use ixion.FormulaInterpreter.Tokens.{NamedExpression, expanded, init_loop, init_tokens}
use ixion.FormulaInterpreter.Syntax.Defs.{
  Expression, chain, tail_end, one, unsigned, cell, show_expression, cost_expression, value_of,
}
use ixion.FormulaInterpreter.Values.Cells.{official, FormulaResult, own_result, formula_cell}
use ixion.FormulaInterpreter.Values.Defs
use ixion.FormulaInterpreter.Values.Defs.{
  StackValue, value, string, range_ref, matrix, compare, value_of_cell, pop_stack_value,
}
use ixion.FormulaInterpreter.Values.Result.{pop_result, is_matrix}
use ixion.FormulaInterpreter.Interpret.{interpret, result, interpretation_of, interpret_lem}
use ixion.Tests.Values.{naturals, no_matrices, shown, first_cell}

-- The comparisons are those of the program; there are no functions, strings and products.
unfoldable operations : Operations (StackValue ℕ ℕ) ℕ ℕ
operations = record {
  push_value = λ v. value v;
  push_error = λ e. Defs.error (official e);
  push_string = λ s. string s;
  push_single_ref = λ a. Defs.single_ref a;
  push_range_ref = λ r. range_ref r;
  push_matrix = λ rows cols values strings. matrix rows;
  pop_stack_value = λ v. pop_stack_value naturals shown.cells v;
  compare = λ op v w. compare naturals no_matrices op v w;
  pop_matrix_or_numeric = λ v. ran v;
  op_matrix_or_numeric = λ op v w. threw invalid_expression;
  pop_matrix_or_string = λ v. ran v;
  concat_matrix_or_string = λ v w. threw invalid_expression;
  negate_value = λ v. threw invalid_expression;
  negate = λ v. v;
  zero_value = 0;
  get_string = λ i. none;
  get_range = λ origin t. ran (record { first = first_cell; last = first_cell });
  call_function = λ origin f vs. threw invalid_expression;
}

abbrev home : AbsAddress
home = record { sheet = pos 0; row = pos 3; column = pos 3 }

abbrev first_address : Address
first_address = record {
  sheet = pos 0;
  row = pos 0;
  column = pos 0;
  abs_sheet = true;
  abs_row = true;
  abs_column = true;
}

abbrev reference : Expression ℕ ℕ
reference = chain (one (unsigned (cell first_address))) tail_end

abbrev reference_tokens : List (FormulaToken ℕ ℕ)
reference_tokens = single_ref first_address ∷ []

abbrev model : Context (NamedExpression ℕ ℕ)
model = record {
  sheet_rows = 10;
  sheet_columns = 10;
  sheet_names = (b'A' ∷ []) ∷ [];
  sheets = [] ∷ [];
  named_expressions = [];
}

reference_names :
    init_tokens 60 model (pos 0) reference_tokens ≡ expanded (show_expression reference []) []
unfolding init_tokens init_loop show_expression
reference_names = refl

interpret_lem_example :
    (interpret naturals shown operations model home 60 reference_tokens
      ≡ interpretation_of (follow (value_of operations home reference) (pop_result naturals shown)))
    × ((v w : StackValue ℕ ℕ)
        → value_of operations home reference ≡ ran v
        → pop_stack_value naturals shown.cells v ≡ ran w
        → is_matrix w ≡ false
        → (r : FormulaResult ℕ ℕ) × (interpret naturals shown operations model home 60
              reference_tokens
            ≡ result r)
          × (value_of_cell naturals (formula_cell (own_result r)) ≡ ran w))
unfolding cost_expression
interpret_lem_example =
    interpret_lem naturals shown operations model home 60 reference_tokens [] reference
      reference_names (omega arith)
