-- ===== src/Tests/Values.antt =====
-- Instances of the theorems on the values of the stack, whose numbers are natural.
use ixion.Prelude.{
  ℕ, ◌+◌, ◌-◌, Bool, true, not, List, [], ◌∷◌, ◌≡◌, refl, ltb, leb, ◌==◌, if◌then◌else◌, arith,
}
use ixion.Prelude.Int.{pos}
use ixion.Address.Defs.{AbsAddress, AbsRange}
use ixion.FormulaLexer.Token.{Bytes}
use ixion.FormulaParser.Token.{fop_less_equal}
use ixion.FormulaInterpreter.Operations.{ran, follow, pop}
use ixion.FormulaInterpreter.Values.Cells.{
  result_string, own_result, formula_cell, Numbers, View, get_formula_result,
}
use ixion.FormulaInterpreter.Values.Defs.{
  StackValue, boolean, value, string, single_ref, range_ref, matrix, Matrices, compare,
  value_of_result, value_of_cell, pop_stack_value,
}
use ixion.FormulaInterpreter.Values.Order.{
  Verdict, below, same, above, less_equal, Ordered, text, compare-order,
}
use ixion.FormulaInterpreter.Values.Stack.Defs.{
  resolved_matrix, boolean_of, numeric_of, pop_boolean, pop_value, pop_string,
  pop_matrix_or_numeric, pop_matrix_or_string,
}
use ixion.FormulaInterpreter.Values.Stack.Takes.{pop_matrix_or_lem}
use ixion.FormulaInterpreter.Values.Stack.Texts.{pop_string-pop_stack_value}
use ixion.FormulaInterpreter.Values.Stack.Booleans.{pop_boolean-pop_value}

unfoldable pub naturals : Numbers ℕ
naturals = record {
  add = λ a b. a + b;
  subtract = λ a b. a - b;
  equal = λ a b. a == b;
  less = λ a b. ltb a b;
  less_equal = λ a b. leb a b;
  zero = 0;
  of_bool = λ b. if b then 1 else 0;
}

abbrev rank : ℕ → ℕ → Verdict
rank a b = if ltb a b then below else if a == b then same else above

abbrev pub no_matrices : Matrices ℕ ℕ
no_matrices = record {
  compare_value_to_matrix = λ op a m. ran m;
  compare_matrix_to_value = λ op m b. ran m;
}

naturals-Ordered : Ordered naturals rank
unfolding naturals
naturals-Ordered = record {
  equal_rank = λ a b. ground arith;
  less_rank = λ a b. ground arith;
  less_equal_rank = λ a b. ground arith;
  rank_mirror = λ a b. ground arith;
}

unfoldable pub first_cell : AbsAddress
first_cell = record { sheet = pos 0; row = pos 0; column = pos 0 }

abbrev two_cells : AbsRange
two_cells = record {
  first = first_cell;
  last = record { sheet = pos 0; row = pos 1; column = pos 0 };
}

abbrev pub word : Bytes
word = b'A' ∷ b'B' ∷ []

abbrev longer_word : Bytes
longer_word = b'A' ∷ b'B' ∷ b'A' ∷ []

-- A model where every cell is a formula with a word for its result.
unfoldable pub shown : View ℕ ℕ
shown = record {
  cells = λ a. formula_cell (own_result (result_string word));
  get_range_value = λ r. ran 7;
  first_numeric = λ m. m;
  outside_numeric = λ m. ran m;
  text_of = λ x. [];
}

zero_of_bool : (b : Bool) → naturals.equal (naturals.of_bool b) naturals.zero ≡ not b
unfolding naturals
zero_of_bool b = ground arith

zero_is_zero : naturals.equal naturals.zero naturals.zero ≡ true
unfolding naturals
zero_is_zero = refl

compare-order_example :
    compare naturals no_matrices fop_less_equal (string word) (string longer_word) ≡ ran (value 1)
unfolding naturals
compare-order_example =
    compare-order naturals no_matrices naturals-Ordered less_equal (text word) (text longer_word)

pop_matrix_or_lem_example :
    (pop_matrix_or_numeric naturals shown (range_ref two_cells ∷ string word ∷ [])
      ≡ ran (resolved_matrix 7, string word ∷ []))
    × (pop_matrix_or_string naturals shown (range_ref two_cells ∷ string word ∷ [])
        ≡ ran (resolved_matrix 7, string word ∷ []))
unfolding shown pop follow
pop_matrix_or_lem_example =
    pop_matrix_or_lem naturals shown (range_ref two_cells ∷ string word ∷ [])

pop_string-pop_stack_value_example :
    pop_string naturals shown (single_ref first_cell ∷ boolean true ∷ [])
    ≡ ran (word, boolean true ∷ [])
unfolding shown pop_stack_value value_of_cell value_of_result get_formula_result follow
pop_string-pop_stack_value_example =
    pop_string-pop_stack_value naturals shown first_cell (boolean true ∷ []) {w = string word} refl
      refl

abbrev below_top : List (StackValue ℕ ℕ)
below_top = string word ∷ []

pop_boolean-pop_value_example :
    (below_top ≡ below_top) × (true ≡ not (naturals.equal 3 naturals.zero))
unfolding naturals shown pop_boolean pop_value boolean_of numeric_of follow
pop_boolean-pop_value_example =
    pop_boolean-pop_value naturals shown zero_of_bool zero_is_zero (matrix 3 ∷ below_top) refl refl
