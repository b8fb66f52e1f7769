-- ===== src/Tests/Interpreter.antt =====
-- Instances of the theorems on the grammar of the interpreter and on inline arrays.
use ixion.Prelude.{ℕ, true, ◌*◌, ◌≤◌, List, [], ◌∷◌, ◌≡◌, ◌≢◌, refl, arith, length}
use ixion.Prelude.Int.{pos}
use ixion.Address.Defs.{AbsAddress}
use ixion.FormulaLexer.Token.{Bytes}
use ixion.FormulaParser.Token.{
  Fopcode, fop_plus, fop_minus, fop_divide, fop_multiply, fop_concat, fop_open, fop_close, fop_sep,
  fop_array_row_sep, fop_array_close, FormulaToken, operator, value_token, string_token,
  function_token,
}
use ixion.FormulaInterpreter.Operations.{ran, threw, unfinished, follow}
use ixion.FormulaInterpreter.Array.{
  array_value, array_string, array_sep, is_inconsistent, array_row_sep, array_close, array_token,
  array_loop, array,
}
use ixion.FormulaInterpreter.Array.Places.{Inside}
use ixion.FormulaInterpreter.Array.Size.{array_lem}
use ixion.FormulaInterpreter.Grammar.{valid_expression_op, numeric_op, term_case, expression}
use ixion.FormulaInterpreter.Syntax.Defs.{
  Expression, chain, tail_end, tail_op, Term, one, numeric, Factor, unsigned, number, call,
  first_argument, other_argument, no_others, show_expression, cost_expression, value_of,
}
use ixion.FormulaInterpreter.Syntax.Runs.{ends_expression, on}
use ixion.FormulaInterpreter.Syntax.Evaluates.{expression_lem}
use ixion.FormulaInterpreter.Termination.Steps.{IsFinal, Left}
use ixion.FormulaInterpreter.Termination.Total.{expression-Left}
use ixion.Tests.Calculator.{Cell, amount, grid, calculator, calculate, quotient, total}

abbrev home : AbsAddress
home = record { sheet = pos 0; row = pos 3; column = pos 3 }

abbrev digit : ℕ → Factor ℕ ℕ
digit n = unsigned (number n)

divide-numeric : term_case fop_divide ≡ numeric_op
unfolding term_case
divide-numeric = refl

minus-valid : valid_expression_op fop_minus ≡ true
unfolding valid_expression_op
minus-valid = refl

-- `8/4/2`
abbrev quotients : Term ℕ ℕ
quotients =
    numeric (digit 8) fop_divide divide-numeric
      (numeric (digit 4) fop_divide divide-numeric (one (digit 2)))

-- `8/4/2-1-f(1,1)`
abbrev differences : Expression ℕ ℕ
differences = chain quotients (
    tail_op fop_minus minus-valid (one (digit 1)) (
      tail_op fop_minus minus-valid
        (one (
          unsigned (
            call 0 (
              first_argument (chain (one (digit 1)) tail_end)
                (other_argument (chain (one (digit 1)) tail_end) no_others)))))
        tail_end))

abbrev difference_tokens : List (FormulaToken ℕ ℕ)
difference_tokens =
    value_token 8
    ∷ operator fop_divide
    ∷ value_token 4
    ∷ operator fop_divide
    ∷ value_token 2
    ∷ operator fop_minus
    ∷ value_token 1
    ∷ operator fop_minus
    ∷ function_token 0
    ∷ operator fop_open
    ∷ value_token 1
    ∷ operator fop_sep
    ∷ value_token 1
    ∷ operator fop_close
    ∷ []

-- A quotient of a quotient is that of 8 and 2, but the differences are taken from the left.
expression_lem_example :
    expression calculator home 60 [] (show_expression differences [])
    ≡ follow (value_of calculator home differences) (on calculator home [] [])
unfolding cost_expression ends_expression
expression_lem_example = expression_lem calculator home 60 differences [] [] (omega arith) refl

differences-tokens : show_expression differences [] ≡ difference_tokens
unfolding show_expression
differences-tokens = refl

differences-value : value_of calculator home differences ≡ ran (amount 1)
unfolding value_of calculator calculate quotient total follow
differences-value = refl

-- The array `{1,"a";2,3}`, behind its opening brace.
abbrev array_tokens : List (FormulaToken ℕ ℕ)
array_tokens =
    value_token 1
    ∷ operator fop_sep
    ∷ string_token 0
    ∷ operator fop_array_row_sep
    ∷ value_token 2
    ∷ operator fop_sep
    ∷ value_token 3
    ∷ operator fop_array_close
    ∷ []

abbrev array_texts : List ((ℕ × ℕ) × Bytes)
array_texts = ((0, 1), b'a' ∷ []) ∷ []

array_run : array calculator array_tokens ≡ ran (grid 2 2 (1 ∷ 0 ∷ 2 ∷ 3 ∷ []) array_texts, [])
unfolding array array_loop array_token array_value array_string array_sep array_row_sep array_close
    is_inconsistent calculator
array_run = refl

array_lem_example :
    (rows : ℕ) × (cols : ℕ) × (values : List ℕ) × (strings : List ((ℕ × ℕ) × Bytes)) × (grid 2 2
        (1 ∷ 0 ∷ 2 ∷ 3 ∷ [])
        array_texts
      ≡ calculator.push_matrix rows cols values strings)
    × (length values ≡ rows * cols)
    × (1 ≤ rows)
    × Inside rows cols strings
array_lem_example =
    array_lem calculator array_tokens (grid 2 2 (1 ∷ 0 ∷ 2 ∷ 3 ∷ []) array_texts) [] array_run

calculate-final : (op : Fopcode) (v w : Cell) → calculate op v w ≢ threw unfinished
unfolding calculate
calculate-final fop_plus (amount a) (amount b) h = absurd (cc)
calculate-final fop_minus (amount a) (amount b) h = absurd (cc)
calculate-final fop_multiply (amount a) (amount b) h = absurd (cc)
calculate-final fop_divide (amount a) (amount b) h = absurd (cc)
calculate-final op v w h = absurd (cc)

calculator-IsFinal : IsFinal calculator
unfolding calculator
calculator-IsFinal = record {
  final_pop = λ v h. absurd (cc);
  final_compare = calculate-final;
  final_numeric = λ v h. absurd (cc);
  final_op = calculate-final;
  final_string = λ v h. absurd (cc);
  final_concat = λ v w. calculate-final fop_concat v w;
  final_negate = λ v h. absurd (cc);
  final_range = λ a t h. absurd (cc);
  final_call = λ a f vs h. absurd (cc);
}

-- `8/` ends with an error, and not for lack of fuel.
expression-Left_example :
    Left 1 (expression calculator home 17 [] (value_token 8 ∷ operator fop_divide ∷ []))
expression-Left_example =
    expression-Left calculator calculator-IsFinal home 17 []
      (value_token 8 ∷ operator fop_divide ∷ []) (omega arith)
