-- ===== src/FormulaInterpreter/Grammar.antt =====
-- The recursive descent of the interpreter, from the expression to its operands. A run has the values of
-- the current stack, the last one first, and the tokens that are left. The functions recur on fuel.
use ixion.Prelude.{
  ℕ, zero, suc, Bool, true, false, List, [], ◌∷◌, Option, none, some, if◌then◌else◌,
}
use ixion.Address.Defs.{AbsAddress, Address, Range, eq_abs, to_abs, range_to_abs, reorder, contains}
use ixion.FormulaLexer.Token.{ref_result_not_available}
use ixion.FormulaParser.Token.{
  Fopcode, fop_plus, fop_minus, fop_divide, fop_multiply, fop_exponent, fop_concat, fop_equal,
  fop_not_equal, fop_less, fop_greater, fop_less_equal, fop_greater_equal, fop_open, fop_close,
  fop_sep, fop_array_open, FormulaToken, operator, single_ref, range_ref, table_ref, function_token,
  error_token, value_token, string_token, named_expression_token,
}
use ixion.FormulaInterpreter.Operations.{
  Run, ran, threw, invalid_expression, general_error, unfinished, formula_general_error,
  formula_error, follow, Operations, pop,
}
use ixion.FormulaInterpreter.Array.{array}

unfoldable pub valid_expression_op : Fopcode → Bool
valid_expression_op fop_plus = true
valid_expression_op fop_minus = true
valid_expression_op fop_equal = true
valid_expression_op fop_not_equal = true
valid_expression_op fop_less = true
valid_expression_op fop_less_equal = true
valid_expression_op fop_greater = true
valid_expression_op fop_greater_equal = true
valid_expression_op op = false

-- The cases of `term`.
pub data TermCase : Type 0 where
  numeric_op concat_op no_op : TermCase

unfoldable pub term_case : Fopcode → TermCase
term_case fop_multiply = numeric_op
term_case fop_exponent = numeric_op
term_case fop_divide = numeric_op
term_case fop_concat = concat_op
term_case op = no_op

-- The two of the cases of `factor` that are operators.
pub data FactorCase : Type 0 where
  paren_case array_case no_case : FactorCase

unfoldable pub factor_case : Fopcode → FactorCase
factor_case fop_open = paren_case
factor_case fop_array_open = array_case
factor_case op = no_case

-- The cases of `sign`: no sign, or a sign that is a minus or not.
unfoldable pub sign_case : Fopcode → Option Bool
sign_case fop_minus = some true
sign_case fop_plus = some false
sign_case op = none

-- The cases of the loop of `function`.
pub data ArgumentCase : Type 0 where
  close_case sep_case other_case : ArgumentCase

unfoldable pub argument_case : Fopcode → ArgumentCase
argument_case fop_close = close_case
argument_case fop_sep = sep_case
argument_case op = other_case

module _ {ℓ} {Double Function : Type ℓ} where
  -- The opcode of a token that is an operator.
  abbrev pub opcode_of : FormulaToken Double Function → Option Fopcode
  opcode_of (operator op) = some op
  opcode_of (single_ref a) = none
  opcode_of (range_ref r) = none
  opcode_of (table_ref t) = none
  opcode_of (function_token f) = none
  opcode_of (error_token e) = none
  opcode_of (value_token v) = none
  opcode_of (string_token i) = none
  opcode_of (named_expression_token s) = none

  abbrev pub argument_case_of : FormulaToken Double Function → ArgumentCase
  argument_case_of t = elim (opcode_of t) [ none ↦ other_case | some op ↦ argument_case op ]

module _ {ℓ} {Value Double Function : Type ℓ} (o : Operations Value Double Function)
    (origin : AbsAddress) where
  -- The values of a stack, and the tokens that are left.
  abbrev pub Position : Type ℓ
  Position = List Value × List (FormulaToken Double Function)

  -- `single_ref`
  unfoldable pub interpret_single_ref :
      List Value → Address → List (FormulaToken Double Function) → Run Position
  interpret_single_ref vs a ts =
      if eq_abs (to_abs origin a) origin
      then threw (formula_error ref_result_not_available)
      else ran (o.push_single_ref (to_abs origin a) ∷ vs, ts)

  -- `range_ref`
  unfoldable pub interpret_range_ref :
      List Value → Range → List (FormulaToken Double Function) → Run Position
  interpret_range_ref vs r ts =
      if contains (reorder (range_to_abs origin r)) origin
      then threw (formula_error ref_result_not_available)
      else ran (o.push_range_ref (reorder (range_to_abs origin r)) ∷ vs, ts)

  -- `literal`
  unfoldable pub literal : List Value → ℕ → List (FormulaToken Double Function) → Run Position
  literal vs i ts = elim (o.get_string i) [
    | none ↦ threw general_error
    | some s ↦ ran (o.push_string s ∷ vs, ts)
  ]

  -- The operator of an expression, applied to the value that was popped and to the top of the stack.
  unfoldable pub expression_value : Fopcode → Value → Position → Run Position
  expression_value op v1 p = follow (pop p.0) (λ r.
      follow (o.pop_stack_value r.0) (λ v2. follow (o.compare op v1 v2) (λ v. ran (v ∷ r.1, p.1))))

  -- The operator of a term, applied likewise.
  unfoldable pub numeric_value : Fopcode → Value → Position → Run Position
  numeric_value op v1 p = follow (pop p.0) (λ r.
      follow (o.pop_matrix_or_numeric r.0)
        (λ v2. follow (o.op_matrix_or_numeric op v1 v2) (λ v. ran (v ∷ r.1, p.1))))

  unfoldable pub concat_value : Value → Position → Run Position
  concat_value v1 p = follow (pop p.0) (λ r.
      follow (o.pop_matrix_or_string r.0)
        (λ v2. follow (o.concat_matrix_or_string v1 v2) (λ v. ran (v ∷ r.1, p.1))))

  -- The end of `factor`.
  unfoldable pub apply_sign : Option Bool → Position → Run Position
  apply_sign none p = ran p
  apply_sign (some false) p = ran p
  apply_sign (some true) p =
      follow (pop p.0) (λ r. follow (o.negate_value r.0) (λ v. ran (v ∷ r.1, p.1)))

  -- The end of `paren`.
  unfoldable pub expect_close : Position → Run Position
  expect_close (vs, []) = threw invalid_expression
  expect_close (vs, t ∷ ts) = elim (argument_case_of t) [
    | close_case ↦ ran (vs, ts)
    | sep_case ↦ threw invalid_expression
    | other_case ↦ threw invalid_expression
  ]

  -- The beginning of `function`: an open parenthesis and one more token.
  unfoldable pub expect_open :
      List (FormulaToken Double Function) → Run (List (FormulaToken Double Function))
  expect_open [] = threw invalid_expression
  expect_open (t ∷ []) = threw invalid_expression
  expect_open (t ∷ u ∷ ts) = elim (opcode_of t) [
    | none ↦ threw invalid_expression
    | some op ↦ elim (factor_case op) [
      | paren_case ↦ ran (u ∷ ts)
      | array_case ↦ threw invalid_expression
      | no_case ↦ threw invalid_expression
    ]
  ]

  unfoldable mutual
    pub expression : ℕ → List Value → List (FormulaToken Double Function) → Run Position
    expression zero vs ts = threw unfinished
    expression (suc n) vs ts = follow (term n vs ts) (λ p. expression_loop n p.0 p.1)

    -- The loop of `expression`.
    pub expression_loop : ℕ → List Value → List (FormulaToken Double Function) → Run Position
    expression_loop zero vs ts = threw unfinished
    expression_loop (suc n) vs [] = ran (vs, [])
    expression_loop (suc n) vs (t ∷ ts) = elim (opcode_of t) [
      | none ↦ ran (vs, t ∷ ts)
      | some op ↦ elim (valid_expression_op op) [
        | false ↦ ran (vs, t ∷ ts)
        | true ↦ follow (pop vs) (λ r. follow (o.pop_stack_value r.0) (λ v1.
            follow (term n r.1 ts)
              (λ p. follow (expression_value op v1 p) (λ q. expression_loop n q.0 q.1))))
      ]
    ]

    pub term : ℕ → List Value → List (FormulaToken Double Function) → Run Position
    term zero vs ts = threw unfinished
    term (suc n) vs ts = follow (factor n vs ts) (λ p. term_rest n p.0 p.1)

    -- The operator of a term and the term that follows.
    pub term_rest : ℕ → List Value → List (FormulaToken Double Function) → Run Position
    term_rest zero vs ts = threw unfinished
    term_rest (suc n) vs [] = ran (vs, [])
    term_rest (suc n) vs (t ∷ ts) = elim (opcode_of t) [
      | none ↦ ran (vs, t ∷ ts)
      | some op ↦ elim (term_case op) [
        | no_op ↦ ran (vs, t ∷ ts)
        | numeric_op ↦ follow (pop vs) (λ r.
            follow (o.pop_matrix_or_numeric r.0)
              (λ v1. follow (term n r.1 ts) (λ p. numeric_value op v1 p)))
        | concat_op ↦ follow (pop vs) (λ r.
            follow (o.pop_matrix_or_string r.0)
              (λ v1. follow (term n r.1 ts) (λ p. concat_value v1 p)))
      ]
    ]

    -- `factor`, with `sign`, which takes at most one sign.
    pub factor : ℕ → List Value → List (FormulaToken Double Function) → Run Position
    factor zero vs ts = threw unfinished
    factor (suc n) vs [] = threw invalid_expression
    factor (suc n) vs (t ∷ ts) = elim (opcode_of t) [
      | none ↦ operand n vs t ts
      | some op ↦ elim (sign_case op) [
        | none ↦ operand n vs t ts
        | some minus ↦ elim ts [
          | [] ↦ threw invalid_expression
          | u ∷ us ↦ follow (operand n vs u us) (λ p. apply_sign (some minus) p)
        ]
      ]
    ]

    -- The cases of `factor`.
    pub operand :
        ℕ
        → List Value
        → FormulaToken Double Function
        → List (FormulaToken Double Function)
        → Run Position
    operand zero vs t ts = threw unfinished
    operand (suc n) vs (operator op) ts = elim (factor_case op) [
      | paren_case ↦ follow (expression n vs ts) (λ p. expect_close p)
      | array_case ↦ follow (array o ts) (λ r. ran (r.0 ∷ vs, r.1))
      | no_case ↦ threw invalid_expression
    ]
    operand (suc n) vs (single_ref a) ts = interpret_single_ref vs a ts
    operand (suc n) vs (range_ref r) ts = interpret_range_ref vs r ts
    operand (suc n) vs (table_ref t) ts =
        follow (o.get_range origin t) (λ r. ran (o.push_range_ref r ∷ vs, ts))
    operand (suc n) vs (function_token f) ts = follow (expect_open ts) (λ us.
        follow (arguments n [] false us)
          (λ p. follow (o.call_function origin f p.0) (λ v. ran (v ∷ vs, p.1))))
    operand (suc n) vs (error_token e) ts = ran (o.push_error e ∷ vs, ts)
    operand (suc n) vs (value_token v) ts = ran (o.push_value v ∷ vs, ts)
    operand (suc n) vs (string_token i) ts = literal vs i ts
    operand (suc n) vs (named_expression_token s) ts = threw formula_general_error

    -- The loop of `function`, on a stack of its own; the flag is `expect_sep`.
    pub arguments : ℕ → List Value → Bool → List (FormulaToken Double Function) → Run Position
    arguments zero vs expect_sep ts = threw unfinished
    arguments (suc n) vs expect_sep [] = threw invalid_expression
    arguments (suc n) vs false (t ∷ ts) = elim (argument_case_of t) [
      | close_case ↦ ran (vs, ts)
      | sep_case ↦ follow (expression n vs (t ∷ ts)) (λ p. arguments n p.0 true p.1)
      | other_case ↦ follow (expression n vs (t ∷ ts)) (λ p. arguments n p.0 true p.1)
    ]
    arguments (suc n) vs true (t ∷ ts) = elim (argument_case_of t) [
      | close_case ↦ ran (vs, ts)
      | sep_case ↦ arguments n vs false ts
      | other_case ↦ threw invalid_expression
    ]
