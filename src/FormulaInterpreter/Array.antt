-- ===== src/FormulaInterpreter/Array.antt =====
-- `formula_interpreter::array`: the loop over an inline array.
pub mod Places
pub mod Size
use ixion.Prelude.{
  ℕ, suc, ◌+◌, Bool, true, false, not, ◌&&◌, ◌==◌, List, [], ◌∷◌, ◌++◌, Option, none, some,
  if◌then◌else◌,
}
use ixion.FormulaLexer.Token.{Bytes}
use ixion.FormulaParser.Token.{
  Fopcode, fop_plus, fop_minus, fop_divide, fop_multiply, fop_exponent, fop_concat, fop_equal,
  fop_not_equal, fop_less, fop_greater, fop_less_equal, fop_greater_equal, fop_open, fop_close,
  fop_sep, fop_array_row_sep, fop_array_open, fop_array_close, FormulaToken, operator, single_ref,
  range_ref, table_ref, function_token, error_token, value_token, string_token,
  named_expression_token,
}
use ixion.FormulaInterpreter.Operations.{
  Thrown, Run, ran, threw, invalid_expression, general_error, Operations,
}

-- The opcodes that `prev_op` can have.
pub data Previous : Type 0 where
  at_open at_sep at_row_sep at_value at_string : Previous

-- A value is expected next.
abbrev pub is_before_value : Previous → Bool
is_before_value at_open = true
is_before_value at_sep = true
is_before_value at_row_sep = true
is_before_value at_value = false
is_before_value at_string = false

abbrev pub is_at_open : Previous → Bool
is_at_open at_open = true
is_at_open at_sep = false
is_at_open at_row_sep = false
is_at_open at_value = false
is_at_open at_string = false

-- The local variables of the loop. `signed` is `some` between a sign and its value, where it tells whether the
-- sign is a minus.
pub record ArrayState {ℓ} (Double : Type ℓ) : Type ℓ where
  pub row : ℕ
  pub col : ℕ
  pub prev_col : Option ℕ
  pub prev_op : Previous
  pub signed : Option Bool
  pub values : List Double
  pub strings : List ((ℕ × ℕ) × Bytes)

-- What one token leads to.
pub data ArrayRound {ℓ} (Double : Type ℓ) : Type ℓ where
  next closed : ArrayState Double → ArrayRound Double
  bad : Thrown → ArrayRound Double

module _ {ℓ} {Value Double Function : Type ℓ} (o : Operations Value Double Function) where
  -- `sign`, where it comes before a value.
  unfoldable pub array_sign : ArrayState Double → Bool → ArrayRound Double
  array_sign s minus = elim s.signed [
    | some already ↦ bad invalid_expression
    | none ↦
        if is_before_value s.prev_op
        then next (record s { signed = some minus })
        else bad invalid_expression
  ]

  unfoldable pub array_value : ArrayState Double → Double → ArrayRound Double
  array_value s v =
      if is_before_value s.prev_op
      then next (record s {
        col = suc s.col;
        prev_op = at_value;
        signed = none;
        values =
            s.values
            ++ (elim s.signed [ none ↦ v | some minus ↦ if minus then o.negate v else v ]) ∷ [];
      })
      else bad invalid_expression

  unfoldable pub array_string : ArrayState Double → ℕ → ArrayRound Double
  array_string s i =
      if is_before_value s.prev_op
      then elim (o.get_string i) [
        | none ↦ bad general_error
        | some text ↦ next (record s {
          col = suc s.col;
          prev_op = at_string;
          signed = none;
          values = s.values ++ o.zero_value ∷ [];
          strings = s.strings ++ ((s.row, s.col), text) ∷ [];
        })
      ]
      else bad invalid_expression

  unfoldable pub array_sep : ArrayState Double → ArrayRound Double
  array_sep s =
      if is_before_value s.prev_op
      then bad invalid_expression
      else next (record s { prev_op = at_sep })

  -- `prev_col && *prev_col != col`
  unfoldable pub is_inconsistent : ArrayState Double → Bool
  is_inconsistent s = elim s.prev_col [ none ↦ false | some c ↦ not (c == s.col) ]

  unfoldable pub array_row_sep : ArrayState Double → ArrayRound Double
  array_row_sep s =
      if is_before_value s.prev_op
      then bad invalid_expression
      else if is_inconsistent s
      then bad invalid_expression
      else next (record s { row = suc s.row; prev_op = at_row_sep; prev_col = some s.col; col = 0 })

  unfoldable pub array_close : ArrayState Double → ArrayRound Double
  array_close s =
      if is_before_value s.prev_op && not (is_at_open s.prev_op)
      then bad invalid_expression
      else if is_inconsistent s
      then bad invalid_expression
      else closed (record s { row = suc s.row })

  -- One round of the loop.
  unfoldable pub array_token : ArrayState Double → FormulaToken Double Function → ArrayRound Double
  array_token s (value_token v) = array_value s v
  array_token s (string_token i) = array_string s i
  array_token s (operator fop_plus) = array_sign s false
  array_token s (operator fop_minus) = array_sign s true
  array_token s (operator fop_sep) = array_sep s
  array_token s (operator fop_array_row_sep) = array_row_sep s
  array_token s (operator fop_array_close) = array_close s
  array_token s t = bad invalid_expression

  unfoldable pub array_loop :
      ArrayState Double
      → List (FormulaToken Double Function)
      → Run (Value × List (FormulaToken Double Function))
  array_loop s [] = threw invalid_expression
  array_loop s (t ∷ ts) = elim (array_token s t) [
    | bad e ↦ threw e
    | closed d ↦ ran (o.push_matrix d.row d.col d.values d.strings, ts)
    | next d ↦ array_loop d ts
  ]

  -- After the opening brace.
  unfoldable pub array :
      List (FormulaToken Double Function) → Run (Value × List (FormulaToken Double Function))
  array ts =
      array_loop
        (record {
          row = 0;
          col = 0;
          prev_col = none;
          prev_op = at_open;
          signed = none;
          values = [];
          strings = [];
        })
        ts
