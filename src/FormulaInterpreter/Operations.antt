-- ===== src/FormulaInterpreter/Operations.antt =====
-- What the interpreter does with values: the interface to the value stack, to the built-in functions, to the
-- tables and to the strings of the model. And what comes of a run: a result, or what it throws.
use ixion.Prelude.{ℕ, List, [], ◌∷◌, Option}
use ixion.Address.Defs.{AbsAddress, AbsRange}
use ixion.FormulaLexer.Token.{Bytes, FormulaError}
use ixion.FormulaParser.Token.{Fopcode, Table}

-- What is thrown: `invalid_expression`, `general_error`, and `formula_error` with its value, which can be three
-- more than those of a token; and `std::logic_error`. A run is `unfinished` where the fuel was too little.
pub data Thrown : Type 0 where
  invalid_expression general_error unfinished : Thrown
  formula_general_error formula_stack_error formula_no_result_error logic_error : Thrown
  formula_error : FormulaError → Thrown

pub data Run {ℓ} (A : Type ℓ) : Type ℓ where
  ran : A → Run A
  threw : Thrown → Run A

-- What comes after a step that does not throw.
unfoldable pub follow {ℓ κ} : {A : Type ℓ} {B : Type κ} → Run A → (A → Run B) → Run B
follow (ran a) k = k a
follow (threw e) k = threw e

-- The operations on values, over the types of values, numbers and functions. A value of the stack that is
-- popped in one of the three ways is checked and converted; the operators take the converted values.
pub record Operations {ℓ} (Value Double Function : Type ℓ) : Type ℓ where
  pub push_value : Double → Value
  pub push_error : FormulaError → Value
  pub push_string : Bytes → Value
  pub push_single_ref : AbsAddress → Value
  pub push_range_ref : AbsRange → Value
  pub push_matrix : ℕ → ℕ → List Double → List ((ℕ × ℕ) × Bytes) → Value
  pub pop_stack_value : Value → Run Value
  pub compare : Fopcode → Value → Value → Run Value
  pub pop_matrix_or_numeric : Value → Run Value
  pub op_matrix_or_numeric : Fopcode → Value → Value → Run Value
  pub pop_matrix_or_string : Value → Run Value
  pub concat_matrix_or_string : Value → Value → Run Value
  pub negate_value : Value → Run Value
  pub negate : Double → Double
  pub zero_value : Double
  pub get_string : ℕ → Option Bytes
  pub get_range : AbsAddress → Table → Run AbsRange
  pub call_function : AbsAddress → Function → List Value → Run Value

-- The top of a stack, and what is below. Without a value there is an error.
unfoldable pub pop {ℓ} : {Value : Type ℓ} → List Value → Run (Value × List Value)
pop [] = threw formula_stack_error
pop (v ∷ vs) = ran (v, vs)
