-- ===== src/Tests/Calculator.antt =====
-- Operations on values for runs of the interpreter: the values are numbers, texts, references and matrices,
-- and the operators work on natural numbers. Other values are an error of the expression.
use ixion.Prelude.{ℕ, zero, suc, ◌+◌, ◌-◌, ◌*◌, List, [], ◌∷◌, some}
use ixion.Prelude.Int.{pos}
use ixion.Address.Defs.{AbsAddress, AbsRange}
use ixion.FormulaLexer.Token.{Bytes, FormulaError}
use ixion.FormulaParser.Token.{Fopcode, fop_plus, fop_minus, fop_divide, fop_multiply, fop_concat}
use ixion.FormulaInterpreter.Operations.{Run, ran, threw, invalid_expression, Operations}

pub data Cell : Type 0 where
  amount : ℕ → Cell
  failure : FormulaError → Cell
  letters : Bytes → Cell
  one_cell : AbsAddress → Cell
  many_cells : AbsRange → Cell
  grid : ℕ → ℕ → List ℕ → List ((ℕ × ℕ) × Bytes) → Cell

-- The quotient of natural numbers, by repeated subtraction.
unfoldable pub quotient : ℕ → ℕ → ℕ → ℕ
quotient zero a b = 0
quotient (suc n) a b = elim (a - b) [
  | zero ↦ (elim (b - a) [ zero ↦ 1 | suc k ↦ 0 ])
  | suc d ↦ 1 + quotient n (suc d) b
]

unfoldable pub calculate : Fopcode → Cell → Cell → Run Cell
calculate fop_plus (amount a) (amount b) = ran (amount (a + b))
calculate fop_minus (amount a) (amount b) = ran (amount (a - b))
calculate fop_multiply (amount a) (amount b) = ran (amount (a * b))
calculate fop_divide (amount a) (amount b) = ran (amount (quotient a a b))
calculate op v w = threw invalid_expression

unfoldable pub total : List Cell → ℕ
total [] = 0
total (amount a ∷ vs) = a + total vs
total (v ∷ vs) = total vs

abbrev pub corner : AbsAddress
corner = record { sheet = pos 0; row = pos 0; column = pos 0 }

-- The one function is the sum; there is one string, and a table is the first cell.
unfoldable pub calculator : Operations Cell ℕ ℕ
calculator = record {
  push_value = λ v. amount v;
  push_error = λ e. failure e;
  push_string = λ s. letters s;
  push_single_ref = λ a. one_cell a;
  push_range_ref = λ r. many_cells r;
  push_matrix = λ rows cols values strings. grid rows cols values strings;
  pop_stack_value = λ v. ran v;
  compare = λ op v w. calculate op v w;
  pop_matrix_or_numeric = λ v. ran v;
  op_matrix_or_numeric = λ op v w. calculate op v w;
  pop_matrix_or_string = λ v. ran v;
  concat_matrix_or_string = λ v w. calculate fop_concat v w;
  negate_value = λ v. threw invalid_expression;
  negate = λ v. v;
  zero_value = 0;
  get_string = λ i. some (b'a' ∷ []);
  get_range = λ origin t. ran (record { first = corner; last = corner });
  call_function = λ origin f vs. ran (amount (total vs));
}
