-- ===== src/FormulaInterpreter/Termination/Steps.antt =====
-- The steps of the interpreter that are not recursive: how many tokens they leave.
use ixion.Prelude.{
  ℕ, suc, ◌≤◌, Bool, true, false, List, [], ◌∷◌, Option, none, some, ◌≡◌, ◌≢◌, refl, arith, inl,
  inr, ◌⊎◌, length, Option-cases, if◌then◌else◌,
}
use ixion.Address.Defs.{AbsAddress}
use ixion.FormulaLexer.Token.{FormulaError}
use ixion.FormulaParser.Token.{
  Fopcode, fop_plus, fop_minus, fop_sep, fop_array_row_sep, fop_array_close, Table, FormulaToken,
  operator, value_token, string_token,
}
use ixion.FormulaInterpreter.Operations.{
  invalid_expression, general_error, unfinished, formula_general_error, formula_stack_error,
  formula_no_result_error, logic_error, formula_error, Run, ran, threw, follow, Operations, pop,
}
use ixion.FormulaInterpreter.Array.{
  ArrayState, ArrayRound, next, closed, bad, array_sign, array_value, array_string, array_sep,
  array_row_sep, array_close, array_token, array_loop, array,
}
use ixion.FormulaInterpreter.Grammar.{
  TermCase, numeric_op, concat_op, no_op, FactorCase, paren_case, array_case, no_case, factor_case,
  ArgumentCase, close_case, sep_case, other_case, opcode_of, argument_case_of, literal,
  expression_value, numeric_value, concat_value, apply_sign, expect_close, expect_open,
}

-- The operations on values end.
pub record IsFinal {ℓ} {Value Double Function : Type ℓ} (o : Operations Value Double Function)
    : Type ℓ where
  pub final_pop : (v : Value) → o.pop_stack_value v ≢ threw unfinished
  pub final_compare : (op : Fopcode) (v w : Value) → o.compare op v w ≢ threw unfinished
  pub final_numeric : (v : Value) → o.pop_matrix_or_numeric v ≢ threw unfinished
  pub final_op : (op : Fopcode) (v w : Value) → o.op_matrix_or_numeric op v w ≢ threw unfinished
  pub final_string : (v : Value) → o.pop_matrix_or_string v ≢ threw unfinished
  pub final_concat : (v w : Value) → o.concat_matrix_or_string v w ≢ threw unfinished
  pub final_negate : (v : Value) → o.negate_value v ≢ threw unfinished
  pub final_range : (a : AbsAddress) (t : Table) → o.get_range a t ≢ threw unfinished
  pub final_call :
      (a : AbsAddress) (f : Function) (vs : List Value) → o.call_function a f vs ≢ threw unfinished

pub TermCase-cases : (c : TermCase) → (c ≡ no_op) ⊎ (c ≡ numeric_op) ⊎ (c ≡ concat_op)
TermCase-cases no_op = inl refl
TermCase-cases numeric_op = inr (inl refl)
TermCase-cases concat_op = inr (inr refl)

pub FactorCase-cases : (c : FactorCase) → (c ≡ no_case) ⊎ (c ≡ paren_case) ⊎ (c ≡ array_case)
FactorCase-cases no_case = inl refl
FactorCase-cases paren_case = inr (inl refl)
FactorCase-cases array_case = inr (inr refl)

pub ArgumentCase-cases : (c : ArgumentCase) → (c ≡ close_case) ⊎ (c ≡ sep_case) ⊎ (c ≡ other_case)
ArgumentCase-cases close_case = inl refl
ArgumentCase-cases sep_case = inr (inl refl)
ArgumentCase-cases other_case = inr (inr refl)

pub pop-final {ℓ} : {Value : Type ℓ} (vs : List Value) → pop vs ≢ threw unfinished
unfolding pop
pop-final [] h = absurd (cc)
pop-final (v ∷ vs) h = absurd (cc)

module _ {ℓ} {Value Double Function : Type ℓ} where
  -- A run that ends, with at most so many tokens left.
  abbrev pub Left : ℕ → Run (List Value × List (FormulaToken Double Function)) → Type 0
  Left k (ran (vs, ts)) = length ts ≤ k
  Left k (threw invalid_expression) = Unit
  Left k (threw general_error) = Unit
  Left k (threw unfinished) = ⊥
  Left k (threw formula_general_error) = Unit
  Left k (threw formula_stack_error) = Unit
  Left k (threw formula_no_result_error) = Unit
  Left k (threw logic_error) = Unit
  Left k (threw (formula_error e)) = Unit

  pub if-Left :
      (b : Bool) (e : FormulaError) (vs : List Value) (ts : List (FormulaToken Double Function))
      → Left (length ts) (if b then threw (formula_error e) else ran (vs, ts))
  if-Left true e vs ts = tt
  if-Left false e vs ts = omega arith

  pub Left-mono :
      {k m : ℕ} (r : Run (List Value × List (FormulaToken Double Function)))
      → k ≤ m
      → Left k r
      → Left m r
  Left-mono (ran (vs, ts)) h l = omega arith
  Left-mono (threw invalid_expression) h l = tt
  Left-mono (threw general_error) h l = tt
  Left-mono (threw formula_general_error) h l = tt
  Left-mono (threw formula_stack_error) h l = tt
  Left-mono (threw formula_no_result_error) h l = tt
  Left-mono (threw logic_error) h l = tt
  Left-mono (threw (formula_error e)) h l = tt
  Left-mono (threw unfinished) h l = l

  pub Left-follow :
      (k m : ℕ) (r : Run (List Value × List (FormulaToken Double Function)))
      (f : List Value × List (FormulaToken Double Function)
        → Run (List Value × List (FormulaToken Double Function)))
      → Left k r
      → ((vs : List Value) (ts : List (FormulaToken Double Function))
          → length ts ≤ k
          → Left m (f (vs, ts)))
      → Left m (follow r f)
  unfolding follow
  Left-follow k m (ran (vs, ts)) f h g = g vs ts h
  Left-follow k m (threw invalid_expression) f h g = tt
  Left-follow k m (threw general_error) f h g = tt
  Left-follow k m (threw formula_general_error) f h g = tt
  Left-follow k m (threw formula_stack_error) f h g = tt
  Left-follow k m (threw formula_no_result_error) f h g = tt
  Left-follow k m (threw logic_error) f h g = tt
  Left-follow k m (threw (formula_error e)) f h g = tt
  Left-follow k m (threw unfinished) f h g = h

  pub Left-value {κ} :
      {A : Type κ} (k : ℕ) (r : Run A)
      (f : A → Run (List Value × List (FormulaToken Double Function)))
      → r ≢ threw unfinished
      → ((a : A) → Left k (f a))
      → Left k (follow r f)
  unfolding follow
  Left-value k (ran a) f h g = g a
  Left-value k (threw invalid_expression) f h g = tt
  Left-value k (threw general_error) f h g = tt
  Left-value k (threw formula_general_error) f h g = tt
  Left-value k (threw formula_stack_error) f h g = tt
  Left-value k (threw formula_no_result_error) f h g = tt
  Left-value k (threw logic_error) f h g = tt
  Left-value k (threw (formula_error e)) f h g = tt
  Left-value k (threw unfinished) f h g = absurd (h refl)

module _ {ℓ} {Value Double Function : Type ℓ} (o : Operations Value Double Function)
    (final : IsFinal o) (origin : AbsAddress) where
  pub expression_value-Left :
      (k : ℕ) (op : Fopcode) (v : Value) (vs : List Value)
      (ts : List (FormulaToken Double Function))
      → length ts ≤ k
      → Left k (expression_value o origin op v (vs, ts))
  unfolding expression_value
  expression_value-Left k op v vs ts h = Left-value k (pop vs) _ (pop-final vs) (λ r.
      Left-value k (o.pop_stack_value r.0) _ (final.final_pop r.0)
        (λ w. Left-value k (o.compare op v w) _ (final.final_compare op v w) (λ u. h)))

  pub numeric_value-Left :
      (k : ℕ) (op : Fopcode) (v : Value) (vs : List Value)
      (ts : List (FormulaToken Double Function))
      → length ts ≤ k
      → Left k (numeric_value o origin op v (vs, ts))
  unfolding numeric_value
  numeric_value-Left k op v vs ts h = Left-value k (pop vs) _ (pop-final vs) (λ r.
      Left-value k (o.pop_matrix_or_numeric r.0) _ (final.final_numeric r.0)
        (λ w. Left-value k (o.op_matrix_or_numeric op v w) _ (final.final_op op v w) (λ u. h)))

  pub concat_value-Left :
      (k : ℕ) (v : Value) (vs : List Value) (ts : List (FormulaToken Double Function))
      → length ts ≤ k
      → Left k (concat_value o origin v (vs, ts))
  unfolding concat_value
  concat_value-Left k v vs ts h = Left-value k (pop vs) _ (pop-final vs) (λ r.
      Left-value k (o.pop_matrix_or_string r.0) _ (final.final_string r.0)
        (λ w. Left-value k (o.concat_matrix_or_string v w) _ (final.final_concat v w) (λ u. h)))

  pub apply_sign-Left :
      (k : ℕ) (sign : Option Bool) (vs : List Value) (ts : List (FormulaToken Double Function))
      → length ts ≤ k
      → Left k (apply_sign o origin sign (vs, ts))
  unfolding apply_sign
  apply_sign-Left k none vs ts h = h
  apply_sign-Left k (some false) vs ts h = h
  apply_sign-Left k (some true) vs ts h =
      Left-value k (pop vs) _ (pop-final vs)
        (λ r. Left-value k (o.negate_value r.0) _ (final.final_negate r.0) (λ u. h))

  pub expect_close-Left :
      (k : ℕ) (vs : List Value) (ts : List (FormulaToken Double Function))
      → length ts ≤ suc k
      → Left k (expect_close o origin (vs, ts))
  unfolding expect_close
  expect_close-Left k vs [] h = tt
  expect_close-Left k vs (t ∷ ts) h = at (argument_case_of t)
    where
      at :
          (c : ArgumentCase)
          → Left k (elim c [
            | close_case ↦ ran (vs, ts)
            | sep_case ↦ threw invalid_expression
            | other_case ↦ threw invalid_expression
          ])
      at close_case = omega arith
      at sep_case = tt
      at other_case = tt

  pub expect_open-Left :
      (k : ℕ) (ts : List (FormulaToken Double Function))
      (f : List (FormulaToken Double Function)
        → Run (List Value × List (FormulaToken Double Function)))
      → ((us : List (FormulaToken Double Function)) → suc (length us) ≤ length ts → Left k (f us))
      → Left k (follow (expect_open o origin ts) f)
  unfolding expect_open follow
  expect_open-Left k [] f h = tt
  expect_open-Left k (t ∷ []) f h = tt
  expect_open-Left k (t ∷ u ∷ ts) f h = elim (Option-cases (opcode_of t)) [
    | inl plain ↦ rw (plain, expect_open) tt
    | inr (op, at) ↦ at_case (factor_case op) op at refl
  ]
    where
      at_case :
          (c : FactorCase) (op : Fopcode)
          → opcode_of t ≡ some op
          → factor_case op ≡ c
          → Left k (follow (expect_open o origin (t ∷ u ∷ ts)) f)
      at_case paren_case op at e = rw (at, e, expect_open) (h (u ∷ ts) (omega arith))
      at_case array_case op at e = rw (at, e, expect_open) tt
      at_case no_case op at e = rw (at, e, expect_open) tt

  pub literal-Left :
      (vs : List Value) (i : ℕ) (ts : List (FormulaToken Double Function))
      → Left (length ts) (literal o origin vs i ts)
  unfolding literal
  literal-Left vs i ts = elim (Option-cases (o.get_string i)) [
    | inl missing ↦ rw (missing, literal) tt
    | inr (s, found) ↦ rw (found, literal) (omega arith)
  ]

  array_token-final :
      (s : ArrayState Double) (t : FormulaToken Double Function)
      → array_token o s t ≢ bad unfinished
  unfolding array_token array_sign array_value array_string array_sep array_row_sep array_close
  array_token-final s (value_token v) h = ground arith
  array_token-final s (string_token i) h = ground arith
  array_token-final s (operator op) h = operator_final op h
    where
      operator_final : (op : Fopcode) → array_token o s (operator op) ≢ bad unfinished
      operator_final fop_plus h = ground arith
      operator_final fop_minus h = ground arith
      operator_final fop_sep h = ground arith
      operator_final fop_array_row_sep h = ground arith
      operator_final fop_array_close h = ground arith
      operator_final op h = absurd (cc)
  array_token-final s t h = absurd (cc)

  pub array_loop-Left :
      (vs : List Value) (s : ArrayState Double) (ts : List (FormulaToken Double Function))
      → Left (length ts) (follow (array_loop o s ts) (λ r. ran (r.0 ∷ vs, r.1)))
  unfolding array_loop follow
  array_loop-Left vs s [] = tt
  array_loop-Left vs s (t ∷ ts) =
      round (array_token o s t) (array_token-final s t) (λ d. array_loop-Left vs d ts)
    where
      round :
          (r : ArrayRound Double)
          → r ≢ bad unfinished
          → ((d : ArrayState Double)
              → Left (length ts) (follow (array_loop o d ts) (λ r. ran (r.0 ∷ vs, r.1))))
          → Left (suc (length ts)) (
              follow
                (elim r [
                  | bad e ↦ threw e
                  | closed d ↦ ran (o.push_matrix d.row d.col d.values d.strings, ts)
                  | next d ↦ array_loop o d ts
                ])
                (λ r. ran (r.0 ∷ vs, r.1)))
      round (bad invalid_expression) h again = tt
      round (bad general_error) h again = tt
      round (bad unfinished) h again = absurd (h refl)
      round (bad formula_general_error) h again = tt
      round (bad formula_stack_error) h again = tt
      round (bad formula_no_result_error) h again = tt
      round (bad logic_error) h again = tt
      round (bad (formula_error e)) h again = tt
      round (closed d) h again = omega arith
      round (next d) h again =
          Left-mono (follow (array_loop o d ts) (λ r. ran (r.0 ∷ vs, r.1))) (omega arith) (again d)

  pub array-Left :
      (vs : List Value) (ts : List (FormulaToken Double Function))
      → Left (length ts) (follow (array o ts) (λ r. ran (r.0 ∷ vs, r.1)))
  unfolding array
  array-Left vs ts = array_loop-Left vs _ ts
