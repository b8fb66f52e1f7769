-- ===== src/FormulaInterpreter/Syntax/Runs.antt =====
-- The interpreter on the tokens of an expression.
use ixion.Prelude.{ℕ, suc, Bool, true, false, List, [], ◌∷◌, none, some, ◌≡◌, refl, arith}
use ixion.Address.Defs.{AbsAddress}
use ixion.FormulaParser.Token.{
  Fopcode, fop_plus, fop_minus, fop_divide, fop_multiply, fop_exponent, fop_concat, fop_equal,
  fop_not_equal, fop_less, fop_greater, fop_less_equal, fop_greater_equal, fop_open, fop_close,
  fop_sep, fop_array_row_sep, fop_array_open, fop_array_close, FormulaToken, operator,
}
use ixion.FormulaInterpreter.Operations.{Run, ran, threw, follow, Operations, pop}
use ixion.FormulaInterpreter.Grammar.{
  valid_expression_op, numeric_op, concat_op, no_op, term_case, factor_case, sign_case, other_case,
  argument_case, opcode_of, argument_case_of, numeric_value, expect_open, expression_loop,
  term_rest, factor, operand, arguments, expression, term,
}
use ixion.FormulaInterpreter.Syntax.Defs.{
  Expression, Tail, Factor, Operand, Arguments, Others, chain, tail_end, tail_op, one, numeric,
  concat, unsigned, plus, minus, number, error, text, cell, cells, table, paren, call, no_arguments,
  first_argument, no_others, other_argument, show_expression, show_tail, show_term, show_factor,
  operand_token, operand_rest, show_arguments, show_others,
}

-- Two runs that begin alike.
module _ {ℓ κ μ} {A : Type ℓ} {B : Type κ} {C : Type μ} where
  pub follow-into :
      (s : Run A) (k : A → Run C) (g : A → Run B) (h : B → Run C)
      → ((a : A) → k a ≡ follow (g a) h)
      → follow s k ≡ follow (follow s g) h
  unfolding follow
  follow-into (ran a) k g h e = e a
  follow-into (threw t) k g h e = refl

  pub follow-both :
      {D : Type ℓ} (s : Run A) (k : A → Run D) (l : D → Run C) (g : A → Run B) (h : B → Run C)
      → ((a : A) → follow (k a) l ≡ follow (g a) h)
      → follow (follow s k) l ≡ follow (follow s g) h
  unfolding follow
  follow-both (ran a) k l g h e = e a
  follow-both (threw t) k l g h e = refl

pub valid_term_case : (op : Fopcode) → valid_expression_op op ≡ true → term_case op ≡ no_op
unfolding valid_expression_op term_case
valid_term_case fop_plus h = refl
valid_term_case fop_minus h = refl
valid_term_case fop_divide h = absurd (cc)
valid_term_case fop_multiply h = absurd (cc)
valid_term_case fop_exponent h = absurd (cc)
valid_term_case fop_concat h = absurd (cc)
valid_term_case fop_equal h = refl
valid_term_case fop_not_equal h = refl
valid_term_case fop_less h = refl
valid_term_case fop_greater h = refl
valid_term_case fop_less_equal h = refl
valid_term_case fop_greater_equal h = refl
valid_term_case fop_open h = refl
valid_term_case fop_close h = refl
valid_term_case fop_sep h = refl
valid_term_case fop_array_row_sep h = refl
valid_term_case fop_array_open h = refl
valid_term_case fop_array_close h = refl

module _ {ℓ κ} {A : Type ℓ} {B : Type κ} where
  pub follow-after :
      {C : Type ℓ} (s : Run A) (k : A → Run C) (l : C → Run B) (h : A → Run B)
      → ((a : A) → follow (k a) l ≡ h a)
      → follow (follow s k) l ≡ follow s h
  unfolding follow
  follow-after (ran a) k l h e = e a
  follow-after (threw t) k l h e = refl

-- The tokens behind a term end it, and those behind an expression end that.
module _ {ℓ} {Double Function : Type ℓ} where
  unfoldable pub ends_term : List (FormulaToken Double Function) → Bool
  ends_term [] = true
  ends_term (t ∷ ts) = elim (opcode_of t) [
    | none ↦ true
    | some op ↦ elim (term_case op) [ no_op ↦ true | numeric_op ↦ false | concat_op ↦ false ]
  ]

  unfoldable pub ends_expression : List (FormulaToken Double Function) → Bool
  ends_expression [] = true
  ends_expression (t ∷ ts) = elim (opcode_of t) [
    | none ↦ true
    | some op ↦ elim (term_case op) [
      | no_op ↦ elim (valid_expression_op op) [ true ↦ false | false ↦ true ]
      | numeric_op ↦ false
      | concat_op ↦ false
    ]
  ]

  pub ends_expression-ends_term :
      (ts : List (FormulaToken Double Function)) → ends_expression ts ≡ true → ends_term ts ≡ true
  unfolding ends_expression ends_term
  ends_expression-ends_term [] h = refl
  ends_expression-ends_term (t ∷ ts) h = ground arith

  pub show_tail-ends_term :
      (tail : Tail Double Function) (rest : List (FormulaToken Double Function))
      → ends_expression rest ≡ true
      → ends_term (show_tail tail rest) ≡ true
  unfolding show_tail ends_term
  show_tail-ends_term tail_end rest h = ends_expression-ends_term rest h
  show_tail-ends_term (tail_op op e t tail) rest h = rw (valid_term_case op e, ends_term) refl

module _ {ℓ} {Value Double Function : Type ℓ} (o : Operations Value Double Function)
    (origin : AbsAddress) where
  -- A value on a stack, in front of the tokens that are left.
  abbrev pub on :
      List Value
      → List (FormulaToken Double Function)
      → Value
      → Run (List Value × List (FormulaToken Double Function))
  on vs rest v = ran (v ∷ vs, rest)

  pub term_rest-end :
      (n : ℕ) (vs : List Value) (rest : List (FormulaToken Double Function))
      → ends_term rest ≡ true
      → term_rest o origin (suc n) vs rest ≡ ran (vs, rest)
  unfolding term_rest ends_term
  term_rest-end n vs [] h = refl
  term_rest-end n vs (t ∷ ts) h = ground arith

  pub term_rest-numeric :
      (n : ℕ) (v : Value) (vs : List Value) (op : Fopcode)
      (ts : List (FormulaToken Double Function))
      → term_case op ≡ numeric_op
      → term_rest o origin (suc n) (v ∷ vs) (operator op ∷ ts)
        ≡ follow
            (o.pop_matrix_or_numeric v)
            (λ v1. follow (term o origin n vs ts) (λ p. numeric_value o origin op v1 p))
  unfolding term_rest pop follow
  term_rest-numeric n v vs op ts e = rw (e, term_rest) refl

  pub expression_loop-end :
      (n : ℕ) (vs : List Value) (rest : List (FormulaToken Double Function))
      → ends_expression rest ≡ true
      → expression_loop o origin (suc n) vs rest ≡ ran (vs, rest)
  unfolding expression_loop ends_expression
  expression_loop-end n vs [] h = refl
  expression_loop-end n vs (t ∷ ts) h = ground arith

  pub factor-operand :
      (n : ℕ) (vs : List Value) (x : Operand Double Function)
      (ts : List (FormulaToken Double Function))
      → factor o origin (suc n) vs (operand_token x ∷ ts)
        ≡ operand o origin n vs (operand_token x) ts
  unfolding factor operand_token sign_case
  factor-operand n vs (number v) ts = refl
  factor-operand n vs (error e) ts = refl
  factor-operand n vs (text i) ts = refl
  factor-operand n vs (cell a) ts = refl
  factor-operand n vs (cells r) ts = refl
  factor-operand n vs (table t) ts = refl
  factor-operand n vs (paren e) ts = refl
  factor-operand n vs (call f xs) ts = refl

  -- What an expression begins with is no separator, and does not close the arguments.
  operand_token-argument_case :
      (x : Operand Double Function) → argument_case_of (operand_token x) ≡ other_case
  unfolding operand_token argument_case
  operand_token-argument_case (number v) = refl
  operand_token-argument_case (error e) = refl
  operand_token-argument_case (text i) = refl
  operand_token-argument_case (cell a) = refl
  operand_token-argument_case (cells r) = refl
  operand_token-argument_case (table t) = refl
  operand_token-argument_case (paren e) = refl
  operand_token-argument_case (call f xs) = refl

  first_of :
      (f : Factor Double Function) (rest : List (FormulaToken Double Function))
      → (t : FormulaToken Double Function) × (ts : List (FormulaToken Double Function))
        × (show_factor f rest ≡ t ∷ ts)
        × (argument_case_of t ≡ other_case)
  unfolding show_factor argument_case
  first_of (unsigned x) rest =
      (operand_token x, operand_rest x rest, refl, operand_token-argument_case x)
  first_of (plus x) rest = (operator fop_plus, operand_token x ∷ operand_rest x rest, refl, refl)
  first_of (minus x) rest = (operator fop_minus, operand_token x ∷ operand_rest x rest, refl, refl)

  pub first_argument_case :
      (e : Expression Double Function) (rest : List (FormulaToken Double Function))
      → (t : FormulaToken Double Function) × (ts : List (FormulaToken Double Function))
        × (show_expression e rest ≡ t ∷ ts)
        × (argument_case_of t ≡ other_case)
  unfolding show_expression show_term show_factor argument_case
  first_argument_case (chain (one f) tail) rest = first_of f (show_tail tail rest)
  first_argument_case (chain (numeric f op e t) tail) rest =
      first_of f (operator op ∷ show_term t (show_tail tail rest))
  first_argument_case (chain (concat f t) tail) rest =
      first_of f (operator fop_concat ∷ show_term t (show_tail tail rest))

  pub expect_open_lem :
      (xs : Arguments Double Function) (rest : List (FormulaToken Double Function))
      → expect_open o origin (operator fop_open ∷ show_arguments xs (operator fop_close ∷ rest))
        ≡ ran (show_arguments xs (operator fop_close ∷ rest))
  unfolding expect_open show_arguments factor_case
  expect_open_lem no_arguments rest = refl
  expect_open_lem (first_argument e es) rest =
      rw
        (
          show_arguments,
          (first_argument_case e (show_others es (operator fop_close ∷ rest))).2,
          expect_open,
        )
        refl

  pub show_others-ends_expression :
      (es : Others Double Function) (rest : List (FormulaToken Double Function))
      → ends_expression (show_others es (operator fop_close ∷ rest)) ≡ true
  unfolding show_others ends_expression valid_expression_op term_case
  show_others-ends_expression no_others rest = refl
  show_others-ends_expression (other_argument e es) rest = refl

  pub arguments-value :
      (n : ℕ) (vs : List Value) (e : Expression Double Function)
      (rest : List (FormulaToken Double Function))
      → arguments o origin (suc n) vs false (show_expression e rest)
        ≡ follow
            (expression o origin n vs (show_expression e rest))
            (λ p. arguments o origin n p.0 true p.1)
  unfolding arguments
  arguments-value n vs e rest = let f = first_argument_case e rest in rw (f.2) (ground (arith, f.3))
