-- ===== src/FormulaInterpreter/Syntax/Evaluates.antt =====
-- On the tokens of an expression the interpreter computes the value of the expression.
use ixion.Prelude.{
  ℕ, zero, suc, ◌≤◌, Bool, true, false, List, [], ◌∷◌, Option, none, some, ◌≡◌, refl, ◌∙◌, arith,
  if◌then◌else◌,
}
use ixion.Address.Defs.{AbsAddress, eq_abs, to_abs, range_to_abs, reorder, contains}
use ixion.FormulaLexer.Token.{Bytes}
use ixion.FormulaParser.Token.{fop_concat, fop_close, FormulaToken, operator}
use ixion.FormulaInterpreter.Operations.{Thrown, general_error, ran, threw, follow, Operations, pop}
use ixion.FormulaInterpreter.Grammar.{
  term_case, factor_case, sign_case, argument_case, interpret_single_ref, interpret_range_ref,
  literal, expression_value, numeric_value, concat_value, apply_sign, expect_close, expect_open,
  expression_loop, term_rest, factor, operand, arguments, expression, term,
}
use ixion.FormulaInterpreter.Syntax.Runs.{
  follow-into, follow-both, ends_term, ends_expression, show_tail-ends_term, on, term_rest-end,
  expression_loop-end, factor-operand, term_rest-numeric, arguments-value, follow-after,
  expect_open_lem, show_others-ends_expression,
}
use ixion.FormulaInterpreter.Syntax.Defs.{
  Expression, Tail, Term, Factor, Operand, Arguments, Others, chain, tail_end, tail_op, one,
  numeric, concat, unsigned, plus, minus, number, error, text, cell, cells, table, paren, call,
  no_arguments, first_argument, no_others, other_argument, show_expression, show_tail, show_term,
  show_factor, operand_token, operand_rest, show_arguments, show_others, cost_expression, cost_tail,
  cost_term, cost_factor, cost_operand, cost_arguments, cost_others, value_of, value_of_tail,
  value_of_term, value_of_factor, value_of_operand, values_of, values_of_others,
}

module _ {ℓ} {Double Function : Type ℓ} where
  cost_operand-pos : (x : Operand Double Function) → 1 ≤ cost_operand x
  unfolding cost_operand
  cost_operand-pos (number v) = omega arith
  cost_operand-pos (error e) = omega arith
  cost_operand-pos (text i) = omega arith
  cost_operand-pos (cell a) = omega arith
  cost_operand-pos (cells r) = omega arith
  cost_operand-pos (table t) = omega arith
  cost_operand-pos (paren e) = omega arith
  cost_operand-pos (call f xs) = omega arith

  cost_term-pos : (t : Term Double Function) → 2 ≤ cost_term t
  unfolding cost_term
  cost_term-pos (one f) = omega arith
  cost_term-pos (numeric f op e t) = omega arith
  cost_term-pos (concat f t) = omega arith

  cost_arguments-pos : (xs : Arguments Double Function) → 1 ≤ cost_arguments xs
  unfolding cost_arguments
  cost_arguments-pos no_arguments = omega arith
  cost_arguments-pos (first_argument e es) = omega arith

  cost_others-pos : (es : Others Double Function) → 1 ≤ cost_others es
  unfolding cost_others
  cost_others-pos no_others = omega arith
  cost_others-pos (other_argument e es) = omega arith

module _ {ℓ} {Value Double Function : Type ℓ} (o : Operations Value Double Function)
    (origin : AbsAddress) where
  option_on :
      (vs : List Value) (rest : List (FormulaToken Double Function)) (text : Option Bytes)
      → elim text [ none ↦ threw general_error | some s ↦ ran (o.push_string s ∷ vs, rest) ]
        ≡ follow
            (elim text [ none ↦ threw general_error | some s ↦ ran (o.push_string s) ])
            (on o origin vs rest)
  unfolding follow
  option_on vs rest none = refl
  option_on vs rest (some s) = refl

  if_on :
      (vs : List Value) (rest : List (FormulaToken Double Function)) (e : Thrown) (v : Value)
      (b : Bool)
      → (if b then threw e else ran (v ∷ vs, rest))
        ≡ follow (if b then threw e else ran v) (on o origin vs rest)
  unfolding follow
  if_on vs rest e v true = refl
  if_on vs rest e v false = refl

  mutual
    unfolding expression expression_loop term term_rest factor operand arguments follow pop
        expression_value numeric_value concat_value apply_sign expect_close expect_open
        interpret_single_ref interpret_range_ref literal show_expression show_tail show_term
        show_factor operand_token operand_rest show_arguments show_others cost_expression cost_tail
        cost_term cost_factor cost_operand cost_arguments cost_others value_of value_of_tail
        value_of_term value_of_factor value_of_operand values_of values_of_others sign_case
        term_case argument_case factor_case

    expression_runs :
        (n : ℕ) (e : Expression Double Function) (vs : List Value)
        (rest : List (FormulaToken Double Function))
        → cost_expression e ≤ n
        → ends_expression rest ≡ true
        → expression o origin n vs (show_expression e rest)
          ≡ follow (value_of o origin e) (on o origin vs rest)
    expression_runs zero (chain t tail) vs rest c h = absurd (omega arith)
    expression_runs (suc n) (chain t tail) vs rest c h =
        rw (term_lem n t vs (show_tail tail rest) (omega arith) (show_tail-ends_term tail rest h)) (
          follow-both (value_of_term o origin t) _ _ _ _
            (λ v. tail_lem n v tail vs rest (omega arith) h))

    tail_lem :
        (n : ℕ) (v : Value) (tail : Tail Double Function) (vs : List Value)
        (rest : List (FormulaToken Double Function))
        → cost_tail tail ≤ n
        → ends_expression rest ≡ true
        → expression_loop o origin n (v ∷ vs) (show_tail tail rest)
          ≡ follow (value_of_tail o origin v tail) (on o origin vs rest)
    tail_lem zero v tail_end vs rest c h = absurd (omega arith)
    tail_lem zero v (tail_op op e t tail) vs rest c h = absurd (omega arith)
    tail_lem (suc n) v tail_end vs rest c h = expression_loop-end o origin n (v ∷ vs) rest h
    tail_lem (suc n) v (tail_op op e t tail) vs rest c h =
        rw (e, expression_loop)
          (follow-into (o.pop_stack_value v) _ _ _ (λ v1.
            rw
              (term_lem n t vs (show_tail tail rest) (omega arith)
                (show_tail-ends_term tail rest h))
              (follow-both (value_of_term o origin t) _ _ _ _ (λ w.
                follow-both (o.pop_stack_value w) _ _ _ _ (λ v2.
                  follow-both (o.compare op v1 v2) _ _ _ _
                    (λ u. tail_lem n u tail vs rest (omega arith) h))))))

    term_lem :
        (n : ℕ) (t : Term Double Function) (vs : List Value)
        (rest : List (FormulaToken Double Function))
        → cost_term t ≤ n
        → ends_term rest ≡ true
        → term o origin n vs (show_term t rest)
          ≡ follow (value_of_term o origin t) (on o origin vs rest)
    term_lem zero t vs rest c h = absurd (omega (arith, cost_term-pos t))
    term_lem (suc zero) t vs rest c h = absurd (omega (arith, cost_term-pos t))
    term_lem (suc (suc n)) (one f) vs rest c h = rw (factor_lem (suc n) f vs rest (omega arith)) (
        follow-after (value_of_factor o origin f) _ _ _
          (λ v. term_rest-end o origin n (v ∷ vs) rest h))
    term_lem (suc (suc n)) (numeric f op e t) vs rest c h =
        rw (factor_lem (suc n) f vs (operator op ∷ show_term t rest) (omega arith)) (
          follow-both (value_of_factor o origin f) _ _ _ _ (λ v.
            term_rest-numeric o origin n v vs op (show_term t rest) e
            ∙ follow-into (o.pop_matrix_or_numeric v) _ _ _ (λ v1.
              rw (term_lem n t vs rest (omega arith) h) (
                follow-both (value_of_term o origin t) _ _ _ _
                  (λ w. follow-into (o.pop_matrix_or_numeric w) _ _ _ (λ v2. refl))))))
    term_lem (suc (suc n)) (concat f t) vs rest c h =
        rw (factor_lem (suc n) f vs (operator fop_concat ∷ show_term t rest) (omega arith)) (
          follow-both (value_of_factor o origin f) _ _ _ _ (λ v.
            follow-into (o.pop_matrix_or_string v) _ _ _ (λ v1.
              rw (term_lem n t vs rest (omega arith) h) (
                follow-both (value_of_term o origin t) _ _ _ _
                  (λ w. follow-into (o.pop_matrix_or_string w) _ _ _ (λ v2. refl))))))

    factor_lem :
        (n : ℕ) (f : Factor Double Function) (vs : List Value)
        (rest : List (FormulaToken Double Function))
        → cost_factor f ≤ n
        → factor o origin n vs (show_factor f rest)
          ≡ follow (value_of_factor o origin f) (on o origin vs rest)
    factor_lem zero (unsigned x) vs rest c = absurd (omega arith)
    factor_lem zero (plus x) vs rest c = absurd (omega arith)
    factor_lem zero (minus x) vs rest c = absurd (omega arith)
    factor_lem (suc n) (unsigned x) vs rest c =
        factor-operand o origin n vs x (operand_rest x rest) ∙ operand_lem n x vs rest (omega arith)
    factor_lem (suc n) (plus x) vs rest c =
        rw (operand_lem n x vs rest (omega arith))
          (follow-after (value_of_operand o origin x) _ _ _ (λ v. refl))
    factor_lem (suc n) (minus x) vs rest c =
        rw (operand_lem n x vs rest (omega arith))
          (follow-both (value_of_operand o origin x) _ _ _ _ (λ v. refl))

    operand_lem :
        (n : ℕ) (x : Operand Double Function) (vs : List Value)
        (rest : List (FormulaToken Double Function))
        → cost_operand x ≤ n
        → operand o origin n vs (operand_token x) (operand_rest x rest)
          ≡ follow (value_of_operand o origin x) (on o origin vs rest)
    operand_lem zero x vs rest c = absurd (omega (arith, cost_operand-pos x))
    operand_lem (suc n) (number v) vs rest c = refl
    operand_lem (suc n) (error e) vs rest c = refl
    operand_lem (suc n) (text i) vs rest c = option_on vs rest (o.get_string i)
    operand_lem (suc n) (cell a) vs rest c = if_on vs rest _ _ (eq_abs (to_abs origin a) origin)
    operand_lem (suc n) (cells r) vs rest c =
        if_on vs rest _ _ (contains (reorder (range_to_abs origin r)) origin)
    operand_lem (suc n) (table t) vs rest c = follow-into (o.get_range origin t) _ _ _ (λ r. refl)
    operand_lem (suc n) (paren e) vs rest c =
        rw
          (expression_runs n e vs (operator fop_close ∷ rest) (omega arith)
            (show_others-ends_expression o origin no_others rest))
          (follow-after (value_of o origin e) _ _ _ (λ v. refl))
    operand_lem (suc n) (call f xs) vs rest c =
        rw (expect_open_lem o origin xs rest, arguments_lem n xs rest (omega arith))
          (follow-both (values_of o origin xs) _ _ _ _ (λ ws. refl))

    arguments_lem :
        (n : ℕ) (xs : Arguments Double Function) (rest : List (FormulaToken Double Function))
        → cost_arguments xs ≤ n
        → arguments o origin n [] false (show_arguments xs (operator fop_close ∷ rest))
          ≡ follow (values_of o origin xs) (λ vs. ran (vs, rest))
    arguments_lem zero xs rest c = absurd (omega (arith, cost_arguments-pos xs))
    arguments_lem (suc n) no_arguments rest c = refl
    arguments_lem (suc n) (first_argument e es) rest c =
        arguments-value o origin n [] e (show_others es (operator fop_close ∷ rest))
        ∙ rw
            (expression_runs n e [] (show_others es (operator fop_close ∷ rest)) (omega arith)
              (show_others-ends_expression o origin es rest))
            (follow-both (value_of o origin e) _ _ _ _
              (λ v. others_lem n (v ∷ []) es rest (omega arith)))

    others_lem :
        (n : ℕ) (vs : List Value) (es : Others Double Function)
        (rest : List (FormulaToken Double Function))
        → cost_others es ≤ n
        → arguments o origin n vs true (show_others es (operator fop_close ∷ rest))
          ≡ follow (values_of_others o origin vs es) (λ ws. ran (ws, rest))
    others_lem zero vs es rest c = absurd (omega (arith, cost_others-pos es))
    others_lem (suc n) vs no_others rest c = refl
    others_lem (suc zero) vs (other_argument e es) rest c = absurd (omega arith)
    others_lem (suc (suc n)) vs (other_argument e es) rest c =
        arguments-value o origin n vs e (show_others es (operator fop_close ∷ rest))
        ∙ rw
            (expression_runs n e vs (show_others es (operator fop_close ∷ rest)) (omega arith)
              (show_others-ends_expression o origin es rest))
            (follow-both (value_of o origin e) _ _ _ _
              (λ v. others_lem n (v ∷ vs) es rest (omega arith)))

  -- An expression is interpreted to its value, which comes onto the stack: operators such as `+` and `<` apply
  -- from the left, `*`, `/`, `^` and `&` come before them and apply from the right, and the first error ends
  -- the run. The tokens behind the expression are left, where they do not continue it.
  pub expression_lem :
      (n : ℕ) (e : Expression Double Function) (vs : List Value)
      (rest : List (FormulaToken Double Function))
      → cost_expression e ≤ n
      → ends_expression rest ≡ true
      → expression o origin n vs (show_expression e rest)
        ≡ follow (value_of o origin e) (on o origin vs rest)
  expression_lem n e vs rest enough ends = expression_runs n e vs rest enough ends
