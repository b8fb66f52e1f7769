-- ===== src/FormulaInterpreter/Termination/Total.antt =====
-- Fuel for six steps a token is enough to interpret the tokens, whatever they are.
use ixion.Prelude.{
  ℕ, zero, suc, ◌+◌, ◌-◌, ◌*◌, ◌≤◌, Bool, true, false, List, [], ◌∷◌, some, arith, inl, inr, length,
  Bool-cases, Option-cases,
}
use ixion.Address.Defs.{AbsAddress, eq_abs, to_abs, range_to_abs, reorder, contains}
use ixion.FormulaParser.Token.{
  FormulaToken, operator, single_ref, range_ref, table_ref, function_token, error_token,
  value_token, string_token, named_expression_token,
}
use ixion.FormulaInterpreter.Operations.{follow, Operations, pop}
use ixion.FormulaInterpreter.Grammar.{
  valid_expression_op, term_case, factor_case, sign_case, opcode_of, argument_case_of,
  interpret_single_ref, interpret_range_ref, expression_value, expression, expression_loop, term,
  term_rest, factor, operand, arguments,
}
use ixion.FormulaInterpreter.Termination.Steps.{
  IsFinal, Left, Left-mono, Left-follow, Left-value, pop-final, expression_value-Left,
  numeric_value-Left, concat_value-Left, TermCase-cases, FactorCase-cases, ArgumentCase-cases,
  literal-Left, if-Left, array-Left, apply_sign-Left, expect_close-Left, expect_open-Left,
}

module _ {ℓ} {Value Double Function : Type ℓ} (o : Operations Value Double Function)
    (final : IsFinal o) (origin : AbsAddress) where
  mutual
    unfolding expression expression_loop term term_rest factor operand arguments
        interpret_single_ref interpret_range_ref

    expression_ends :
        (n : ℕ) (vs : List Value) (ts : List (FormulaToken Double Function))
        → 6 * length ts + 5 ≤ n
        → Left (length ts - 1) (expression o origin n vs ts)
    expression_ends zero vs ts h = absurd (omega arith)
    expression_ends (suc n) vs ts h =
        Left-follow (length ts - 1) (length ts - 1) (term o origin n vs ts) _
          (term_ends n vs ts (omega arith))
          (λ ws us l.
            Left-mono (expression_loop o origin n ws us) l (loop_ends n ws us (omega arith)))

    loop_ends :
        (n : ℕ) (vs : List Value) (ts : List (FormulaToken Double Function))
        → 6 * length ts + 1 ≤ n
        → Left (length ts) (expression_loop o origin n vs ts)
    loop_ends zero vs ts h = absurd (omega arith)
    loop_ends (suc n) vs [] h = omega arith
    loop_ends (suc n) vs (t ∷ ts) h = elim (Option-cases (opcode_of t)) [
      | inl plain ↦ rw (plain, expression_loop) (omega arith)
      | inr (op, at) ↦ elim (Bool-cases (valid_expression_op op)) [
        | inr other ↦ rw (at, other, expression_loop) (omega arith)
        | inl valid ↦
            rw (at, valid, expression_loop)
              (Left-value (suc (length ts)) (pop vs) _ (pop-final vs) (λ r.
                Left-value (suc (length ts)) (o.pop_stack_value r.0) _ (final.final_pop r.0) (λ v.
                  Left-follow (length ts - 1) (suc (length ts)) (term o origin n r.1 ts) _
                    (term_ends n r.1 ts (omega arith))
                    (λ ws us l.
                      Left-follow (length us) (suc (length ts))
                        (expression_value o origin op v (ws, us)) _
                        (expression_value-Left o final origin (length us) op v ws us (omega arith))
                        (λ xs zs m.
                          Left-mono (expression_loop o origin n xs zs) (omega arith)
                            (loop_ends n xs zs (omega arith)))))))
      ]
    ]

    term_ends :
        (n : ℕ) (vs : List Value) (ts : List (FormulaToken Double Function))
        → 6 * length ts + 4 ≤ n
        → Left (length ts - 1) (term o origin n vs ts)
    term_ends zero vs ts h = absurd (omega arith)
    term_ends (suc n) vs ts h =
        Left-follow (length ts - 1) (length ts - 1) (factor o origin n vs ts) _
          (factor_ends n vs ts (omega arith))
          (λ ws us l.
            Left-mono (term_rest o origin n ws us) l (term_rest_ends n ws us (omega arith)))

    term_rest_ends :
        (n : ℕ) (vs : List Value) (ts : List (FormulaToken Double Function))
        → 6 * length ts + 1 ≤ n
        → Left (length ts) (term_rest o origin n vs ts)
    term_rest_ends zero vs ts h = absurd (omega arith)
    term_rest_ends (suc n) vs [] h = omega arith
    term_rest_ends (suc n) vs (t ∷ ts) h = elim (Option-cases (opcode_of t)) [
      | inl plain ↦ rw (plain, term_rest) (omega arith)
      | inr (op, at) ↦ elim (TermCase-cases (term_case op)) [
        | inl e ↦ rw (at, e, term_rest) (omega arith)
        | inr (inl e) ↦
            rw (at, e, term_rest)
              (Left-value (suc (length ts)) (pop vs) _ (pop-final vs) (λ r.
                Left-value (suc (length ts)) (o.pop_matrix_or_numeric r.0) _
                  (final.final_numeric r.0)
                  (λ v.
                    Left-follow (length ts - 1) (suc (length ts)) (term o origin n r.1 ts) _
                      (term_ends n r.1 ts (omega arith))
                      (λ ws us l.
                        numeric_value-Left o final origin (suc (length ts)) op v ws us
                          (omega arith)))))
        | inr (inr e) ↦
            rw (at, e, term_rest)
              (Left-value (suc (length ts)) (pop vs) _ (pop-final vs) (λ r.
                Left-value (suc (length ts)) (o.pop_matrix_or_string r.0) _ (final.final_string r.0)
                  (λ v.
                    Left-follow (length ts - 1) (suc (length ts)) (term o origin n r.1 ts) _
                      (term_ends n r.1 ts (omega arith))
                      (λ ws us l.
                        concat_value-Left o final origin (suc (length ts)) v ws us (omega arith)))))
      ]
    ]

    factor_ends :
        (n : ℕ) (vs : List Value) (ts : List (FormulaToken Double Function))
        → 6 * length ts + 3 ≤ n
        → Left (length ts - 1) (factor o origin n vs ts)
    factor_ends zero vs ts h = absurd (omega arith)
    factor_ends (suc n) vs [] h = tt
    factor_ends (suc n) vs (t ∷ []) h = elim (Option-cases (opcode_of t)) [
      | inl plain ↦ rw (plain, factor) (operand_ends n vs t [] (omega arith))
      | inr (op, at) ↦ elim (Option-cases (sign_case op)) [
        | inl unsigned ↦ rw (at, unsigned, factor) (operand_ends n vs t [] (omega arith))
        | inr (minus, signed) ↦ rw (at, signed, factor) tt
      ]
    ]
    factor_ends (suc n) vs (t ∷ u ∷ ts) h = elim (Option-cases (opcode_of t)) [
      | inl plain ↦
          rw (plain, factor)
            (Left-mono (operand o origin n vs t (u ∷ ts)) (omega arith)
              (operand_ends n vs t (u ∷ ts) (omega arith)))
      | inr (op, at) ↦ elim (Option-cases (sign_case op)) [
        | inl unsigned ↦
            rw (at, unsigned, factor)
              (Left-mono (operand o origin n vs t (u ∷ ts)) (omega arith)
                (operand_ends n vs t (u ∷ ts) (omega arith)))
        | inr (minus, signed) ↦
            rw (at, signed, factor)
              (Left-follow (length ts) (suc (suc (length ts)) - 1) (operand o origin n vs u ts) _
                (operand_ends n vs u ts (omega arith))
                (λ ws us l.
                  apply_sign-Left o final origin (suc (suc (length ts)) - 1) (some minus) ws us
                    (omega arith)))
      ]
    ]

    operand_ends :
        (n : ℕ) (vs : List Value) (t : FormulaToken Double Function)
        (ts : List (FormulaToken Double Function))
        → 6 * length ts + 8 ≤ n
        → Left (length ts) (operand o origin n vs t ts)
    operand_ends zero vs t ts h = absurd (omega arith)
    operand_ends (suc n) vs (operator op) ts h = elim (FactorCase-cases (factor_case op)) [
      | inl e ↦ rw (e, operand) tt
      | inr (inl e) ↦
          rw (e, operand)
            (Left-follow (length ts - 1) (length ts) (expression o origin n vs ts) _
              (expression_ends n vs ts (omega arith))
              (λ ws us l. expect_close-Left o final origin (length ts) ws us (omega arith)))
      | inr (inr e) ↦ rw (e, operand) (array-Left o final origin vs ts)
    ]
    operand_ends (suc n) vs (single_ref a) ts h = if-Left (eq_abs (to_abs origin a) origin) _ _ ts
    operand_ends (suc n) vs (range_ref r) ts h =
        if-Left (contains (reorder (range_to_abs origin r)) origin) _ _ ts
    operand_ends (suc n) vs (table_ref t) ts h =
        Left-value (length ts) (o.get_range origin t) _ (final.final_range origin t)
          (λ r. omega arith)
    operand_ends (suc n) vs (function_token f) ts h =
        expect_open-Left o final origin (length ts) ts _ (λ us l.
          Left-follow (length us - 1) (length ts) (arguments o origin n [] false us) _
            (arguments_end n [] false us (omega arith))
            (λ ws zs m.
              Left-value (length ts) (o.call_function origin f ws) _ (final.final_call origin f ws)
                (λ v. omega arith)))
    operand_ends (suc n) vs (error_token e) ts h = omega arith
    operand_ends (suc n) vs (value_token v) ts h = omega arith
    operand_ends (suc n) vs (string_token i) ts h = literal-Left o final origin vs i ts
    operand_ends (suc n) vs (named_expression_token s) ts h = tt

    arguments_end :
        (n : ℕ) (vs : List Value) (expect_sep : Bool) (ts : List (FormulaToken Double Function))
        → 6 * length ts + 6 ≤ n
        → Left (length ts - 1) (arguments o origin n vs expect_sep ts)
    arguments_end zero vs expect_sep ts h = absurd (omega arith)
    arguments_end (suc n) vs expect_sep [] h = tt
    arguments_end (suc n) vs false (t ∷ ts) h =
        let again : Left (length ts)
            (follow (expression o origin n vs (t ∷ ts)) (λ p. arguments o origin n p.0 true p.1)) =
          Left-follow (suc (length ts) - 1) (length ts) (expression o origin n vs (t ∷ ts)) _
            (expression_ends n vs (t ∷ ts) (omega arith))
            (λ ws us l.
              Left-mono (arguments o origin n ws true us) (omega arith)
                (arguments_end n ws true us (omega arith))) in
        elim (ArgumentCase-cases (argument_case_of t)) [
          | inl e ↦ rw (e, arguments) (omega arith)
          | inr (inl e) ↦ rw (e, arguments) (Left-mono _ (omega arith) again)
          | inr (inr e) ↦ rw (e, arguments) (Left-mono _ (omega arith) again)
        ]
    arguments_end (suc n) vs true (t ∷ ts) h = elim (ArgumentCase-cases (argument_case_of t)) [
      | inl e ↦ rw (e, arguments) (omega arith)
      | inr (inl e) ↦
          rw (e, arguments)
            (Left-mono (arguments o origin n vs false ts) (omega arith)
              (arguments_end n vs false ts (omega arith)))
      | inr (inr e) ↦ rw (e, arguments) tt
    ]

  -- Where the operations on values end, fuel for six steps a token and five more is enough to interpret any
  -- tokens as an expression: the run throws what the code throws, or leaves fewer tokens than it had.
  pub expression-Left :
      (n : ℕ) (vs : List Value) (ts : List (FormulaToken Double Function))
      → 6 * length ts + 5 ≤ n
      → Left (length ts - 1) (expression o origin n vs ts)
  expression-Left n vs ts enough = expression_ends n vs ts enough
