-- ===== src/FormulaInterpreter/Syntax/Defs.antt =====
-- Expressions as trees. Operators of an expression associate to the left, those of a term to the right and
-- whatever they are; an operand has at most one sign.
use ixion.Prelude.{ℕ, suc, ◌+◌, true, List, [], ◌∷◌, none, some, ◌≡◌, if◌then◌else◌}
use ixion.Address.Defs.{AbsAddress, Address, Range, eq_abs, to_abs, range_to_abs, reorder, contains}
use ixion.FormulaLexer.Token.{FormulaError, ref_result_not_available}
use ixion.FormulaParser.Token.{
  Fopcode, fop_plus, fop_minus, fop_concat, fop_open, fop_close, fop_sep, Table, FormulaToken,
  operator, single_ref, range_ref, table_ref, function_token, error_token, value_token,
  string_token,
}
use ixion.FormulaInterpreter.Operations.{
  Run, ran, threw, general_error, formula_error, follow, Operations,
}
use ixion.FormulaInterpreter.Grammar.{valid_expression_op, numeric_op, term_case}

module _ {ℓ} (Double Function : Type ℓ) where
  mutual
    pub data Expression : Type ℓ where
      chain : Term → Tail → Expression

    -- The operators of an expression, each with the term behind it.
    pub data Tail : Type ℓ where
      tail_end : Tail
      tail_op : (op : Fopcode) → valid_expression_op op ≡ true → Term → Tail → Tail

    pub data Term : Type ℓ where
      one : Factor → Term
      numeric : Factor → (op : Fopcode) → term_case op ≡ numeric_op → Term → Term
      concat : Factor → Term → Term

    pub data Factor : Type ℓ where
      unsigned : Operand → Factor
      plus minus : Operand → Factor

    pub data Operand : Type ℓ where
      number : Double → Operand
      error : FormulaError → Operand
      text : ℕ → Operand
      cell : Address → Operand
      cells : Range → Operand
      table : Table → Operand
      paren : Expression → Operand
      call : Function → Arguments → Operand

    pub data Arguments : Type ℓ where
      no_arguments : Arguments
      first_argument : Expression → Others → Arguments

    pub data Others : Type ℓ where
      no_others : Others
      other_argument : Expression → Others → Others

module _ {ℓ} {Double Function : Type ℓ} where
  -- The tokens of each, in front of others.
  unfoldable mutual
    pub show_expression :
        Expression Double Function
        → List (FormulaToken Double Function)
        → List (FormulaToken Double Function)
    show_expression (chain t tail) rest = show_term t (show_tail tail rest)

    pub show_tail :
        Tail Double Function
        → List (FormulaToken Double Function)
        → List (FormulaToken Double Function)
    show_tail tail_end rest = rest
    show_tail (tail_op op e t tail) rest = operator op ∷ show_term t (show_tail tail rest)

    pub show_term :
        Term Double Function
        → List (FormulaToken Double Function)
        → List (FormulaToken Double Function)
    show_term (one f) rest = show_factor f rest
    show_term (numeric f op e t) rest = show_factor f (operator op ∷ show_term t rest)
    show_term (concat f t) rest = show_factor f (operator fop_concat ∷ show_term t rest)

    pub show_factor :
        Factor Double Function
        → List (FormulaToken Double Function)
        → List (FormulaToken Double Function)
    show_factor (unsigned x) rest = operand_token x ∷ operand_rest x rest
    show_factor (plus x) rest = operator fop_plus ∷ operand_token x ∷ operand_rest x rest
    show_factor (minus x) rest = operator fop_minus ∷ operand_token x ∷ operand_rest x rest

    -- The first token of an operand, and those behind it.
    pub operand_token : Operand Double Function → FormulaToken Double Function
    operand_token (number v) = value_token v
    operand_token (error e) = error_token e
    operand_token (text i) = string_token i
    operand_token (cell a) = single_ref a
    operand_token (cells r) = range_ref r
    operand_token (table t) = table_ref t
    operand_token (paren e) = operator fop_open
    operand_token (call f xs) = function_token f

    pub operand_rest :
        Operand Double Function
        → List (FormulaToken Double Function)
        → List (FormulaToken Double Function)
    operand_rest (number v) rest = rest
    operand_rest (error e) rest = rest
    operand_rest (text i) rest = rest
    operand_rest (cell a) rest = rest
    operand_rest (cells r) rest = rest
    operand_rest (table t) rest = rest
    operand_rest (paren e) rest = show_expression e (operator fop_close ∷ rest)
    operand_rest (call f xs) rest =
        operator fop_open ∷ show_arguments xs (operator fop_close ∷ rest)

    pub show_arguments :
        Arguments Double Function
        → List (FormulaToken Double Function)
        → List (FormulaToken Double Function)
    show_arguments no_arguments rest = rest
    show_arguments (first_argument e es) rest = show_expression e (show_others es rest)

    pub show_others :
        Others Double Function
        → List (FormulaToken Double Function)
        → List (FormulaToken Double Function)
    show_others no_others rest = rest
    show_others (other_argument e es) rest =
        operator fop_sep ∷ show_expression e (show_others es rest)

  -- The fuel that each needs.
  unfoldable mutual
    pub cost_expression : Expression Double Function → ℕ
    cost_expression (chain t tail) = suc (cost_term t + cost_tail tail)

    pub cost_tail : Tail Double Function → ℕ
    cost_tail tail_end = 1
    cost_tail (tail_op op e t tail) = suc (cost_term t + cost_tail tail)

    pub cost_term : Term Double Function → ℕ
    cost_term (one f) = suc (suc (cost_factor f))
    cost_term (numeric f op e t) = suc (suc (cost_factor f + cost_term t))
    cost_term (concat f t) = suc (suc (cost_factor f + cost_term t))

    pub cost_factor : Factor Double Function → ℕ
    cost_factor (unsigned x) = suc (cost_operand x)
    cost_factor (plus x) = suc (cost_operand x)
    cost_factor (minus x) = suc (cost_operand x)

    pub cost_operand : Operand Double Function → ℕ
    cost_operand (number v) = 1
    cost_operand (error e) = 1
    cost_operand (text i) = 1
    cost_operand (cell a) = 1
    cost_operand (cells r) = 1
    cost_operand (table t) = 1
    cost_operand (paren e) = suc (cost_expression e)
    cost_operand (call f xs) = suc (cost_arguments xs)

    pub cost_arguments : Arguments Double Function → ℕ
    cost_arguments no_arguments = 1
    cost_arguments (first_argument e es) = suc (cost_expression e + cost_others es)

    pub cost_others : Others Double Function → ℕ
    cost_others no_others = 1
    cost_others (other_argument e es) = suc (suc (cost_expression e + cost_others es))

module _ {ℓ} {Value Double Function : Type ℓ} (o : Operations Value Double Function)
    (origin : AbsAddress) where
  -- The value of each. It is computed from left to right, and the first error ends it.
  unfoldable mutual
    pub value_of : Expression Double Function → Run Value
    value_of (chain t tail) = follow (value_of_term t) (λ v. value_of_tail v tail)

    -- The operators behind a value, from the left.
    pub value_of_tail : Value → Tail Double Function → Run Value
    value_of_tail v tail_end = ran v
    value_of_tail v (tail_op op e t tail) = follow (o.pop_stack_value v) (λ v1.
        follow (value_of_term t) (λ w.
          follow (o.pop_stack_value w)
            (λ v2. follow (o.compare op v1 v2) (λ u. value_of_tail u tail))))

    pub value_of_term : Term Double Function → Run Value
    value_of_term (one f) = value_of_factor f
    value_of_term (numeric f op e t) = follow (value_of_factor f) (λ v.
        follow (o.pop_matrix_or_numeric v) (λ v1.
          follow (value_of_term t)
            (λ w. follow (o.pop_matrix_or_numeric w) (λ v2. o.op_matrix_or_numeric op v1 v2))))
    value_of_term (concat f t) = follow (value_of_factor f) (λ v.
        follow (o.pop_matrix_or_string v) (λ v1.
          follow (value_of_term t)
            (λ w. follow (o.pop_matrix_or_string w) (λ v2. o.concat_matrix_or_string v1 v2))))

    pub value_of_factor : Factor Double Function → Run Value
    value_of_factor (unsigned x) = value_of_operand x
    value_of_factor (plus x) = value_of_operand x
    value_of_factor (minus x) = follow (value_of_operand x) (λ v. o.negate_value v)

    pub value_of_operand : Operand Double Function → Run Value
    value_of_operand (number v) = ran (o.push_value v)
    value_of_operand (error e) = ran (o.push_error e)
    value_of_operand (text i) = elim (o.get_string i) [
      | none ↦ threw general_error
      | some s ↦ ran (o.push_string s)
    ]
    value_of_operand (cell a) =
        if eq_abs (to_abs origin a) origin
        then threw (formula_error ref_result_not_available)
        else ran (o.push_single_ref (to_abs origin a))
    value_of_operand (cells r) =
        if contains (reorder (range_to_abs origin r)) origin
        then threw (formula_error ref_result_not_available)
        else ran (o.push_range_ref (reorder (range_to_abs origin r)))
    value_of_operand (table t) = follow (o.get_range origin t) (λ r. ran (o.push_range_ref r))
    value_of_operand (paren e) = value_of e
    value_of_operand (call f xs) = follow (values_of xs) (λ vs. o.call_function origin f vs)

    -- The stack of the arguments, the last one first.
    pub values_of : Arguments Double Function → Run (List Value)
    values_of no_arguments = ran []
    values_of (first_argument e es) = follow (value_of e) (λ v. values_of_others (v ∷ []) es)

    pub values_of_others : List Value → Others Double Function → Run (List Value)
    values_of_others vs no_others = ran vs
    values_of_others vs (other_argument e es) =
        follow (value_of e) (λ v. values_of_others (v ∷ vs) es)
