-- ===== src/FormulaInterpreter/Interpret.antt =====
-- `interpret`: the expansion of the names, the run over the tokens, and its value.
use ixion.Prelude.{ℕ, List, [], ◌∷◌, ◌≤◌, ◌≡◌, false, refl, ◌∙◌, ap}
use ixion.Address.Defs.{AbsAddress}
use ixion.FormulaLexer.Token.{Bytes}
use ixion.FormulaLexer.Token
use ixion.FormulaParser.Token.{FormulaToken}
use ixion.ModelContext.Defs.{Context}
use ixion.FormulaInterpreter.Tokens.{
  NamedExpression, expanded, circular, name_not_found, unfinished, init_tokens,
}
use ixion.FormulaInterpreter.Operations
use ixion.FormulaInterpreter.Operations.{Thrown, Run, ran, threw, follow, Operations, formula_error}
use ixion.FormulaInterpreter.Values.Cells.{FormulaResult, own_result, formula_cell, Numbers, View}
use ixion.FormulaInterpreter.Values.Defs.{StackValue, value_of_cell, pop_stack_value}
use ixion.FormulaInterpreter.Values.Result.{pop_result, is_matrix, pop_result-KeepsValue}
use ixion.FormulaInterpreter.Grammar.{expression}
use ixion.FormulaInterpreter.Syntax.Defs.{Expression, show_expression, cost_expression, value_of}
use ixion.FormulaInterpreter.Syntax.Runs.{ends_expression, on, first_argument_case}
use ixion.FormulaInterpreter.Syntax.Evaluates.{expression_lem}

-- How `interpret` ends: there is nothing to interpret, tokens are left over, the top of an empty stack is read,
-- which is not defined, there is a result, or something was thrown. It catches what is thrown but `general_error`, and keeps the error.
pub data Interpretation {ℓ} (Result : Type ℓ) : Type ℓ where
  no_tokens ended_prematurely undefined : Interpretation Result
  result : Result → Interpretation Result
  failed : Thrown → Interpretation Result

abbrev pub interpretation_of {ℓ} : {Result : Type ℓ} → Run Result → Interpretation Result
interpretation_of (ran v) = result v
interpretation_of (threw e) = failed e

module _ {ℓ} {Double Matrix Function : Type ℓ} (num : Numbers Double)
    (view : View Double Matrix) where
  -- After the run: no token may be left, and the value on top of the stack gives the result.
  unfoldable pub finish :
      Run (List (StackValue Double Matrix) × List (FormulaToken Double Function))
      → Interpretation (FormulaResult Double Matrix)
  finish (threw e) = failed e
  finish (ran (vs, t ∷ ts)) = ended_prematurely
  finish (ran ([], [])) = undefined
  finish (ran (v ∷ vs, [])) = interpretation_of (pop_result num view v)

  unfoldable pub interpret_tokens :
      Operations (StackValue Double Matrix) Double Function
      → AbsAddress
      → ℕ
      → List (FormulaToken Double Function)
      → Interpretation (FormulaResult Double Matrix)
  interpret_tokens o origin n [] = no_tokens
  interpret_tokens o origin n (t ∷ ts) = finish (expression o origin n [] (t ∷ ts))

  -- `interpret` of a cell, whose position is `origin`, with its tokens.
  unfoldable pub interpret :
      Operations (StackValue Double Matrix) Double Function
      → Context (NamedExpression Double Function)
      → AbsAddress
      → ℕ
      → List (FormulaToken Double Function)
      → Interpretation (FormulaResult Double Matrix)
  interpret o c origin n ts = elim (init_tokens n c origin.sheet ts) [
    | expanded out used ↦ interpret_tokens o origin n out
    | circular ↦ failed Operations.invalid_expression
    | name_not_found ↦ failed (formula_error Token.name_not_found)
    | unfinished ↦ failed Operations.unfinished
  ]

  module _ (o : Operations (StackValue Double Matrix) Double Function)
      (c : Context (NamedExpression Double Function)) (origin : AbsAddress) where
    finish-on :
        (r : Run (StackValue Double Matrix))
        → finish (follow r (on o origin [] [])) ≡ interpretation_of (follow r (pop_result num view))
    unfolding finish follow
    finish-on (ran v) = refl
    finish-on (threw e) = refl

    interpret_tokens-show_expression :
        (n : ℕ) (e : Expression Double Function)
        → interpret_tokens o origin n (show_expression e [])
          ≡ finish (expression o origin n [] (show_expression e []))
    unfolding interpret_tokens
    interpret_tokens-show_expression n e =
        rw ((first_argument_case o origin e []).2, interpret_tokens) refl

    interpret-pop_result :
        (n : ℕ) (ts : List (FormulaToken Double Function)) (used : List Bytes)
        (e : Expression Double Function)
        → init_tokens n c origin.sheet ts ≡ expanded (show_expression e []) used
        → cost_expression e ≤ n
        → interpret o c origin n ts
          ≡ interpretation_of (follow (value_of o origin e) (pop_result num view))
    unfolding interpret ends_expression
    interpret-pop_result n ts used e names enough =
        rw (names, interpret)
          (interpret_tokens-show_expression n e
            ∙ ap finish (expression_lem o origin n e [] [] enough refl)
            ∙ finish-on (value_of o origin e))

    -- Where the names of a formula have been replaced and the tokens are those of an expression, the cell gets
    -- the result that `pop_result` makes of the value of the expression, or the error that is met first. And
    -- where that value, or that of the cell it refers to, can be taken as an operand and is no matrix, there is a
    -- result, and a cell that has it is in turn taken as the same operand.
    pub interpret_lem :
        (n : ℕ) (ts : List (FormulaToken Double Function)) (used : List Bytes)
        (e : Expression Double Function)
        → init_tokens n c origin.sheet ts ≡ expanded (show_expression e []) used
        → cost_expression e ≤ n
        → (interpret o c origin n ts
            ≡ interpretation_of (follow (value_of o origin e) (pop_result num view)))
          × ((v w : StackValue Double Matrix)
              → value_of o origin e ≡ ran v
              → pop_stack_value num view.cells v ≡ ran w
              → is_matrix w ≡ false
              → (r : FormulaResult Double Matrix) × (interpret o c origin n ts ≡ result r)
                × (value_of_cell num (formula_cell (own_result r)) ≡ ran w))
    unfolding follow
    interpret_lem n ts used e names enough =
        let whole = interpret-pop_result n ts used e names enough in
        (
          whole,
          (λ v w h k other.
              let (r, kept, again) = pop_result-KeepsValue num view v k other in
              (r, whole ∙ rw (h, follow) (rw kept refl), again)),
        )
