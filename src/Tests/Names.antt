-- ===== src/Tests/Names.antt =====
-- Instances of the theorems on the expansion of named expressions.
use ixion.Prelude.{ℕ, List, [], ◌∷◌, some, ◌≡◌, refl, arith}
use ixion.Prelude.Int.{pos}
use ixion.Address.Defs.{AbsAddress}
use ixion.FormulaLexer.Token.{Bytes}
use ixion.FormulaParser.Token.{
  FormulaToken, operator, value_token, named_expression_token, fop_plus, fop_open, fop_close,
}
use ixion.ModelContext.Defs.{
  Context, find_expression, find_in_scopes, fetch_sheet, get_named_expression,
}
use ixion.UnorderedSet.{insert}
use ixion.FormulaInterpreter.Tokens.{
  NamedExpression, circular, follow, expand_tokens, expand_named_expression, init_loop, init_tokens,
}
use ixion.FormulaInterpreter.Names.Defs.{Expands, expands_end, expands_token, expands_name, Outcome}
use ixion.FormulaInterpreter.Names.Formula.{all_names, init_tokens_lem, init_tokens-circular}

abbrev sum_name : Bytes
sum_name = b'x' ∷ []

abbrev term_name : Bytes
term_name = b'y' ∷ []

abbrev home : AbsAddress
home = record { sheet = pos 0; row = pos 0; column = pos 0 }

-- `x`, which is `y+y`, and `y`, which is 3.
abbrev sum : NamedExpression ℕ ℕ
sum = record {
  origin = home;
  tokens =
      named_expression_token term_name ∷ operator fop_plus ∷ named_expression_token term_name ∷ [];
}

abbrev term : NamedExpression ℕ ℕ
term = record { origin = home; tokens = value_token 3 ∷ [] }

abbrev model : Context (NamedExpression ℕ ℕ)
model = record {
  sheet_rows = 10;
  sheet_columns = 10;
  sheet_names = (b'A' ∷ []) ∷ [];
  sheets = [] ∷ [];
  named_expressions = (sum_name, sum) ∷ (term_name, term) ∷ [];
}

abbrev formula : List (FormulaToken ℕ ℕ)
formula = named_expression_token sum_name ∷ []

abbrev term_tokens : List (FormulaToken ℕ ℕ)
term_tokens = operator fop_open ∷ value_token 3 ∷ operator fop_close ∷ []

abbrev formula_tokens : List (FormulaToken ℕ ℕ)
formula_tokens =
    operator fop_open
    ∷ operator fop_open
    ∷ value_token 3
    ∷ operator fop_close
    ∷ operator fop_plus
    ∷ operator fop_open
    ∷ value_token 3
    ∷ operator fop_close
    ∷ operator fop_close
    ∷ []

sum-named : get_named_expression model (pos 0) sum_name ≡ some sum
unfolding get_named_expression find_in_scopes fetch_sheet find_expression
sum-named = refl

term-named : get_named_expression model (pos 0) term_name ≡ some term
unfolding get_named_expression find_in_scopes fetch_sheet find_expression
term-named = refl

term-Expands : Expands (get_named_expression model (pos 0)) term.tokens (value_token 3 ∷ [])
term-Expands = expands_token (value_token 3) refl expands_end

sum-Expands : Expands (get_named_expression model (pos 0)) sum.tokens (
    operator fop_open
    ∷ value_token 3
    ∷ operator fop_close
    ∷ operator fop_plus
    ∷ operator fop_open
    ∷ value_token 3
    ∷ operator fop_close
    ∷ [])
sum-Expands = expands_name term_name term term-named term-Expands (
    expands_token (operator fop_plus) refl
      (expands_name term_name term term-named term-Expands expands_end))

formula-Expands : Expands (get_named_expression model (pos 0)) formula formula_tokens
formula-Expands = expands_name sum_name sum sum-named sum-Expands expands_end

formula_run : init_tokens 4 model (pos 0) formula ≡ circular
unfolding init_tokens init_loop expand_named_expression expand_tokens follow insert
    get_named_expression find_in_scopes fetch_sheet find_expression
formula_run = refl

init_tokens_lem_example :
    Outcome (get_named_expression model (pos 0)) formula [] [] (init_tokens 4 model (pos 0) formula)
unfolding all_names fetch_sheet
init_tokens_lem_example = init_tokens_lem model (pos 0) 4 (omega arith) formula

init_tokens-circular_example : init_tokens 4 model (pos 0) formula ≡ circular
unfolding all_names fetch_sheet
init_tokens-circular_example =
    init_tokens-circular model (pos 0) 4 sum_name term_name sum [] (operator fop_plus ∷ []) [] [] []
      formula_tokens (omega arith) sum-named refl formula-Expands
