-- ===== src/FormulaInterpreter/Tokens.antt =====
-- `init_tokens` and `expand_named_expression`: the tokens that are interpreted are those of the formula, with
-- the tokens of an expression between parentheses in place of its name. The set of the names that were used
-- is one for the whole formula: a name stays in it when its expression has been copied.
use ixion.Prelude.{ℕ, zero, suc, true, false, List, [], ◌∷◌, ◌++◌, Option, none, some, elem}
use ixion.Prelude.Int.{ℤ}
use ixion.Address.Defs.{AbsAddress}
use ixion.FormulaLexer.Token.{Bytes}
use ixion.FormulaParser.Token.{
  FormulaToken, operator, single_ref, range_ref, table_ref, function_token, error_token,
  value_token, string_token, named_expression_token, fop_open, fop_close,
}
use ixion.StringPool.Defs.{bytes_eq}
use ixion.UnorderedSet.{insert}
use ixion.ModelContext.Defs.{Context, get_named_expression}

-- `named_expression_t`
pub record NamedExpression {ℓ} (Double Function : Type ℓ) : Type ℓ where
  pub origin : AbsAddress
  pub tokens : List (FormulaToken Double Function)

-- What the expansion ends with: the tokens and the names used so far, or one of the two errors that it
-- throws. It is `unfinished` where the fuel was too little.
pub data Expansion {ℓ} (Double Function : Type ℓ) : Type ℓ where
  expanded : List (FormulaToken Double Function) → List Bytes → Expansion Double Function
  circular name_not_found unfinished : Expansion Double Function

module _ {ℓ} {Double Function : Type ℓ} where
  -- The name of a token whose opcode is `fop_named_expression`.
  abbrev pub name_of : FormulaToken Double Function → Option Bytes
  name_of (operator op) = none
  name_of (single_ref a) = none
  name_of (range_ref r) = none
  name_of (table_ref t) = none
  name_of (function_token f) = none
  name_of (error_token e) = none
  name_of (value_token v) = none
  name_of (string_token i) = none
  name_of (named_expression_token s) = some s

  -- What comes after an expansion that does not throw.
  unfoldable pub follow :
      Expansion Double Function
      → (List (FormulaToken Double Function) → List Bytes → Expansion Double Function)
      → Expansion Double Function
  follow (expanded out used) rest = rest out used
  follow circular rest = circular
  follow name_not_found rest = name_not_found
  follow unfinished rest = unfinished

  -- The loop of `expand_named_expression`, over its recursive call.
  unfoldable pub expand_tokens :
      (Bytes → List Bytes → List (FormulaToken Double Function) → Expansion Double Function)
      → List (FormulaToken Double Function)
      → List Bytes
      → List (FormulaToken Double Function)
      → Expansion Double Function
  expand_tokens expand [] used out = expanded out used
  expand_tokens expand (t ∷ ts) used out = elim (name_of t) [
    | none ↦ expand_tokens expand ts used (out ++ t ∷ [])
    | some s ↦ elim (elem s used) [
      | true ↦ circular
      | false ↦
          follow (expand s (insert s used) out) (λ out' used'. expand_tokens expand ts used' out')
    ]
  ]

  module _ (named : Bytes → Option (NamedExpression Double Function)) where
    -- `expand_named_expression` of the expression that has a name.
    unfoldable pub expand_named_expression :
        ℕ → Bytes → List Bytes → List (FormulaToken Double Function) → Expansion Double Function
    expand_named_expression zero s used out = unfinished
    expand_named_expression (suc n) s used out = elim (named s) [
      | none ↦ name_not_found
      | some e ↦
          follow
            (expand_tokens (expand_named_expression n) e.tokens used
              (out ++ operator fop_open ∷ []))
            (λ out' used'. expanded (out' ++ operator fop_close ∷ []) used')
    ]

    -- The loop of `init_tokens`, which adds a name to the set without a look at it.
    unfoldable pub init_loop :
        ℕ
        → List (FormulaToken Double Function)
        → List Bytes
        → List (FormulaToken Double Function)
        → Expansion Double Function
    init_loop n [] used out = expanded out used
    init_loop n (t ∷ ts) used out = elim (name_of t) [
      | none ↦ init_loop n ts used (out ++ t ∷ [])
      | some s ↦
          follow (expand_named_expression n s (insert s used) out)
            (λ out' used'. init_loop n ts used' out')
    ]

  -- `init_tokens` of a cell on a sheet.
  unfoldable pub init_tokens :
      ℕ
      → Context (NamedExpression Double Function)
      → ℤ
      → List (FormulaToken Double Function)
      → Expansion Double Function
  init_tokens n c sheet ts = init_loop (get_named_expression c sheet) n ts [] []
