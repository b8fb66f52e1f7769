-- ===== src/FormulaInterpreter/Names/Formula.antt =====
-- The tokens that a formula is interpreted by, on a sheet of a model.
use ixion.Prelude.{
  ℕ, ◌+◌, ◌≤◌, true, List, [], ◌∷◌, ◌++◌, map, Option, none, some, ◌≡◌, ◌≢◌, inl, inr, refl, arith,
  elem, elem-append, length, Option-cases,
}
use ixion.Prelude.Int.{ℤ}
use ixion.Prelude.Missing.{missing-length}
use ixion.FormulaLexer.Token.{Bytes}
use ixion.FormulaParser.Token.{FormulaToken, named_expression_token}
use ixion.StringPool.Defs.{bytes_eq, eq_bytes_iff}
use ixion.ModelContext.Defs.{
  Context, NamedExpressions, find_expression, find_in_scopes, fetch_sheet, get_named_expression,
}
use ixion.FormulaInterpreter.Tokens.{
  NamedExpression, Expansion, expanded, circular, name_not_found, unfinished, init_tokens,
}
use ixion.FormulaInterpreter.Names.Defs.{
  Expands, expands_end, expands_token, expands_name, Names, names_here, names_later, names_inside,
  Outcome,
}
use ixion.FormulaInterpreter.Names.Outcome.{init_loop_lem}
use ixion.FormulaInterpreter.Names.Repeated.{IsError, init_loop-IsError}

module _ {ℓ} {Double Function : Type ℓ} where
  -- The names that an expression has, on a sheet and for all sheets.
  abbrev pub local_names : Option (NamedExpressions (NamedExpression Double Function)) → List Bytes
  local_names none = []
  local_names (some m) = map (λ p. p.0) m

  unfoldable pub all_names : Context (NamedExpression Double Function) → ℤ → List Bytes
  all_names c sheet = local_names (fetch_sheet c sheet) ++ map (λ p. p.0) c.named_expressions

  find_expression-elem :
      (s : Bytes) (m : NamedExpressions (NamedExpression Double Function))
      (e : NamedExpression Double Function)
      → find_expression s m ≡ some e
      → elem s (map (λ p. p.0) m) ≡ true
  unfolding find_expression
  find_expression-elem s [] e h = absurd (cc)
  find_expression-elem s ((t, d) ∷ m) e h =
      ground (arith, find_expression-elem s m e, eq_bytes_iff t s, eq_bytes_iff s t)

  find_in_scopes-elem :
      (o : Option (NamedExpressions (NamedExpression Double Function)))
      (m : NamedExpressions (NamedExpression Double Function)) (s : Bytes)
      (e : NamedExpression Double Function)
      → find_in_scopes o m s ≡ some e
      → elem s (local_names o ++ map (λ p. p.0) m) ≡ true
  unfolding find_in_scopes
  find_in_scopes-elem none m s e h = find_expression-elem s m e h
  find_in_scopes-elem (some own) m s e h =
      rw (elem-append s (map (λ p. p.0) own) (map (λ p. p.0) m))
        (elim (Option-cases (find_expression s own)) [
          | inl new ↦ ground (arith, find_expression-elem s m e (rw (new, find_in_scopes) at h))
          | inr (d, old) ↦ ground (arith, find_expression-elem s own d old)
        ])

  get_named_expression-elem :
      (c : Context (NamedExpression Double Function)) (sheet : ℤ) (s : Bytes)
      (e : NamedExpression Double Function)
      → get_named_expression c sheet s ≡ some e
      → elem s (all_names c sheet) ≡ true
  unfolding get_named_expression all_names
  get_named_expression-elem c sheet s e h =
      find_in_scopes-elem (fetch_sheet c sheet) c.named_expressions s e h

  module _ (c : Context (NamedExpression Double Function)) (sheet : ℤ) (n : ℕ)
      (enough : length (all_names c sheet) + 2 ≤ n) where
    -- With fuel for each name that the sheet sees, and for two more, the expansion ends: with the tokens of the
    -- formula in which each name has been replaced by the expanded tokens of its expression in parentheses, or
    -- with the error for a name that the formula or an expression it uses has and that has no expression, or
    -- with a circular reference, and then the replacement meets a name twice: inside the name's own
    -- expression, or in two places.
    pub init_tokens_lem :
        (ts : List (FormulaToken Double Function))
        → Outcome (get_named_expression c sheet) ts [] [] (init_tokens n c sheet ts)
    unfolding init_tokens
    init_tokens_lem ts =
        init_loop_lem (get_named_expression c sheet) (all_names c sheet)
          (get_named_expression-elem c sheet) n ts [] []
          (omega (arith, missing-length (all_names c sheet) []))

  -- Where the expansion of the tokens exists, each of their names has an expression.
  Expands-Names :
      (named : Bytes → Option (NamedExpression Double Function))
      {ts out : List (FormulaToken Double Function)} {s : Bytes}
      → Expands named ts out
      → Names named ts s
      → named s ≢ none
  Expands-Names named expands_end q h = elim q [ ]
  Expands-Names named (expands_token t plain p) (names_here s _) h = cc
  Expands-Names named (expands_token t plain p) (names_later _ q) h = Expands-Names named p q h
  Expands-Names named (expands_token t plain p) (names_inside s e _ at q) h = cc
  Expands-Names named (expands_name s e at p q) (names_here _ _) h = cc
  Expands-Names named (expands_name s e at p q) (names_later _ r) h = Expands-Names named q r h
  Expands-Names named (expands_name s e at p q) (names_inside _ d _ at' r) h =
      let same : d ≡ e = cc in Expands-Names named p (rw same at r) h

  -- A formula names an expression that names another one twice. Its names all have expressions, and none
  -- refers to itself, so there are tokens without names that stand for the formula. All the same, the expansion
  -- ends with a circular reference.
  pub init_tokens-circular :
      (c : Context (NamedExpression Double Function)) (sheet : ℤ) (n : ℕ) (x y : Bytes)
      (e : NamedExpression Double Function) (a b d p q out : List (FormulaToken Double Function))
      → length (all_names c sheet) + 2 ≤ n
      → get_named_expression c sheet x ≡ some e
      → e.tokens ≡ a ++ named_expression_token y ∷ (b ++ named_expression_token y ∷ d)
      → Expands (get_named_expression c sheet) (p ++ named_expression_token x ∷ q) out
      → init_tokens n c sheet (p ++ named_expression_token x ∷ q) ≡ circular
  unfolding init_tokens
  init_tokens-circular c sheet n x y e a b d p q out enough at twice whole =
      blame (init_tokens n c sheet (p ++ named_expression_token x ∷ q))
        (init_tokens_lem c sheet n enough (p ++ named_expression_token x ∷ q))
        (init_loop-IsError (get_named_expression c sheet) x y e at a b d twice n p q [] [])
    where
      blame :
          (r : Expansion Double Function)
          → Outcome (get_named_expression c sheet) (p ++ named_expression_token x ∷ q) [] [] r
          → IsError r
          → r ≡ circular
      blame (expanded o u) h bad = absurd bad
      blame circular h bad = refl
      blame name_not_found (s, m, h) bad =
          absurd (Expands-Names (get_named_expression c sheet) whole m h)
      blame unfinished h bad = absurd h.0
