-- ===== src/FormulaInterpreter/Names/Defs.antt =====
-- What the expansion of named expressions can end with: a formula without names, or an error that has its cause.
use ixion.Prelude.{
  true, List, [], ◌∷◌, ◌++◌, append_assoc, Option, none, some, ◌≡◌, ◌⊎◌, inl, inr, elem,
}
use ixion.FormulaLexer.Token.{Bytes}
use ixion.FormulaParser.Token.{FormulaToken, operator, named_expression_token, fop_open, fop_close}
use ixion.StringPool.Defs.{bytes_eq}
use ixion.FormulaInterpreter.Tokens.{
  NamedExpression, Expansion, expanded, circular, name_not_found, unfinished, name_of,
}

module _ {ℓ} {Double Function : Type ℓ}
    (named : Bytes → Option (NamedExpression Double Function)) where
  -- The tokens of a formula and those that stand for them, in which no token is a name.
  pub data Expands
      : List (FormulaToken Double Function) → List (FormulaToken Double Function) → Type ℓ where
    expands_end : Expands [] []
    expands_token :
        (t : FormulaToken Double Function) {ts out : List (FormulaToken Double Function)}
        → name_of t ≡ none
        → Expands ts out
        → Expands (t ∷ ts) (t ∷ out)
    expands_name :
        (s : Bytes) (e : NamedExpression Double Function)
        {ts inner out : List (FormulaToken Double Function)}
        → named s ≡ some e
        → Expands e.tokens inner
        → Expands ts out
        → Expands
            (named_expression_token s ∷ ts)
            (operator fop_open ∷ (inner ++ operator fop_close ∷ out))

  -- The names that the tokens have, those of the expressions that they name included.
  pub data Names : List (FormulaToken Double Function) → Bytes → Type ℓ where
    names_here :
        (s : Bytes) (ts : List (FormulaToken Double Function))
        → Names (named_expression_token s ∷ ts) s
    names_later :
        (t : FormulaToken Double Function) {ts : List (FormulaToken Double Function)} {s : Bytes}
        → Names ts s
        → Names (t ∷ ts) s
    names_inside :
        (s : Bytes) (e : NamedExpression Double Function) (ts : List (FormulaToken Double Function))
        {t : Bytes}
        → named s ≡ some e
        → Names e.tokens t
        → Names (named_expression_token s ∷ ts) t

  -- A name that is met twice, as the names are replaced: inside its own expression, or in two places.
  pub data Twice : List (FormulaToken Double Function) → Bytes → Type ℓ where
    twice_nested :
        (s : Bytes) (e : NamedExpression Double Function) (ts : List (FormulaToken Double Function))
        → named s ≡ some e
        → Names e.tokens s
        → Twice (named_expression_token s ∷ ts) s
    twice_apart :
        (t : FormulaToken Double Function) (ts : List (FormulaToken Double Function)) {s : Bytes}
        → Names (t ∷ []) s
        → Names ts s
        → Twice (t ∷ ts) s
    twice_inside :
        (s : Bytes) (e : NamedExpression Double Function) (ts : List (FormulaToken Double Function))
        {t : Bytes}
        → named s ≡ some e
        → Twice e.tokens t
        → Twice (named_expression_token s ∷ ts) t
    twice_later :
        (t : FormulaToken Double Function) {ts : List (FormulaToken Double Function)} {s : Bytes}
        → Twice ts s
        → Twice (t ∷ ts) s

  -- A name is in the set, or it is met twice.
  abbrev pub Circular : List (FormulaToken Double Function) → List Bytes → Type ℓ
  Circular ts used = (s : Bytes) × ((elem s used ≡ true) × Names ts s ⊎ Twice ts s)

  abbrev pub Outcome :
      List (FormulaToken Double Function)
      → List Bytes
      → List (FormulaToken Double Function)
      → Expansion Double Function
      → Type ℓ
  Outcome ts used out (expanded out' used') =
      ((y : Bytes) → elem y used ≡ true → elem y used' ≡ true)
      × ((y : Bytes) → elem y used' ≡ true → (elem y used ≡ true) ⊎ Names ts y)
      × (new : List (FormulaToken Double Function)) × (out' ≡ out ++ new)
      × Expands ts new
  Outcome ts used out circular = Circular ts used
  Outcome ts used out name_not_found = (s : Bytes) × Names ts s × (named s ≡ none)
  Outcome ts used out unfinished = ⊥ × Unit {ℓ}

  -- What a call for a name does. Where it is circular, so is the expression of the name.
  abbrev pub Calls :
      Bytes → List Bytes → List (FormulaToken Double Function) → Expansion Double Function → Type ℓ
  Calls s used out (expanded out' used') =
      Outcome (named_expression_token s ∷ []) used out (expanded out' used')
  Calls s used out circular =
      (e : NamedExpression Double Function) × (named s ≡ some e) × Circular e.tokens used
  Calls s used out name_not_found = Outcome (named_expression_token s ∷ []) used out name_not_found
  Calls s used out unfinished = Outcome (named_expression_token s ∷ []) used out unfinished

  pub Expands-append :
      {xs a ys b : List (FormulaToken Double Function)}
      → Expands xs a
      → Expands ys b
      → Expands (xs ++ ys) (a ++ b)
  Expands-append expands_end q = q
  Expands-append (expands_token t plain p) q = expands_token t plain (Expands-append p q)
  Expands-append {b} (expands_name s e {inner = inner} {out = out} at inside p) q =
      rw (append_assoc inner (operator fop_close ∷ out) b)
        (expands_name s e at inside (Expands-append p q))

  pub Names-append_left :
      {xs : List (FormulaToken Double Function)} {s : Bytes}
      → Names xs s
      → (ys : List (FormulaToken Double Function)) → Names (xs ++ ys) s
  Names-append_left (names_here s ts) ys = names_here s (ts ++ ys)
  Names-append_left (names_later t p) ys = names_later t (Names-append_left p ys)
  Names-append_left (names_inside s e ts at p) ys = names_inside s e (ts ++ ys) at p

  pub Circular-append_left :
      (t : FormulaToken Double Function) (ts : List (FormulaToken Double Function))
      (used : List Bytes)
      → Circular (t ∷ []) used
      → Circular (t ∷ ts) used
  Circular-append_left t ts used (s, inl (m, n)) = (s, inl (m, Names-append_left n ts))
  Circular-append_left t ts used (s, inr d) = (s, inr (extend t ts d))
    where
      extend :
          (t : FormulaToken Double Function) (ts : List (FormulaToken Double Function)) {s : Bytes}
          → Twice (t ∷ []) s
          → Twice (t ∷ ts) s
      extend t ts (twice_nested s e _ at n) = twice_nested s e ts at n
      extend t ts (twice_apart _ _ n m) = elim m [ ]
      extend t ts (twice_inside s e _ at d) = twice_inside s e ts at d
      extend t ts (twice_later _ d) = elim d [ ]

  -- A name that the first token brings into the set, or that is there before, and that is met again.
  pub Circular-later :
      (t : FormulaToken Double Function) (ts : List (FormulaToken Double Function))
      (used used' : List Bytes)
      → ((y : Bytes) → elem y used' ≡ true → (elem y used ≡ true) ⊎ Names (t ∷ []) y)
      → Circular ts used'
      → Circular (t ∷ ts) used
  Circular-later t ts used used' from (s, inr d) = (s, inr (twice_later t d))
  Circular-later t ts used used' from (s, inl (m, n)) = (
    s,
    elim (from s m) [
      | inl old ↦ inl (old, names_later t n)
      | inr first ↦ inr (twice_apart t ts first n)
    ],
  )
