-- ===== src/FormulaInterpreter/Names/Repeated.antt =====
-- An expression that names another one twice: the second time, the name is among those that were used.
use ixion.Prelude.{
  ℕ, zero, suc, true, List, [], ◌∷◌, ◌++◌, Option, some, ◌≡◌, inl, inr, arith, elem, beq_refl,
  Bool-cases, Option-cases,
}
use ixion.FormulaLexer.Token.{Bytes}
use ixion.FormulaParser.Token.{FormulaToken, operator, named_expression_token, fop_open}
use ixion.StringPool.Defs.{bytes_eq}
use ixion.UnorderedSet.{insert, elem-insert}
use ixion.FormulaInterpreter.Tokens.{
  NamedExpression, Expansion, expanded, circular, name_not_found, unfinished, name_of, follow,
  expand_tokens, expand_named_expression, init_loop,
}

insert_keeps :
    (s : Bytes) (used : List Bytes) (y : Bytes) → elem y used ≡ true → elem y (insert s used) ≡ true
insert_keeps s used y h = ground (arith, elem-insert y s used)

insert_has : (s : Bytes) (used : List Bytes) → elem s (insert s used) ≡ true
insert_has s used = ground (arith, elem-insert s s used, beq_refl s)

module _ {ℓ} {Double Function : Type ℓ} where
  abbrev pub IsError : Expansion Double Function → Type 0
  IsError (expanded out used) = ⊥
  IsError circular = Unit
  IsError name_not_found = Unit
  IsError unfinished = Unit

  -- No name leaves the set.
  abbrev pub Keeps : List Bytes → Expansion Double Function → Type 0
  Keeps used (expanded out used') = (y : Bytes) → elem y used ≡ true → elem y used' ≡ true
  Keeps used circular = Unit
  Keeps used name_not_found = Unit
  Keeps used unfinished = Unit

  Keeps-follow :
      (used used' : List Bytes) (r : Expansion Double Function)
      (rest : List (FormulaToken Double Function) → List Bytes → Expansion Double Function)
      → ((y : Bytes) → elem y used ≡ true → elem y used' ≡ true)
      → Keeps used' r
      → ((o : List (FormulaToken Double Function)) (u : List Bytes) → Keeps u (rest o u))
      → Keeps used (follow r rest)
  unfolding follow
  Keeps-follow used used' (expanded out u) rest more h k = trans_keeps (rest out u) (k out u)
    where
      trans_keeps : (r : Expansion Double Function) → Keeps u r → Keeps used r
      trans_keeps (expanded o v) q = λ y m. q y (h y (more y m))
      trans_keeps circular q = q
      trans_keeps name_not_found q = q
      trans_keeps unfinished q = q
  Keeps-follow used used' circular rest more h k = h
  Keeps-follow used used' name_not_found rest more h k = h
  Keeps-follow used used' unfinished rest more h k = h

  IsError-follow :
      (y : Bytes) (used : List Bytes) (r : Expansion Double Function)
      (rest : List (FormulaToken Double Function) → List Bytes → Expansion Double Function)
      → Keeps used r
      → elem y used ≡ true
      → ((o : List (FormulaToken Double Function)) (u : List Bytes)
          → elem y u ≡ true
          → IsError (rest o u))
      → IsError (follow r rest)
  unfolding follow
  IsError-follow y used (expanded out u) rest h m k = k out u (h y m)
  IsError-follow y used circular rest h m k = tt
  IsError-follow y used name_not_found rest h m k = tt
  IsError-follow y used unfinished rest h m k = tt

  IsError-follow_rest :
      (r : Expansion Double Function)
      (rest : List (FormulaToken Double Function) → List Bytes → Expansion Double Function)
      → ((o : List (FormulaToken Double Function)) (u : List Bytes) → IsError (rest o u))
      → IsError (follow r rest)
  unfolding follow
  IsError-follow_rest (expanded out u) rest k = k out u
  IsError-follow_rest circular rest k = tt
  IsError-follow_rest name_not_found rest k = tt
  IsError-follow_rest unfinished rest k = tt

  IsError-follow-IsError :
      (r : Expansion Double Function)
      (rest : List (FormulaToken Double Function) → List Bytes → Expansion Double Function)
      → IsError r
      → IsError (follow r rest)
  unfolding follow
  IsError-follow-IsError (expanded out u) rest h = absurd h
  IsError-follow-IsError circular rest h = tt
  IsError-follow-IsError name_not_found rest h = tt
  IsError-follow-IsError unfinished rest h = tt

  module _
      (call : Bytes → List Bytes → List (FormulaToken Double Function) → Expansion Double Function)
      (keeps : (s : Bytes) (used : List Bytes) (out : List (FormulaToken Double Function))
        → Keeps used (call s used out)) where
    expand_tokens-Keeps :
        (ts : List (FormulaToken Double Function)) (used : List Bytes)
        (out : List (FormulaToken Double Function))
        → Keeps used (expand_tokens call ts used out)
    unfolding expand_tokens
    expand_tokens-Keeps [] used out = λ y h. h
    expand_tokens-Keeps (t ∷ ts) used out = elim (Option-cases (name_of t)) [
      | inl plain ↦ rw (plain, expand_tokens) (expand_tokens-Keeps ts used (out ++ t ∷ []))
      | inr (s, at) ↦ elim (Bool-cases (elem s used)) [
        | inl old ↦ rw (at, old, expand_tokens) tt
        | inr new ↦
            rw (at, new, expand_tokens)
              (Keeps-follow used (insert s used) (call s (insert s used) out)
                (λ o u. expand_tokens call ts u o) (insert_keeps s used)
                (keeps s (insert s used) out) (λ o u. expand_tokens-Keeps ts u o))
      ]
    ]

    -- A name that was used, and then one that stands twice.
    used_name :
        (y : Bytes) (b d : List (FormulaToken Double Function)) (used : List Bytes)
        (out : List (FormulaToken Double Function))
        → elem y used ≡ true
        → IsError (expand_tokens call (b ++ named_expression_token y ∷ d) used out)
    unfolding expand_tokens
    used_name y [] d used out h = rw (h, expand_tokens) tt
    used_name y (t ∷ b) d used out h = elim (Option-cases (name_of t)) [
      | inl plain ↦ rw (plain, expand_tokens) (used_name y b d used (out ++ t ∷ []) h)
      | inr (s, at) ↦ elim (Bool-cases (elem s used)) [
        | inl old ↦ rw (at, old, expand_tokens) tt
        | inr new ↦
            rw (at, new, expand_tokens)
              (IsError-follow y (insert s used) (call s (insert s used) out)
                (λ o u. expand_tokens call (b ++ named_expression_token y ∷ d) u o)
                (keeps s (insert s used) out) (insert_keeps s used y h)
                (λ o u m. used_name y b d u o m))
      ]
    ]

    repeated_name :
        (y : Bytes) (a b d : List (FormulaToken Double Function)) (used : List Bytes)
        (out : List (FormulaToken Double Function))
        → IsError (
            expand_tokens call
              (a ++ named_expression_token y ∷ (b ++ named_expression_token y ∷ d))
              used
              out)
    unfolding expand_tokens
    repeated_name y [] b d used out = elim (Bool-cases (elem y used)) [
      | inl old ↦ rw (old, expand_tokens) tt
      | inr new ↦
          rw (new, expand_tokens)
            (IsError-follow y (insert y used) (call y (insert y used) out)
              (λ o u. expand_tokens call (b ++ named_expression_token y ∷ d) u o)
              (keeps y (insert y used) out) (insert_has y used) (λ o u m. used_name y b d u o m))
    ]
    repeated_name y (t ∷ a) b d used out = elim (Option-cases (name_of t)) [
      | inl plain ↦ rw (plain, expand_tokens) (repeated_name y a b d used (out ++ t ∷ []))
      | inr (s, at) ↦ elim (Bool-cases (elem s used)) [
        | inl old ↦ rw (at, old, expand_tokens) tt
        | inr new ↦
            rw (at, new, expand_tokens)
              (IsError-follow_rest (call s (insert s used) out) _
                (λ o u. repeated_name y a b d u o))
      ]
    ]

  module _ (named : Bytes → Option (NamedExpression Double Function)) where
    expand_named_expression-Keeps :
        (n : ℕ) (s : Bytes) (used : List Bytes) (out : List (FormulaToken Double Function))
        → Keeps used (expand_named_expression named n s used out)
    unfolding expand_named_expression
    expand_named_expression-Keeps zero s used out = tt
    expand_named_expression-Keeps (suc n) s used out = elim (Option-cases (named s)) [
      | inl undefined ↦ rw (undefined, expand_named_expression) tt
      | inr (e, at) ↦
          rw (at, expand_named_expression)
            (Keeps-follow used used _ _ (λ y h. h)
              (expand_tokens-Keeps (expand_named_expression named n)
                (expand_named_expression-Keeps n) e.tokens used (out ++ operator fop_open ∷ []))
              (λ o u y h. h))
    ]

    module _ (x y : Bytes) (e : NamedExpression Double Function) (at : named x ≡ some e)
        (a b d : List (FormulaToken Double Function))
        (twice : e.tokens
          ≡ a ++ named_expression_token y ∷ (b ++ named_expression_token y ∷ d)) where
      expand_named_expression-IsError :
          (n : ℕ) (used : List Bytes) (out : List (FormulaToken Double Function))
          → IsError (expand_named_expression named n x used out)
      unfolding expand_named_expression
      expand_named_expression-IsError zero used out = tt
      expand_named_expression-IsError (suc n) used out =
          rw (at, expand_named_expression)
            (IsError-follow-IsError _ _ (
              rw twice (
                repeated_name (expand_named_expression named n) (expand_named_expression-Keeps n) y
                  a b d used (out ++ operator fop_open ∷ []))))

      pub init_loop-IsError :
          (n : ℕ) (p q : List (FormulaToken Double Function)) (used : List Bytes)
          (out : List (FormulaToken Double Function))
          → IsError (init_loop named n (p ++ named_expression_token x ∷ q) used out)
      unfolding init_loop
      init_loop-IsError n [] q used out =
          IsError-follow-IsError _ _ (expand_named_expression-IsError n (insert x used) out)
      init_loop-IsError n (t ∷ p) q used out = elim (Option-cases (name_of t)) [
        | inl plain ↦ rw (plain, init_loop) (init_loop-IsError n p q used (out ++ t ∷ []))
        | inr (s, old) ↦
            rw (old, init_loop)
              (IsError-follow_rest (expand_named_expression named n s (insert s used) out) _
                (λ o u. init_loop-IsError n p q u o))
      ]
