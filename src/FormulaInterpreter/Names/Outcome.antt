-- ===== src/FormulaInterpreter/Names/Outcome.antt =====
-- The expansion of named expressions ends, and as its outcome says.
use ixion.Prelude.{
  ℕ, zero, suc, ◌+◌, ◌<◌, true, false, List, [], ◌∷◌, ◌++◌, append_assoc, append-nil, Option, none,
  some, ◌≡◌, ◌⊎◌, inl, inr, refl, sym, ◌∙◌, arith, elem, beq_refl, Bool-cases, Option-cases,
}
use ixion.Prelude.Missing.{missing, missing_mono, missing_strict}
use ixion.FormulaLexer.Token.{Bytes}
use ixion.FormulaParser.Token.{
  FormulaToken, operator, single_ref, range_ref, table_ref, function_token, error_token,
  value_token, string_token, named_expression_token, fop_open, fop_close,
}
use ixion.StringPool.Defs.{bytes_eq}
use ixion.UnorderedSet.{insert, elem-insert}
use ixion.FormulaInterpreter.Tokens.{
  NamedExpression, Expansion, expanded, circular, name_not_found, unfinished, name_of, follow,
  expand_tokens, expand_named_expression, init_loop,
}
use ixion.StringPool.Defs.{eq_bytes_iff}
use ixion.FormulaInterpreter.Names.Defs.{
  expands_end, expands_token, expands_name, names_here, names_later, names_inside, twice_nested,
  twice_inside, Outcome, Calls, Expands-append, Names-append_left, Circular-append_left,
  Circular-later,
}

module _ {ℓ} {Double Function : Type ℓ}
    (named : Bytes → Option (NamedExpression Double Function)) where
  -- One token, and then the others.
  Outcome-follow :
      (t : FormulaToken Double Function) (ts : List (FormulaToken Double Function))
      (used : List Bytes) (out : List (FormulaToken Double Function))
      (r : Expansion Double Function)
      (rest : List (FormulaToken Double Function) → List Bytes → Expansion Double Function)
      → Outcome named (t ∷ []) used out r
      → ((out' : List (FormulaToken Double Function)) (used' : List Bytes)
          → ((y : Bytes) → elem y used ≡ true → elem y used' ≡ true)
          → Outcome named ts used' out' (rest out' used'))
      → Outcome named (t ∷ ts) used out (follow r rest)
  unfolding follow
  Outcome-follow t ts used out (expanded out' used') rest (more, from, new, e, p) k =
      join (rest out' used') (k out' used' more)
    where
      join :
          (r : Expansion Double Function)
          → Outcome named ts used' out' r
          → Outcome named (t ∷ ts) used out r
      join (expanded o u) (more', from', new', e', q) = (
        λ y h. more' y (more y h),
        λ y h. elim (from' y h) [
          | inl m ↦ elim (from y m) [
            | inl old ↦ inl old
            | inr n ↦ inr (Names-append_left named n ts)
          ]
          | inr n ↦ inr (names_later t n)
        ],
        new ++ new',
        e' ∙ rw (e, append_assoc out new new') refl,
        Expands-append named p q,
      )
      join circular h = Circular-later named t ts used used' from h
      join name_not_found (s, n, h) = (s, names_later t n, h)
      join unfinished h = h
  Outcome-follow t ts used out circular rest h k = Circular-append_left named t ts used h
  Outcome-follow t ts used out name_not_found rest (s, n, h) k =
      (s, Names-append_left named n ts, h)
  Outcome-follow t ts used out unfinished rest h k = h

  -- The fuel that a call for a name needs: one for each name that has not been used yet, and two.
  abbrev pub IsEnough : List Bytes → List Bytes → Bytes → ℕ → Type 0
  IsEnough keys used s n = (0 < n) × (elem s keys ≡ true → missing keys used + 1 < n)

  name_of-eq :
      (t : FormulaToken Double Function) {s : Bytes}
      → name_of t ≡ some s
      → t ≡ named_expression_token s
  name_of-eq (operator op) h = absurd (cc)
  name_of-eq (single_ref a) h = absurd (cc)
  name_of-eq (range_ref r) h = absurd (cc)
  name_of-eq (table_ref t) h = absurd (cc)
  name_of-eq (function_token f) h = absurd (cc)
  name_of-eq (error_token e) h = absurd (cc)
  name_of-eq (value_token v) h = absurd (cc)
  name_of-eq (string_token i) h = absurd (cc)
  name_of-eq (named_expression_token t) h = cc

  Outcome-token :
      (t : FormulaToken Double Function) (used : List Bytes)
      (out : List (FormulaToken Double Function))
      → name_of t ≡ none
      → Outcome named (t ∷ []) used out (expanded (out ++ t ∷ []) used)
  Outcome-token t used out plain =
      (λ y h. h, λ y h. inl h, t ∷ [], refl, expands_token t plain expands_end)

  from_insert :
      (y s : Bytes) (used : List Bytes)
      → elem y (insert s used) ≡ true
      → (elem y used ≡ true) ⊎ (y ≡ s)
  from_insert y s used h = ground (arith, h, elem-insert y s used, eq_bytes_iff y s)

  -- The set that a call is made with has its name.
  Calls-insert :
      (s : Bytes) (used : List Bytes) (out : List (FormulaToken Double Function))
      (r : Expansion Double Function)
      → Calls named s (insert s used) out r
      → Outcome named (named_expression_token s ∷ []) used out r
  Calls-insert s used out (expanded out' used') (more, from, new, e, p) = (
    λ y h. more y (ground (arith, elem-insert y s used)),
    λ y h. elim (from y h) [
      | inl m ↦ elim (from_insert y s used m) [
        | inl old ↦ inl old
        | inr same ↦ inr (rw same (names_here s []))
      ]
      | inr n ↦ inr n
    ],
    new,
    e,
    p,
  )
  Calls-insert s used out circular (e, at, (y, inr d)) = (y, inr (twice_inside s e [] at d))
  Calls-insert s used out circular (e, at, (y, inl (m, n))) = (
    y,
    elim (from_insert y s used m) [
      | inl old ↦ inl (old, names_inside s e [] at n)
      | inr same ↦ inr (rw same (twice_nested s e [] at (rw same at n)))
    ],
  )
  Calls-insert s used out name_not_found h = h
  Calls-insert s used out unfinished h = h

  module _ (keys : List Bytes) where
    spent :
        (used used' : List Bytes) {n : ℕ}
        → ((y : Bytes) → elem y used ≡ true → elem y used' ≡ true)
        → missing keys used < n
        → missing keys used' < n
    spent used used' more h = omega (arith, missing_mono keys used used' more)

    IsEnough-insert :
        (used : List Bytes) (s : Bytes) (n : ℕ)
        → 0 < n
        → elem s used ≡ false
        → missing keys used < n
        → IsEnough keys (insert s used) s n
    IsEnough-insert used s n pn new enough = (
      pn,
      λ known. omega (
        arith,
        missing_strict keys used (insert s used) s (λ y h. ground (arith, elem-insert y s used))
            known new (ground (arith, elem-insert s s used, beq_refl s)),
      ),
    )

    -- The loop of an expression, where each of its calls does what it should.
    expand_tokens_lem :
        (call : Bytes
          → List Bytes
          → List (FormulaToken Double Function)
          → Expansion Double Function)
        (n : ℕ)
        → 0 < n
        → ((s : Bytes) (used : List Bytes) (out : List (FormulaToken Double Function))
            → IsEnough keys used s n
            → Calls named s used out (call s used out))
        → (ts : List (FormulaToken Double Function)) (used : List Bytes)
          (out : List (FormulaToken Double Function))
        → missing keys used < n
        → Outcome named ts used out (expand_tokens call ts used out)
    unfolding expand_tokens follow
    expand_tokens_lem call n pn good [] used out enough =
        (λ y h. h, λ y h. inl h, [], sym (append-nil out), expands_end)
    expand_tokens_lem call n pn good (t ∷ ts) used out enough = elim (Option-cases (name_of t)) [
      | inl plain ↦
          rw (plain, expand_tokens)
            (Outcome-follow t ts used out (expanded (out ++ t ∷ []) used)
              (λ out' used'. expand_tokens call ts used' out') (Outcome-token t used out plain)
              (λ out' used' more.
                expand_tokens_lem call n pn good ts used' out' (spent used used' more enough)))
      | inr (s, at) ↦ elim (Bool-cases (elem s used)) [
        | inl old ↦
            rw (at, old, expand_tokens) (s, inl (old, rw (name_of-eq t at) (names_here s ts)))
        | inr new ↦
            rw (at, new, expand_tokens)
              (Outcome-follow t ts used out (call s (insert s used) out)
                (λ out' used'. expand_tokens call ts used' out')
                (rw (name_of-eq t at) (
                  Calls-insert s used out (call s (insert s used) out)
                    (good s (insert s used) out (IsEnough-insert used s n pn new enough))))
                (λ out' used' more.
                  expand_tokens_lem call n pn good ts used' out' (spent used used' more enough)))
      ]
    ]

    Calls-parens :
        (s : Bytes) (e : NamedExpression Double Function) (used : List Bytes)
        (out : List (FormulaToken Double Function)) (r : Expansion Double Function)
        → named s ≡ some e
        → Outcome named e.tokens used (out ++ operator fop_open ∷ []) r
        → Calls named s used out
            (follow r (λ out' used'. expanded (out' ++ operator fop_close ∷ []) used'))
    unfolding follow
    Calls-parens s e used out (expanded out' used') at (more, from, new, same, p) = (
      more,
      λ y h. elim (from y h) [ inl old ↦ inl old | inr n ↦ inr (names_inside s e [] at n) ],
      operator fop_open ∷ (new ++ operator fop_close ∷ []),
      rw same (
          append_assoc (out ++ operator fop_open ∷ []) new (operator fop_close ∷ [])
          ∙ append_assoc out (operator fop_open ∷ []) (new ++ operator fop_close ∷ [])),
      expands_name s e at p expands_end,
    )
    Calls-parens s e used out circular at h = (e, at, h)
    Calls-parens s e used out name_not_found at (t, n, h) = (t, names_inside s e [] at n, h)
    Calls-parens s e used out unfinished at h = h

    module _
        (known : (s : Bytes) (e : NamedExpression Double Function)
          → named s ≡ some e
          → elem s keys ≡ true) where
      expand_named_expression_lem :
          (n : ℕ) (s : Bytes) (used : List Bytes) (out : List (FormulaToken Double Function))
          → IsEnough keys used s n
          → Calls named s used out (expand_named_expression named n s used out)
      unfolding expand_named_expression
      expand_named_expression_lem zero s used out (pn, enough) = absurd (omega arith)
      expand_named_expression_lem (suc n) s used out (pn, enough) = elim (Option-cases (named s)) [
        | inl undefined ↦ rw (undefined, expand_named_expression) (s, names_here s [], undefined)
        | inr (e, at) ↦
            let left : missing keys used + 1 < suc n = enough (known s e at) in
            rw (at, expand_named_expression)
              (Calls-parens s e used out _ at (
                expand_tokens_lem (expand_named_expression named n) n (omega arith)
                  (expand_named_expression_lem n) e.tokens used (out ++ operator fop_open ∷ [])
                  (omega arith)))
      ]

      pub init_loop_lem :
          (n : ℕ) (ts : List (FormulaToken Double Function)) (used : List Bytes)
          (out : List (FormulaToken Double Function))
          → missing keys used + 1 < n
          → Outcome named ts used out (init_loop named n ts used out)
      unfolding init_loop follow
      init_loop_lem n [] used out enough =
          (λ y h. h, λ y h. inl h, [], sym (append-nil out), expands_end)
      init_loop_lem n (t ∷ ts) used out enough = elim (Option-cases (name_of t)) [
        | inl plain ↦
            rw (plain, init_loop)
              (Outcome-follow t ts used out (expanded (out ++ t ∷ []) used)
                (λ out' used'. init_loop named n ts used' out') (Outcome-token t used out plain)
                (λ out' used' more.
                  init_loop_lem n ts used' out' (omega (arith, missing_mono keys used used' more))))
        | inr (s, at) ↦
            rw (at, init_loop)
              (Outcome-follow t ts used out (expand_named_expression named n s (insert s used) out)
                (λ out' used'. init_loop named n ts used' out')
                (rw (name_of-eq t at) (
                  Calls-insert s used out _ (
                    expand_named_expression_lem n s (insert s used) out (
                      omega arith,
                      λ h. omega (
                        arith,
                        missing_mono keys used (insert s used)
                            (λ y h. ground (arith, elem-insert y s used)),
                      ),
                    ))))
                (λ out' used' more.
                  init_loop_lem n ts used' out' (omega (arith, missing_mono keys used used' more))))
      ]
