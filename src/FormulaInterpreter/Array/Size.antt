-- ===== src/FormulaInterpreter/Array/Size.antt =====
-- The matrix that an inline array makes has a value for each of its places.
use ixion.Prelude.{
  ℕ, suc, ◌*◌, ◌≤◌, Bool, true, false, not, ◌&&◌, ◌==◌, List, [], ◌∷◌, ◌++◌, none, some, ◌≡◌, inl,
  inr, refl, arith, length, length-append, Bool-cases, Option-cases,
}
use ixion.FormulaLexer.Token.{Bytes}
use ixion.FormulaParser.Token.{
  fop_plus, fop_minus, fop_sep, fop_array_row_sep, fop_array_close, FormulaToken, operator,
  value_token, string_token,
}
use ixion.FormulaInterpreter.Operations.{Run, ran, threw, Operations}
use ixion.FormulaInterpreter.Array.Places.{
  Inside, CountedBy, CountedBy-next, CountedBy-row, AllFilled, AllFilled-next, AllFilled-append,
  AllFilled-row, Inside-close,
}
use ixion.FormulaInterpreter.Array.{
  Previous, at_value, at_string, is_before_value, is_at_open, ArrayState, ArrayRound, next, closed,
  bad, array_sign, array_value, array_string, array_sep, is_inconsistent, array_row_sep,
  array_close, array_token, array_loop, array,
}

module _ {ℓ} {Double : Type ℓ} where
  -- The rows before this one are full.
  abbrev pub Counted : ArrayState Double → Type 0
  Counted s = CountedBy s.prev_col s.row s.col (length s.values)

  abbrev pub Good : ArrayRound Double → Type 0
  Good (next s) = Counted s × AllFilled s.row s.col s.prev_col s.strings
  Good (closed s) = (length s.values ≡ s.row * s.col) × (1 ≤ s.row) × Inside s.row s.col s.strings
  Good (bad e) = Unit

  Good-next :
      (s : ArrayState Double) (op : Previous) (v : Double) (ts : List ((ℕ × ℕ) × Bytes))
      → Counted s
      → AllFilled s.row (suc s.col) s.prev_col ts
      → Good (
          next (record s {
            col = suc s.col;
            prev_op = op;
            signed = none;
            values = s.values ++ v ∷ [];
            strings = ts;
          }))
  Good-next s op v ts h k = (
    CountedBy-next s.prev_col s.row s.col (length s.values) (length (s.values ++ v ∷ []))
        (omega (arith, length-append s.values (v ∷ []))) h,
    k,
  )

module _ {ℓ} {Value Double Function : Type ℓ} (o : Operations Value Double Function) where
  is_inconsistent-eq :
      (s : ArrayState Double) (w : ℕ)
      → is_inconsistent o s ≡ false
      → s.prev_col ≡ some w
      → w ≡ s.col
  unfolding is_inconsistent
  is_inconsistent-eq s w h p =
      let k : not (w == s.col) ≡ false = rw (p, is_inconsistent) at h in ground arith

  array_sign-Good :
      (s : ArrayState Double) (minus : Bool)
      → Counted s
      → AllFilled s.row s.col s.prev_col s.strings
      → Good (array_sign o s minus)
  unfolding array_sign
  array_sign-Good s minus h k = elim (Option-cases s.signed) [
    | inr (b, old) ↦ rw (old, array_sign) tt
    | inl new ↦ elim (Bool-cases (is_before_value s.prev_op)) [
      | inl before ↦ rw (new, before, array_sign) (h, k)
      | inr other ↦ rw (new, other, array_sign) tt
    ]
  ]

  array_value-Good :
      (s : ArrayState Double) (v : Double)
      → Counted s
      → AllFilled s.row s.col s.prev_col s.strings
      → Good (array_value o s v)
  unfolding array_value
  array_value-Good s v h k = elim (Bool-cases (is_before_value s.prev_op)) [
    | inl before ↦
        rw (before, array_value)
          (Good-next s at_value _ s.strings h (AllFilled-next s.row s.col s.prev_col s.strings k))
    | inr other ↦ rw (other, array_value) tt
  ]

  array_string-Good :
      (s : ArrayState Double) (i : ℕ)
      → Counted s
      → AllFilled s.row s.col s.prev_col s.strings
      → Good (array_string o s i)
  unfolding array_string
  array_string-Good s i h k = elim (Bool-cases (is_before_value s.prev_op)) [
    | inl before ↦ elim (Option-cases (o.get_string i)) [
      | inl missing ↦ rw (before, missing, array_string) tt
      | inr (text, found) ↦
          rw (before, found, array_string)
            (Good-next s at_string o.zero_value (s.strings ++ ((s.row, s.col), text) ∷ []) h (
              AllFilled-append s.row (suc s.col) s.prev_col s.strings s.row s.col text
                (AllFilled-next s.row s.col s.prev_col s.strings k) (inl (refl, omega arith))))
    ]
    | inr other ↦ rw (other, array_string) tt
  ]

  array_sep-Good :
      (s : ArrayState Double)
      → Counted s
      → AllFilled s.row s.col s.prev_col s.strings
      → Good (array_sep o s)
  unfolding array_sep
  array_sep-Good s h k = elim (Bool-cases (is_before_value s.prev_op)) [
    | inl before ↦ rw (before, array_sep) tt
    | inr other ↦ rw (other, array_sep) (h, k)
  ]

  array_row_sep-Good :
      (s : ArrayState Double)
      → Counted s
      → AllFilled s.row s.col s.prev_col s.strings
      → Good (array_row_sep o s)
  unfolding array_row_sep
  array_row_sep-Good s h k = elim (Bool-cases (is_before_value s.prev_op)) [
    | inl before ↦ rw (before, array_row_sep) tt
    | inr other ↦ elim (Bool-cases (is_inconsistent o s)) [
      | inl wide ↦ rw (other, wide, array_row_sep) tt
      | inr same ↦
          let e = λ (w : ℕ) (p : s.prev_col ≡ some w). is_inconsistent-eq s w same p in
          rw (other, same, array_row_sep)
            (
              omega (arith, CountedBy-row s.prev_col s.row s.col (length s.values) e h),
              AllFilled-row s.row s.col s.prev_col s.strings e k,
            )
    ]
  ]

  array_close-Good :
      (s : ArrayState Double)
      → Counted s
      → AllFilled s.row s.col s.prev_col s.strings
      → Good (array_close o s)
  unfolding array_close
  array_close-Good s h k =
      elim (Bool-cases (is_before_value s.prev_op && not (is_at_open s.prev_op))) [
        | inl before ↦ rw (before, array_close) tt
        | inr other ↦ elim (Bool-cases (is_inconsistent o s)) [
          | inl wide ↦ rw (other, wide, array_close) tt
          | inr same ↦
              let e = λ (w : ℕ) (p : s.prev_col ≡ some w). is_inconsistent-eq s w same p in
              rw (other, same, array_close)
                (
                  CountedBy-row s.prev_col s.row s.col (length s.values) e h,
                  omega arith,
                  Inside-close s.row s.col s.prev_col s.strings e k,
                )
        ]
      ]

  array_token-Good :
      (s : ArrayState Double) (t : FormulaToken Double Function)
      → Counted s
      → AllFilled s.row s.col s.prev_col s.strings
      → Good (array_token o s t)
  unfolding array_token
  array_token-Good s (value_token v) h k = array_value-Good s v h k
  array_token-Good s (string_token i) h k = array_string-Good s i h k
  array_token-Good s (operator fop_plus) h k = array_sign-Good s false h k
  array_token-Good s (operator fop_minus) h k = array_sign-Good s true h k
  array_token-Good s (operator fop_sep) h k = array_sep-Good s h k
  array_token-Good s (operator fop_array_row_sep) h k = array_row_sep-Good s h k
  array_token-Good s (operator fop_array_close) h k = array_close-Good s h k
  array_token-Good s t h k = tt

  -- The matrix of a loop that returns has that size.
  IsMatrix : Run (Value × List (FormulaToken Double Function)) → Type ℓ
  IsMatrix r =
      (v : Value) (rest : List (FormulaToken Double Function))
      → r ≡ ran (v, rest)
      → (rows : ℕ) × (cols : ℕ) × (values : List Double) × (strings : List ((ℕ × ℕ) × Bytes)) × (v
          ≡ o.push_matrix rows cols values strings)
        × (length values ≡ rows * cols)
        × (1 ≤ rows)
        × Inside rows cols strings

  array_loop_lem :
      (s : ArrayState Double) (ts : List (FormulaToken Double Function))
      → Counted s
      → AllFilled s.row s.col s.prev_col s.strings
      → IsMatrix (array_loop o s ts)
  unfolding array_loop IsMatrix
  array_loop_lem s [] h k v rest e = absurd (cc)
  array_loop_lem s (t ∷ ts) h k v rest e =
      round (array_token o s t) (array_token-Good s t h k) (λ d g q. array_loop_lem d ts g q) e
    where
      round :
          (r : ArrayRound Double)
          → Good r
          → ((d : ArrayState Double)
              → Counted d
              → AllFilled d.row d.col d.prev_col d.strings
              → IsMatrix (array_loop o d ts))
          → elim r [
            | bad e ↦ threw e
            | closed d ↦ ran (o.push_matrix d.row d.col d.values d.strings, ts)
            | next d ↦ array_loop o d ts
          ]
            ≡ ran (v, rest)
          → (rows : ℕ) × (cols : ℕ) × (values : List Double) × (strings : List ((ℕ × ℕ) × Bytes))
            × (v ≡ o.push_matrix rows cols values strings)
            × (length values ≡ rows * cols)
            × (1 ≤ rows)
            × Inside rows cols strings
      round (bad x) g again e = absurd (cc)
      round (closed d) (g, p, q) again e = (d.row, d.col, d.values, d.strings, cc, g, p, q)
      round (next d) (g, q) again e = again d g q v rest e

  -- The matrix that an inline array makes has at least one row and as many values as places, and each of its
  -- texts belongs to one of the places.
  pub array_lem :
      (ts : List (FormulaToken Double Function)) (v : Value)
      (rest : List (FormulaToken Double Function))
      → array o ts ≡ ran (v, rest)
      → (rows : ℕ) × (cols : ℕ) × (values : List Double) × (strings : List ((ℕ × ℕ) × Bytes)) × (v
          ≡ o.push_matrix rows cols values strings)
        × (length values ≡ rows * cols)
        × (1 ≤ rows)
        × Inside rows cols strings
  unfolding array IsMatrix
  array_lem ts = array_loop_lem _ ts (refl, refl) tt
