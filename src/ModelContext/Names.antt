-- ===== src/ModelContext/Names.antt =====
-- Named expressions: a name keeps its first definition, and the scope of a sheet hides the global one.
use ixion.Prelude.{
  ℕ, ◌≤◌, false, Option, none, some, ◌≡◌, ◌≢◌, ◌⊎◌, inl, inr, refl, sym, ap, arith, length,
  get_elem?, set, get_elem?-set_self, get_elem?-set_ne, get_elem?-eq-none, get_elem?-bound,
  Bool-cases, Option-cases, ℕ_discrete,
}
use ixion.Prelude.Int.{ℤ, pos, negsuc}
use ixion.FormulaLexer.Token.{Bytes}
use ixion.StringPool.Defs.{eq_bytes_iff}
use ixion.ModelContext.Defs.{
  invalid_named_expression, out_of_range, ok, err, NamedExpressions, Context, is_expression_name,
  find_expression, insert_expression, set_sheet_named_expression, find_in_scopes, fetch_sheet,
  get_named_expression,
}

module _ {ℓ} {Expr : Type ℓ} where
  -- What a name means once it has been defined as `e` in a scope where it may have a meaning.
  unfoldable pub defined : Expr → Option Expr → Option Expr
  defined e none = some e
  defined e (some old) = some old

  find_expression-insert_self :
      (s : Bytes) (e : Expr) (m : NamedExpressions Expr)
      → find_expression s (insert_expression s e m) ≡ defined e (find_expression s m)
  unfolding find_expression insert_expression defined
  find_expression-insert_self s e m = elim (Option-cases (find_expression s m)) [
    | inl new ↦ ground (arith, eq_bytes_iff s s)
    | inr (old, found) ↦ ground arith
  ]

  find_expression-insert_ne :
      (s t : Bytes) (e : Expr) (m : NamedExpressions Expr)
      → s ≢ t
      → find_expression t (insert_expression s e m) ≡ find_expression t m
  unfolding find_expression insert_expression
  find_expression-insert_ne s t e m ne = elim (Option-cases (find_expression s m)) [
    | inl new ↦ ground (arith, eq_bytes_iff s t)
    | inr (old, found) ↦ ground arith
  ]

fetch_sheet-set {ℓ} :
    {Expr : Type ℓ} (c : Context Expr) (n : ℕ) (m : NamedExpressions Expr) (sheet : ℤ)
    → sheet ≢ pos n
    → fetch_sheet (record c { sheets = set c.sheets n m }) sheet ≡ fetch_sheet c sheet
unfolding fetch_sheet
fetch_sheet-set c n m (pos k) ne =
    get_elem?-set_ne c.sheets {i = n} {j = k} m (λ e. ne (ap pos (sym e)))
fetch_sheet-set c n m (negsuc k) ne = refl

module _ {ℓ} {Expr : Type ℓ} (c : Context Expr) (n : ℕ) (m : NamedExpressions Expr) (s : Bytes)
    (e : Expr) where
  own_name :
      get_elem? c.sheets n ≡ some m
      → find_in_scopes
          (get_elem? (set c.sheets n (insert_expression s e m)) n)
          c.named_expressions
          s
        ≡ defined e (find_expression s m)
  unfolding find_in_scopes defined
  own_name inside =
      rw
        (get_elem?-set_self c.sheets n (insert_expression s e m)
          (get_elem?-bound c.sheets n {a = m} inside))
        (elim (Option-cases (find_expression s m)) [
          | inl new ↦ ground (arith, find_expression-insert_self s e m)
          | inr (old, found) ↦ ground (arith, find_expression-insert_self s e m)
        ])

  other_name :
      (sheet : ℤ) (t : Bytes)
      → get_elem? c.sheets n ≡ some m
      → s ≢ t
      → get_named_expression
          (record c { sheets = set c.sheets n (insert_expression s e m) })
          sheet
          t
        ≡ get_named_expression c sheet t
  unfolding get_named_expression fetch_sheet find_in_scopes
  other_name (negsuc k) t inside ne = refl
  other_name (pos k) t inside ne = elim (ℕ_discrete n k) [
    | no other ↦ rw (get_elem?-set_ne c.sheets {i = n} {j = k} (insert_expression s e m) other) refl
    | yes same ↦
        rw
          (
            ← same,
            get_elem?-set_self c.sheets n (insert_expression s e m)
                (get_elem?-bound c.sheets n {a = m} inside),
            inside,
          )
          (ground (arith, find_expression-insert_ne s t e m ne))
  ]

module _ {ℓ} {Expr : Type ℓ} (c : Context Expr) (s : Bytes) (e : Expr) where
  -- A name of a sheet is defined unless it is spelled wrong or the sheet is not there. On that sheet it then has
  -- the meaning that it had in the scope of the sheet, or else this one, also where it has a global meaning.
  -- Other names, and other sheets, keep their meaning.
  pub set_sheet_named_expression_lem :
      (n : ℕ)
      → (is_expression_name s ≡ false)
          × (set_sheet_named_expression c (pos n) s e ≡ err invalid_named_expression)
        ⊎ (length c.sheets ≤ n) × (set_sheet_named_expression c (pos n) s e ≡ err out_of_range)
        ⊎ ((d : Context Expr) × (m : NamedExpressions Expr) × (fetch_sheet c (pos n) ≡ some m)
            × (set_sheet_named_expression c (pos n) s e ≡ ok d)
            × (get_named_expression d (pos n) s ≡ defined e (find_expression s m))
            × ((sheet : ℤ) (t : Bytes)
                → s ≢ t
                → get_named_expression d sheet t ≡ get_named_expression c sheet t)
            × ((sheet : ℤ) (t : Bytes)
                → sheet ≢ pos n
                → get_named_expression d sheet t ≡ get_named_expression c sheet t))
  unfolding set_sheet_named_expression get_named_expression fetch_sheet
  set_sheet_named_expression_lem n = elim (Bool-cases (is_expression_name s)) [
    | inr wrong ↦ inl (wrong, rw wrong refl)
    | inl right ↦ elim (Option-cases (get_elem? c.sheets n)) [
      | inl outside ↦ inr (inl (get_elem?-eq-none c.sheets n outside, rw (right, outside) refl))
      | inr (m, inside) ↦
          let d : Context Expr = record c { sheets = set c.sheets n (insert_expression s e m) } in
          inr (
            inr (
              d,
              m,
              inside,
              rw (right, inside) refl,
              own_name c n m s e inside,
              λ sheet t ne. other_name c n m s e sheet t inside ne,
              λ sheet t ne. rw (fetch_sheet-set c n (insert_expression s e m) sheet ne) refl,
            ))
    ]
  ]
