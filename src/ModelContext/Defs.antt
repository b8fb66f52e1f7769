-- ===== src/ModelContext/Defs.antt =====
-- Sheets and named expressions of `model_context_impl`, over the type of the expressions. What a sheet
-- stores for its cells is an mdds container, and no part of the state here.
use ixion.Prelude.{
  ℕ, suc, Bool, true, false, ◌&&◌, ◌||◌, List, [], ◌∷◌, ◌++◌, Option, none, some, leb, ◌==◌, length,
  get_elem?, set, if◌then◌else◌,
}
use ixion.Prelude.Int.{ℤ, pos, negsuc}
use ixion.FormulaLexer.Token.{Bytes}
use ixion.StringPool.Defs.{eq_bytes}

-- What the operations throw: the kinds of `model_context_error`, and two exceptions of the library.
pub data ContextError : Type 0 where
  sheet_name_conflict sheet_size_locked invalid_named_expression : ContextError
  invalid_argument out_of_range : ContextError

pub data Result {ℓ} (A : Type ℓ) : Type ℓ where
  ok : A → Result A
  err : ContextError → Result A

abbrev pub invalid_sheet : ℤ
invalid_sheet = negsuc 1

-- `named_expressions_t`, a map from names.
abbrev pub NamedExpressions {ℓ} : Type ℓ → Type ℓ
NamedExpressions Expr = List (Bytes × Expr)

pub record Context {ℓ} (Expr : Type ℓ) : Type ℓ where
  pub sheet_rows : ℕ
  pub sheet_columns : ℕ
  pub sheet_names : List Bytes
  -- The named expressions of each sheet.
  pub sheets : List (NamedExpressions Expr)
  pub named_expressions : NamedExpressions Expr

-- `std::find` over the names: where the name stands first.
unfoldable pub find_name : Bytes → List Bytes → Option ℕ
find_name s [] = none
find_name s (t ∷ names) =
    if eq_bytes t s
    then some 0
    else elim (find_name s names) [ none ↦ none | some i ↦ some (suc i) ]

-- The loop of `get_sheet_index`, which passes over an empty name.
unfoldable pub index_from : ℕ → Bytes → List Bytes → ℤ
index_from i s [] = invalid_sheet
index_from i s ([] ∷ names) = index_from (suc i) s names
index_from i s ((c ∷ t) ∷ names) = if eq_bytes (c ∷ t) s then pos i else index_from (suc i) s names

abbrev pub is_letter : ℕ → Bool
is_letter c = leb b'a' c && leb c b'z' || leb b'A' c && leb c b'Z'

abbrev pub is_number : ℕ → Bool
is_number c = leb b'0' c && leb c b'9'

-- The loop of `check_named_exp_name_or_throw`.
unfoldable pub all_name_chars : Bytes → Bool
all_name_chars [] = true
all_name_chars (c ∷ s) =
    (is_letter c || (is_number c || (c == b'_' || c == b'.'))) && all_name_chars s

-- `check_named_exp_name_or_throw`
unfoldable pub is_expression_name : Bytes → Bool
is_expression_name [] = false
is_expression_name (c ∷ s) =
    if is_number c then false else if c == b'.' then false else all_name_chars (c ∷ s)

module _ {ℓ} {Expr : Type ℓ} where
  -- `std::map::find` and `std::map::insert`, which keeps the entry of a key that it has.
  unfoldable pub find_expression : Bytes → NamedExpressions Expr → Option Expr
  find_expression s [] = none
  find_expression s ((t, e) ∷ m) = if eq_bytes t s then some e else find_expression s m

  unfoldable pub insert_expression : Bytes → Expr → NamedExpressions Expr → NamedExpressions Expr
  insert_expression s e m = elim (find_expression s m) [ none ↦ (s, e) ∷ m | some old ↦ m ]

  -- `get_sheet_index`
  unfoldable pub get_sheet_index : Context Expr → Bytes → ℤ
  get_sheet_index c s = index_from 0 s c.sheet_names

  -- `get_sheet_name`
  unfoldable pub get_sheet_name : Context Expr → ℤ → Result Bytes
  get_sheet_name c (negsuc n) = err invalid_argument
  get_sheet_name c (pos n) = elim (get_elem? c.sheet_names n) [
    | none ↦ err invalid_argument
    | some s ↦ ok s
  ]

  -- `set_sheet_name`
  unfoldable pub set_sheet_name : Context Expr → ℤ → Bytes → Result (Context Expr)
  set_sheet_name c (negsuc n) s = err invalid_argument
  set_sheet_name c (pos n) s =
      if leb (length c.sheet_names) n
      then err invalid_argument
      else elim (find_name s c.sheet_names) [
        | none ↦ ok (record c { sheet_names = set c.sheet_names n s })
        | some i ↦ if i == n then ok c else err sheet_name_conflict
      ]

  -- `append_sheet`, which returns the index of the new sheet.
  unfoldable pub append_sheet : Context Expr → Bytes → Result (ℕ × Context Expr)
  append_sheet c s = elim (find_name s c.sheet_names) [
    | some i ↦ err sheet_name_conflict
    | none ↦ ok (
      length c.sheets,
      record c { sheet_names = c.sheet_names ++ s ∷ []; sheets = c.sheets ++ [] ∷ [] },
    )
  ]

  -- `set_sheet_size`
  unfoldable pub set_sheet_size : Context Expr → ℕ → ℕ → Result (Context Expr)
  set_sheet_size c rows columns =
      if length c.sheets == 0
      then ok (record c { sheet_rows = rows; sheet_columns = columns })
      else err sheet_size_locked

  -- `set_named_expression` of the global scope.
  unfoldable pub set_named_expression : Context Expr → Bytes → Expr → Result (Context Expr)
  set_named_expression c s e =
      if is_expression_name s
      then ok (record c { named_expressions = insert_expression s e c.named_expressions })
      else err invalid_named_expression

  -- `set_named_expression` of a sheet; `at` throws for a sheet that is not there.
  unfoldable pub set_sheet_named_expression :
      Context Expr → ℤ → Bytes → Expr → Result (Context Expr)
  set_sheet_named_expression c (pos n) s e =
      if is_expression_name s
      then elim (get_elem? c.sheets n) [
        | none ↦ err out_of_range
        | some m ↦ ok (record c { sheets = set c.sheets n (insert_expression s e m) })
      ]
      else err invalid_named_expression
  set_sheet_named_expression c (negsuc n) s e =
      if is_expression_name s then err out_of_range else err invalid_named_expression

  -- `fetch_sheet`
  unfoldable pub fetch_sheet : Context Expr → ℤ → Option (NamedExpressions Expr)
  fetch_sheet c (pos n) = get_elem? c.sheets n
  fetch_sheet c (negsuc n) = none

  -- A name in the scope of a sheet, if it is there, and then in the global one.
  unfoldable pub find_in_scopes :
      Option (NamedExpressions Expr) → NamedExpressions Expr → Bytes → Option Expr
  find_in_scopes none global s = find_expression s global
  find_in_scopes (some m) global s = elim (find_expression s m) [
    | some e ↦ some e
    | none ↦ find_expression s global
  ]

  -- `get_named_expression` of a sheet
  unfoldable pub get_named_expression : Context Expr → ℤ → Bytes → Option Expr
  get_named_expression c sheet s = find_in_scopes (fetch_sheet c sheet) c.named_expressions s
