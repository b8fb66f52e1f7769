-- ===== src/Tests/Sheets.antt =====
-- Instances of the theorems on the sheets and the named expressions of a model.
use ixion.Prelude.{ℕ, ◌≤◌, true, false, [], ◌∷◌, ◌≡◌, ◌≢◌, ◌↔◌, ◌⊎◌, refl, elem, some}
use ixion.Prelude.Int.{ℤ, pos}
use ixion.FormulaLexer.Token.{Bytes}
use ixion.StringPool.Defs.{bytes_eq}
use ixion.ModelContext.Defs.{
  ok, err, sheet_name_conflict, invalid_argument, invalid_named_expression, out_of_range,
  NamedExpressions, Context, append_sheet, set_sheet_name, get_sheet_name, get_sheet_index,
  is_expression_name, set_sheet_named_expression, get_named_expression, find_expression,
  fetch_sheet,
}
use ixion.ModelContext.Sheets.{IsContext, append_sheet_lem, set_sheet_name_lem, get_sheet_index_iff}
use ixion.ModelContext.Names.{defined, set_sheet_named_expression_lem}

abbrev first_name : Bytes
first_name = b'A' ∷ []

abbrev second_name : Bytes
second_name = b'B' ∷ []

-- Two sheets; the name `A` has an expression on the first.
abbrev model : Context ℕ
model = record {
  sheet_rows = 10;
  sheet_columns = 10;
  sheet_names = first_name ∷ second_name ∷ [];
  sheets = ((first_name, 5) ∷ []) ∷ [] ∷ [];
  named_expressions = [];
}

model-IsContext : IsContext model
model-IsContext = record { distinct_names = refl; one_name_each = refl }

append_sheet_lem_example :
    (elem (b'C' ∷ []) model.sheet_names ≡ true)
      × (append_sheet model (b'C' ∷ []) ≡ err sheet_name_conflict)
    ⊎ ((d : Context ℕ) × (append_sheet model (b'C' ∷ []) ≡ ok (2, d))
        × IsContext d
        × (get_sheet_name d (pos 2) ≡ ok (b'C' ∷ []))
        × ((i : ℕ) (t : Bytes)
            → get_sheet_name model (pos i) ≡ ok t
            → get_sheet_name d (pos i) ≡ ok t))
append_sheet_lem_example = append_sheet_lem model model-IsContext (b'C' ∷ [])

set_sheet_name_lem_example :
    (2 ≤ 1) × (set_sheet_name model (pos 1) (b'C' ∷ []) ≡ err invalid_argument)
    ⊎ ((i : ℕ) × (i ≢ 1)
        × (get_sheet_name model (pos i) ≡ ok (b'C' ∷ []))
        × (set_sheet_name model (pos 1) (b'C' ∷ []) ≡ err sheet_name_conflict))
    ⊎ ((d : Context ℕ) × (set_sheet_name model (pos 1) (b'C' ∷ []) ≡ ok d)
        × IsContext d
        × (get_sheet_name d (pos 1) ≡ ok (b'C' ∷ []))
        × ((i : ℕ) → i ≢ 1 → get_sheet_name d (pos i) ≡ get_sheet_name model (pos i)))
set_sheet_name_lem_example = set_sheet_name_lem model model-IsContext 1 (b'C' ∷ [])

get_sheet_index_iff_example :
    (get_sheet_index model second_name ≡ pos 1) ↔ (get_sheet_name model (pos 1) ≡ ok second_name)
get_sheet_index_iff_example = get_sheet_index_iff model model-IsContext 1 b'B' []

set_sheet_named_expression_lem_example :
    (is_expression_name second_name ≡ false)
      × (set_sheet_named_expression model (pos 0) second_name 7 ≡ err invalid_named_expression)
    ⊎ (2 ≤ 0) × (set_sheet_named_expression model (pos 0) second_name 7 ≡ err out_of_range)
    ⊎ ((d : Context ℕ) × (m : NamedExpressions ℕ) × (fetch_sheet model (pos 0) ≡ some m)
        × (set_sheet_named_expression model (pos 0) second_name 7 ≡ ok d)
        × (get_named_expression d (pos 0) second_name ≡ defined 7 (find_expression second_name m))
        × ((sheet : ℤ) (t : Bytes)
            → second_name ≢ t
            → get_named_expression d sheet t ≡ get_named_expression model sheet t)
        × ((sheet : ℤ) (t : Bytes)
            → sheet ≢ pos 0
            → get_named_expression d sheet t ≡ get_named_expression model sheet t))
set_sheet_named_expression_lem_example = set_sheet_named_expression_lem model second_name 7 0
