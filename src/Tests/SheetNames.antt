-- ===== src/Tests/SheetNames.antt =====
-- Instances of the theorems on the names of sheets in front of addresses.
use ixion.Prelude.{ℕ, true, false, [], ◌∷◌, ◌≡◌, inl, refl, arith, some}
use ixion.Prelude.Int.{pos}
use ixion.FormulaLexer.Token.{Bytes}
use ixion.ModelContext.Defs.{Context, ok, get_sheet_name, get_sheet_index}
use ixion.ModelContext.Sheets.{IsContext}
use ixion.FormulaNameResolver.SheetName.Defs.{has_quoted, append_sheet_name, parse_sheet_name}
use ixion.FormulaNameResolver.SheetName.RoundTrip.{
  has_byte, begins_with_dollar, parse_sheet_name-append_sheet_name, parse_sheet_name-separator,
}

abbrev short_name : Bytes
short_name = b'A' ∷ []

abbrev blank_name : Bytes
blank_name = b'A' ∷ b' ' ∷ []

abbrev dotted_name : Bytes
dotted_name = b'A' ∷ b'.' ∷ b'B' ∷ []

abbrev model : Context ℕ
model = record {
  sheet_rows = 10;
  sheet_columns = 10;
  sheet_names = short_name ∷ blank_name ∷ dotted_name ∷ [];
  sheets = [] ∷ [] ∷ [] ∷ [];
  named_expressions = [];
}

model-IsContext : IsContext model
model-IsContext = record { distinct_names = refl; one_name_each = refl }

blank_name-at : get_sheet_name model (pos 1) ≡ ok blank_name
unfolding get_sheet_name
blank_name-at = refl

dotted_name-at : get_sheet_name model (pos 2) ≡ ok dotted_name
unfolding get_sheet_name
dotted_name-at = refl

dotted_name-plain : has_quoted dotted_name ≡ false
unfolding has_quoted
dotted_name-plain = refl

blank_name-quotes : has_quoted blank_name ≡ true
unfolding has_quoted
blank_name-quotes = refl

short_name-dot : has_byte b'.' short_name ≡ false
unfolding has_byte
short_name-dot = refl

short_name-dollar : begins_with_dollar short_name ≡ false
unfolding begins_with_dollar
short_name-dollar = refl

parse_sheet_name-append_sheet_name_example :
    (text : Bytes) × (append_sheet_name model (pos 1) (b'.' ∷ b'C' ∷ []) ≡ ok text)
    × (parse_sheet_name model b'.' text ≡ some (pos 1, b'.' ∷ b'C' ∷ []))
parse_sheet_name-append_sheet_name_example =
    parse_sheet_name-append_sheet_name model model-IsContext 1 b'.' b'A' (b' ' ∷ []) (b'C' ∷ [])
      (omega arith) (omega arith) blank_name-at (inl blank_name-quotes)

-- The sheet that is read is the first one.
parse_sheet_name-separator_example :
    (text : Bytes) × (append_sheet_name model (pos 2) (b'.' ∷ b'C' ∷ []) ≡ ok text)
    × (parse_sheet_name model b'.' text
        ≡ some (get_sheet_index model short_name, b'.' ∷ b'B' ∷ b'.' ∷ b'C' ∷ []))
parse_sheet_name-separator_example =
    parse_sheet_name-separator model model-IsContext 2 b'.' b'A' [] (b'B' ∷ []) (b'C' ∷ [])
      (omega arith) (omega arith) dotted_name-at dotted_name-plain short_name-dot short_name-dollar
