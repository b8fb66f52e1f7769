-- ===== src/FormulaNameResolver/SheetName/Defs.antt =====
-- `append_sheet_name`, `parse_sheet_name` and `parse_sheet_name_quoted`.
use ixion.Prelude.{
  ℕ, Bool, true, false, ◌||◌, [], ◌∷◌, ◌++◌, Option, none, some, ◌==◌, if◌then◌else◌,
}
use ixion.Prelude.Int.{ℤ}
use ixion.Address.Defs.{is_valid_sheet}
use ixion.FormulaLexer.Token.{Bytes}
use ixion.ModelContext.Defs.{Context, Result, ok, err, get_sheet_index, get_sheet_name}

-- The flag of the loop of `append_sheet_name`: the name has a blank, a double quote or a single one.
unfoldable pub has_quoted : Bytes → Bool
has_quoted [] = false
has_quoted (c ∷ s) = (c == b' ' || (c == 34 || c == 39)) || has_quoted s

-- The name in front of more text, where each single quote stands twice. A name without a single quote goes
-- out as it is.
unfoldable pub doubled : Bytes → Bytes → Bytes
doubled [] rest = rest
doubled (c ∷ s) rest = let more = doubled s rest in if c == 39 then 39 ∷ 39 ∷ more else c ∷ more

unfoldable pub quoted : Bytes → Bytes → Bytes
quoted s rest = if has_quoted s then 39 ∷ doubled s (39 ∷ rest) else doubled s rest

module _ {ℓ} {Expr : Type ℓ} (c : Context Expr) where
  -- `append_sheet_name`, in front of more text. It writes nothing for an invalid index, and throws for one that
  -- no sheet has.
  unfoldable pub append_sheet_name : ℤ → Bytes → Result Bytes
  append_sheet_name sheet rest =
      if is_valid_sheet sheet
      then elim (get_sheet_name c sheet) [ err e ↦ err e | ok s ↦ ok (quoted s rest) ]
      else ok rest

  -- The loop of `parse_sheet_name_quoted`; the flag tells whether a quote comes just before. The result is the
  -- index of the sheet with the text from the separator on.
  unfoldable pub parse_sheet_name_quoted : ℕ → Bool → Bytes → Bytes → Option (ℤ × Bytes)
  parse_sheet_name_quoted sep quote name [] = none
  parse_sheet_name_quoted sep false name (x ∷ s) = elim (x == 39) [
    | true ↦ parse_sheet_name_quoted sep true name s
    | false ↦ parse_sheet_name_quoted sep false (name ++ x ∷ []) s
  ]
  parse_sheet_name_quoted sep true name (x ∷ s) = elim (x == 39) [
    | true ↦ parse_sheet_name_quoted sep false (name ++ 39 ∷ []) s
    | false ↦ if x == sep then some (get_sheet_index c name, x ∷ s) else none
  ]

  -- The loop of `parse_sheet_name`.
  unfoldable pub parse_sheet_name_plain : ℕ → Bytes → Bytes → Option (ℤ × Bytes)
  parse_sheet_name_plain sep name [] = none
  parse_sheet_name_plain sep name (x ∷ s) = elim (x == sep) [
    | true ↦ some (get_sheet_index c name, x ∷ s)
    | false ↦ parse_sheet_name_plain sep (name ++ x ∷ []) s
  ]

  -- `parse_sheet_name` behind a dollar sign.
  unfoldable pub parse_sheet_name_from : ℕ → Bytes → Option (ℤ × Bytes)
  parse_sheet_name_from sep [] = none
  parse_sheet_name_from sep (x ∷ s) =
      if x == 39
      then parse_sheet_name_quoted sep false [] s
      else parse_sheet_name_plain sep [] (x ∷ s)

  -- `parse_sheet_name`. Where it fails, the caller goes on at the first character.
  unfoldable pub parse_sheet_name : ℕ → Bytes → Option (ℤ × Bytes)
  parse_sheet_name sep [] = none
  parse_sheet_name sep (x ∷ s) =
      if x == b'$' then parse_sheet_name_from sep s else parse_sheet_name_from sep (x ∷ s)
