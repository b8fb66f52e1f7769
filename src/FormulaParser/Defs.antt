-- ===== src/FormulaParser/Defs.antt =====
-- The class `formula_parser`. Its resolver, an interface, is a parameter; the string pool of its model
-- context is passed on from step to step. An iterator is the list of the tokens that are left.
use ixion.Prelude.{ℕ, zero, suc, List, [], ◌∷◌, Option, none, some}
use ixion.Address.Defs.{AbsAddress}
use ixion.FormulaLexer.Token.{
  Opcode, plus, minus, divide, multiply, exponent, concat, equal, less, greater, paren_open,
  paren_close, sep, array_open, array_close, array_row_sep, Bytes, LexerToken, op, name, string,
  value, error,
}
use ixion.StringPool.Defs.{StringPool, add_string}
use ixion.FormulaParser.Token.{
  Fopcode, fop_plus, fop_minus, fop_divide, fop_multiply, fop_exponent, fop_concat, fop_equal,
  fop_not_equal, fop_less, fop_greater, fop_less_equal, fop_greater_equal, fop_open, fop_close,
  fop_sep, fop_array_row_sep, fop_array_open, fop_array_close, Table, TableName, FormulaToken,
  operator, single_ref, range_ref, table_ref, function_token, error_token, value_token,
  string_token, named_expression_token, FormulaName, invalid, named_expression, cell_reference,
  range_reference, table_reference, function,
}

-- The switch of `primitive`; `none` is where it throws.
unfoldable pub primitive : Opcode → Option Fopcode
primitive paren_close = some fop_close
primitive divide = some fop_divide
primitive minus = some fop_minus
primitive multiply = some fop_multiply
primitive exponent = some fop_exponent
primitive concat = some fop_concat
primitive equal = some fop_equal
primitive paren_open = some fop_open
primitive plus = some fop_plus
primitive sep = some fop_sep
primitive array_row_sep = some fop_array_row_sep
primitive array_open = some fop_array_open
primitive array_close = some fop_array_close
primitive less = none
primitive greater = none

-- The strings of a table reference, which go into the pool one after the other.
unfoldable pub add_table : StringPool → TableName → Table × StringPool
add_table p t =
    let (name_id, p1) = add_string p t.name in
    let (first_id, p2) = add_string p1 t.column_first in
    let (last_id, p3) = add_string p2 t.column_last in
    (record { name = name_id; column_first = first_id; column_last = last_id; areas = t.areas }, p3)

-- A run: the tokens with the pool, or a `parse_error`. `stuck` stands for a run that needs more rounds
-- than the fuel allows.
pub data Parsed {ℓ} (Double Function : Type ℓ) : Type ℓ where
  parsed : List (FormulaToken Double Function) → StringPool → Parsed Double Function
  parse_error : Parsed Double Function
  stuck : Parsed Double Function

-- One round of the loop: the token that it makes, the pool, and the tokens that are left.
pub data Step {ℓ} (Double Function : Type ℓ) : Type ℓ where
  emplaced :
      FormulaToken Double Function → StringPool → List (LexerToken Double) → Step Double Function
  thrown : Step Double Function

module _ {ℓ} {Double Function : Type ℓ} where
  -- `less`, behind the `<`.
  unfoldable pub less_step : StringPool → List (LexerToken Double) → Step Double Function
  less_step p (op equal ∷ ts) = emplaced (operator fop_less_equal) p ts
  less_step p (op greater ∷ ts) = emplaced (operator fop_not_equal) p ts
  less_step p ts = emplaced (operator fop_less) p ts

  -- `greater`, behind the `>`.
  unfoldable pub greater_step : StringPool → List (LexerToken Double) → Step Double Function
  greater_step p (op equal ∷ ts) = emplaced (operator fop_greater_equal) p ts
  greater_step p ts = emplaced (operator fop_greater) p ts

  -- The switch of `name`.
  unfoldable pub name_token :
      Bytes → FormulaName Function → StringPool → List (LexerToken Double) → Step Double Function
  name_token s (cell_reference a) p ts = emplaced (single_ref a) p ts
  name_token s (range_reference r) p ts = emplaced (range_ref r) p ts
  name_token s (table_reference t) p ts =
      let (table, p1) = add_table p t in emplaced (table_ref table) p1 ts
  name_token s (function f) p ts = emplaced (function_token f) p ts
  name_token s named_expression p ts = emplaced (named_expression_token s) p ts
  name_token s invalid p ts = thrown

  module _ (resolve : Bytes → AbsAddress → FormulaName Function) (origin : AbsAddress) where
    -- The body of the loop of `parse`.
    unfoldable pub parse_step :
        StringPool → LexerToken Double → List (LexerToken Double) → Step Double Function
    parse_step p (op less) ts = less_step p ts
    parse_step p (op greater) ts = greater_step p ts
    parse_step p (op oc) ts = elim (primitive oc) [
      | some foc ↦ emplaced (operator foc) p ts
      | none ↦ thrown
    ]
    parse_step p (name s) ts = name_token s (resolve s origin) p ts
    parse_step p (error e) ts = emplaced (error_token e) p ts
    parse_step p (string s) ts = let (id, p1) = add_string p s in emplaced (string_token id) p1 ts
    parse_step p (value d) ts = emplaced (value_token d) p ts

    abbrev pub emplace :
        FormulaToken Double Function → Parsed Double Function → Parsed Double Function
    emplace t (parsed ts p) = parsed (t ∷ ts) p
    emplace t parse_error = parse_error
    emplace t stuck = stuck

    -- `parse` and `get_tokens`.
    unfoldable pub parse : ℕ → StringPool → List (LexerToken Double) → Parsed Double Function
    parse zero p ts = stuck
    parse (suc fuel) p [] = parsed [] p
    parse (suc fuel) p (t ∷ ts) = elim (parse_step p t ts) [
      | emplaced ft p1 left ↦ emplace ft (parse fuel p1 left)
      | thrown ↦ parse_error
    ]
