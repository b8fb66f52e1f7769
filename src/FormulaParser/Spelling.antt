-- ===== src/FormulaParser/Spelling.antt =====
-- What the formula tokens of a run stand for.
use ixion.Prelude.{ℕ, List, [], ◌∷◌, ◌++◌, map, some, ◌≡◌}
use ixion.Address.Defs.{AbsAddress, Address, Range}
use ixion.FormulaLexer.Token.{
  Opcode, plus, minus, divide, multiply, exponent, concat, equal, less, greater, paren_open,
  paren_close, sep, array_open, array_close, array_row_sep, FormulaError, Bytes, LexerToken, op,
  name, string, value, error,
}
use ixion.StringPool.Defs.{StringPool, get_string}
use ixion.FormulaParser.Token.{
  Fopcode, fop_plus, fop_minus, fop_divide, fop_multiply, fop_exponent, fop_concat, fop_equal,
  fop_not_equal, fop_less, fop_greater, fop_less_equal, fop_greater_equal, fop_open, fop_close,
  fop_sep, fop_array_row_sep, fop_array_open, fop_array_close, Table, TableName, FormulaToken,
  operator, single_ref, range_ref, table_ref, function_token, error_token, value_token,
  string_token, named_expression_token, FormulaName, named_expression, cell_reference,
  range_reference, table_reference, function,
}

-- The operators of the lexer that an operator of a formula is made of.
abbrev pub op_text : Fopcode → List Opcode
op_text fop_plus = plus ∷ []
op_text fop_minus = minus ∷ []
op_text fop_divide = divide ∷ []
op_text fop_multiply = multiply ∷ []
op_text fop_exponent = exponent ∷ []
op_text fop_concat = concat ∷ []
op_text fop_equal = equal ∷ []
op_text fop_not_equal = less ∷ greater ∷ []
op_text fop_less = less ∷ []
op_text fop_greater = greater ∷ []
op_text fop_less_equal = less ∷ equal ∷ []
op_text fop_greater_equal = greater ∷ equal ∷ []
op_text fop_open = paren_open ∷ []
op_text fop_close = paren_close ∷ []
op_text fop_sep = sep ∷ []
op_text fop_array_row_sep = array_row_sep ∷ []
op_text fop_array_open = array_open ∷ []
op_text fop_array_close = array_close ∷ []

-- The strings of the first pool keep their identifiers.
abbrev pub Keeps : StringPool → StringPool → Type 0
Keeps p q = (i : ℕ) (s : Bytes) → get_string p i ≡ some s → get_string q i ≡ some s

module _ {ℓ} {Double Function : Type ℓ} (resolve : Bytes → AbsAddress → FormulaName Function)
    (origin : AbsAddress) where
  -- The tokens of the lexer that a formula token stands for, by the strings of the pool.
  pub data Spells (q : StringPool)
      : FormulaToken Double Function → List (LexerToken Double) → Type ℓ where
    as_operator : (f : Fopcode) → Spells q (operator f) (map op (op_text f))
    as_value : (d : Double) → Spells q (value_token d) (value d ∷ [])
    as_error : (e : FormulaError) → Spells q (error_token e) (error e ∷ [])
    as_string :
        (i : ℕ) (s : Bytes) → get_string q i ≡ some s → Spells q (string_token i) (string s ∷ [])
    as_cell :
        (s : Bytes) (a : Address)
        → resolve s origin ≡ cell_reference a
        → Spells q (single_ref a) (name s ∷ [])
    as_range :
        (s : Bytes) (r : Range)
        → resolve s origin ≡ range_reference r
        → Spells q (range_ref r) (name s ∷ [])
    as_function :
        (s : Bytes) (f : Function)
        → resolve s origin ≡ function f
        → Spells q (function_token f) (name s ∷ [])
    as_named :
        (s : Bytes)
        → resolve s origin ≡ named_expression
        → Spells q (named_expression_token s) (name s ∷ [])
    as_table :
        (s : Bytes) (t : TableName) (table : Table)
        → resolve s origin ≡ table_reference t
        → get_string q table.name ≡ some t.name
        → get_string q table.column_first ≡ some t.column_first
        → get_string q table.column_last ≡ some t.column_last
        → table.areas ≡ t.areas
        → Spells q (table_ref table) (name s ∷ [])

  pub Spells-Keeps :
      (p q : StringPool) {t : FormulaToken Double Function} {w : List (LexerToken Double)}
      → Keeps p q
      → Spells p t w
      → Spells q t w
  Spells-Keeps p q k (as_operator f) = as_operator f
  Spells-Keeps p q k (as_value d) = as_value d
  Spells-Keeps p q k (as_error e) = as_error e
  Spells-Keeps p q k (as_string i s h) = as_string i s (k i s h)
  Spells-Keeps p q k (as_cell s a h) = as_cell s a h
  Spells-Keeps p q k (as_range s r h) = as_range s r h
  Spells-Keeps p q k (as_function s f h) = as_function s f h
  Spells-Keeps p q k (as_named s h) = as_named s h
  Spells-Keeps p q k (as_table s t table h n f l a) =
      as_table s t table h (k table.name t.name n) (k table.column_first t.column_first f)
        (k table.column_last t.column_last l) a

  -- The formula tokens stand for the tokens of the lexer, one behind the other.
  pub data Spelled (q : StringPool)
      : List (FormulaToken Double Function) → List (LexerToken Double) → Type ℓ where
    at_end : Spelled q [] []
    token :
        {t : FormulaToken Double Function} {fts : List (FormulaToken Double Function)}
        {w s u : List (LexerToken Double)}
        → Spells q t w
        → Spelled q fts s
        → u ≡ w ++ s
        → Spelled q (t ∷ fts) u
