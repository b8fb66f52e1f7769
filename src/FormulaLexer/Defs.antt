-- ===== src/FormulaLexer/Defs.antt =====
-- The `tokenizer` class. Its position is the list of the bytes that are still to be read. The code reads
-- the byte one past the end in `string`, and then leaves the loop by `has_char` whatever it is.
use ixion.Prelude.{
  ℕ, zero, suc, Bool, true, false, ◌&&◌, ◌||◌, not, List, [], ◌∷◌, Option, none, some, leb, ◌==◌,
  if◌then◌else◌,
}
use ixion.FormulaLexer.Token.{
  Opcode, plus, minus, divide, multiply, exponent, concat, equal, less, greater, paren_open,
  paren_close, sep, array_open, array_close, array_row_sep, FormulaError, ref_result_not_available,
  division_by_zero, invalid_expression, name_not_found, no_range_intersection, invalid_value_type,
  no_value_available, Bytes, LexerToken, op, name, string, value, error,
}

-- `std::isdigit`
unfoldable pub is_digit : ℕ → Bool
is_digit c = leb b'0' c && leb c b'9'

-- `ops_map.find`
unfoldable pub find_op : ℕ → Option Opcode
find_op c =
    if c == b'&'
    then some concat
    else if c == b'('
    then some paren_open
    else if c == b')'
    then some paren_close
    else if c == b'*'
    then some multiply
    else if c == b'+'
    then some plus
    else if c == b'-'
    then some minus
    else if c == b'/'
    then some divide
    else if c == b'<'
    then some less
    else if c == b'='
    then some equal
    else if c == b'>'
    then some greater
    else if c == b'^'
    then some exponent
    else if c == b'{'
    then some array_open
    else if c == b'}'
    then some array_close
    else none

abbrev pub is_some {ℓ} : {A : Type ℓ} → Option A → Bool
is_some none = false
is_some (some a) = true

-- `is_op`, whose switch reads the current character, which is its argument in every call.
unfoldable pub is_op : ℕ → ℕ → Bool
is_op sep_arg c = c == sep_arg || (is_some (find_op c) || (c == b' ' || c == b'"'))

-- The keys of `errors::entries`.
abbrev pub error_keys : List (Bytes × FormulaError)
error_keys =
    (b'D' ∷ b'I' ∷ b'V' ∷ b'/' ∷ b'0' ∷ b'!' ∷ [], division_by_zero)
    ∷ (b'N' ∷ b'/' ∷ b'A' ∷ [], no_value_available)
    ∷ (b'N' ∷ b'A' ∷ b'M' ∷ b'E' ∷ b'?' ∷ [], name_not_found)
    ∷ (b'N' ∷ b'U' ∷ b'L' ∷ b'L' ∷ b'!' ∷ [], no_range_intersection)
    ∷ (b'N' ∷ b'U' ∷ b'M' ∷ b'!' ∷ [], invalid_expression)
    ∷ (b'R' ∷ b'E' ∷ b'F' ∷ b'!' ∷ [], ref_result_not_available)
    ∷ (b'V' ∷ b'A' ∷ b'L' ∷ b'U' ∷ b'E' ∷ b'!' ∷ [], invalid_value_type)
    ∷ []

-- A node of the trie: what is left of the keys below it, with their values.
abbrev pub Node : Type 0
Node = List (Bytes × FormulaError)

-- `node.child(c)`; the node is valid unless no key goes on with `c`.
unfoldable pub child : ℕ → Node → Node
child c [] = []
child c (([], v) ∷ node) = child c node
child c ((d ∷ key, v) ∷ node) = if c == d then (key, v) ∷ child c node else child c node

-- `node.has_value()` and `node.value()`
unfoldable pub node_value : Node → Option FormulaError
node_value [] = none
node_value (([], v) ∷ node) = some v
node_value ((d ∷ key, v) ∷ node) = node_value node

abbrev pub is_valid_node : Node → Bool
is_valid_node [] = false
is_valid_node (k ∷ node) = true

-- The loop of `error`: the value with the bytes behind its key, or `none` where no key matches.
unfoldable pub error_loop : Node → Bytes → Option (FormulaError × Bytes)
error_loop node [] = none
error_loop node (c ∷ rest) =
    let below = child c node in
    let more = error_loop below rest in
    if not (is_valid_node below)
    then none
    else elim (node_value below) [ some v ↦ some (v, rest) | none ↦ more ]

-- The loop of `numeral` behind its first digit, with the decimal separators met so far. `none` is where
-- it turns to `name`; else the digits and the bytes behind them.
unfoldable pub numeral_loop : ℕ → Bytes → Option (Bytes × Bytes)
numeral_loop sep_count [] = some ([], [])
numeral_loop sep_count (c ∷ rest) =
    let count = if is_digit c then sep_count else suc sep_count in
    let more = numeral_loop count rest in
    if c == b':'
    then none
    else if is_digit c || (c == b'.' && leb count 1)
    then elim more [ none ↦ none | some (digits, left) ↦ some (c ∷ digits, left) ]
    else if c == b'.'
    then none
    else some ([], c ∷ rest)

abbrev pub at_top : ℕ → List ℕ → Bool
at_top c [] = false
at_top c (s ∷ scopes) = s == c

abbrev pub has_scope : List ℕ → Bool
has_scope [] = false
has_scope (s ∷ scopes) = true

abbrev pub pop : List ℕ → List ℕ
pop [] = []
pop (s ∷ scopes) = scopes

-- What the loop of `name` does with a character: it ends, or goes on with other scopes.
unfoldable pub name_step : ℕ → List ℕ → ℕ → Option (List ℕ)
name_step sep_arg scopes c =
    if at_top c scopes
    then some (pop scopes)
    else if c == b'['
    then some (b']' ∷ scopes)
    else if c == b'\''
    then some (b'\'' ∷ scopes)
    else if has_scope scopes
    then some scopes
    else if is_op sep_arg c
    then none
    else some scopes

-- The loop of `name`: the characters of the name, and those behind it.
unfoldable pub name_loop : ℕ → List ℕ → Bytes → Bytes × Bytes
name_loop sep_arg scopes [] = ([], [])
name_loop sep_arg scopes (c ∷ rest) = elim (name_step sep_arg scopes c) [
  | none ↦ ([], c ∷ rest)
  | some scopes' ↦ let (taken, left) = name_loop sep_arg scopes' rest in (c ∷ taken, left)
]

-- The loop of `string`, and the skip of the quote that ends it.
unfoldable pub string_loop : Bytes → Bytes × Bytes
string_loop [] = ([], [])
string_loop (c ∷ rest) =
    let (taken, left) = string_loop rest in if c == b'"' then ([], rest) else (c ∷ taken, left)

-- A run of the tokenizer: its tokens, or the `general_error` that `error` throws. `stuck` stands for a
-- run that needs more rounds than the fuel allows.
pub data Lexed {ℓ} (Double : Type ℓ) : Type ℓ where
  tokens : List (LexerToken Double) → Lexed Double
  general_error : Lexed Double
  stuck : Lexed Double

-- One round of the loop of `run`.
pub data Round {ℓ} (Double : Type ℓ) : Type ℓ where
  pushed : LexerToken Double → Bytes → Round Double
  skipped : Bytes → Round Double
  thrown : Round Double

module _ {ℓ} {Double : Type ℓ} (to_double : Bytes → Double) (sep_arg : ℕ) where
  -- `name`
  unfoldable pub lex_name : Bytes → Round Double
  lex_name s = let (taken, left) = name_loop sep_arg [] s in pushed (name taken) left

  -- `numeral`, at a digit.
  unfoldable pub lex_numeral : ℕ → Bytes → Round Double
  lex_numeral c rest = elim (numeral_loop 0 rest) [
    | none ↦ lex_name (c ∷ rest)
    | some (digits, left) ↦ pushed (value (to_double (c ∷ digits))) left
  ]

  -- `error`, behind the `#`.
  unfoldable pub lex_error : Bytes → Round Double
  lex_error rest = elim (error_loop error_keys rest) [
    | none ↦ thrown
    | some (e, left) ↦ pushed (error e) left
  ]

  -- `string`, behind the quote.
  unfoldable pub lex_string : Bytes → Round Double
  lex_string rest = let (taken, left) = string_loop rest in pushed (string taken) left

  -- The body of the loop of `run`, at a character that is no digit and no operator.
  unfoldable pub lex_other : ℕ → Bytes → Round Double
  lex_other c rest =
      if c == b' '
      then skipped rest
      else if c == b'"'
      then lex_string rest
      else if c == b'#'
      then lex_error rest
      else if c == sep_arg
      then pushed (op sep) rest
      else if c == b';'
      then pushed (op array_row_sep) rest
      else lex_name (c ∷ rest)

  -- The body of that loop.
  unfoldable pub lex_round : ℕ → Bytes → Round Double
  lex_round c rest =
      if is_digit c
      then lex_numeral c rest
      else elim (find_op c) [ some oc ↦ pushed (op oc) rest | none ↦ lex_other c rest ]

  abbrev pub push : LexerToken Double → Lexed Double → Lexed Double
  push t (tokens ts) = tokens (t ∷ ts)
  push t general_error = general_error
  push t stuck = stuck

  -- `run` and `pop_tokens`.
  unfoldable pub tokenize : ℕ → Bytes → Lexed Double
  tokenize zero s = stuck
  tokenize (suc fuel) [] = tokens []
  tokenize (suc fuel) (c ∷ rest) = elim (lex_round c rest) [
    | pushed t left ↦ push t (tokenize fuel left)
    | skipped left ↦ tokenize fuel left
    | thrown ↦ general_error
  ]
