-- ===== src/FormulaLexer/Loops.antt =====
-- What the loops of the tokenizer read, and the texts of operators and error values.
use ixion.Prelude.{
  ℕ, suc, Bool, false, ◌||◌, List, [], ◌∷◌, ◌++◌, some, ◌≡◌, ◌⊎◌, inl, inr, refl, ap, arith, ◌==◌,
  if◌then◌else◌, Bool-cases, Option-cases,
}
use ixion.FormulaLexer.Token.{
  Opcode, plus, minus, divide, multiply, exponent, concat, equal, less, greater, paren_open,
  paren_close, sep, array_open, array_close, array_row_sep, FormulaError, ref_result_not_available,
  division_by_zero, invalid_expression, name_not_found, no_range_intersection, invalid_value_type,
  no_value_available, Bytes,
}
use ixion.FormulaLexer.Defs.{
  is_digit, find_op, error_keys, Node, child, node_value, is_valid_node, error_loop, numeral_loop,
  name_step, name_loop, string_loop,
}

-- The characters of an operator, with the configured argument separator.
abbrev pub op_char : ℕ → Opcode → ℕ
op_char sep_arg plus = b'+'
op_char sep_arg minus = b'-'
op_char sep_arg divide = b'/'
op_char sep_arg multiply = b'*'
op_char sep_arg exponent = b'^'
op_char sep_arg concat = b'&'
op_char sep_arg equal = b'='
op_char sep_arg less = b'<'
op_char sep_arg greater = b'>'
op_char sep_arg paren_open = b'('
op_char sep_arg paren_close = b')'
op_char sep_arg sep = sep_arg
op_char sep_arg array_open = b'{'
op_char sep_arg array_close = b'}'
op_char sep_arg array_row_sep = b';'

-- The text of an error value behind its `#`.
abbrev pub error_key : FormulaError → Bytes
error_key division_by_zero = b'D' ∷ b'I' ∷ b'V' ∷ b'/' ∷ b'0' ∷ b'!' ∷ []
error_key no_value_available = b'N' ∷ b'/' ∷ b'A' ∷ []
error_key name_not_found = b'N' ∷ b'A' ∷ b'M' ∷ b'E' ∷ b'?' ∷ []
error_key no_range_intersection = b'N' ∷ b'U' ∷ b'L' ∷ b'L' ∷ b'!' ∷ []
error_key invalid_expression = b'N' ∷ b'U' ∷ b'M' ∷ b'!' ∷ []
error_key ref_result_not_available = b'R' ∷ b'E' ∷ b'F' ∷ b'!' ∷ []
error_key invalid_value_type = b'V' ∷ b'A' ∷ b'L' ∷ b'U' ∷ b'E' ∷ b'!' ∷ []

pub find_op-op_char : (sep_arg c : ℕ) (oc : Opcode) → find_op c ≡ some oc → c ≡ op_char sep_arg oc
unfolding find_op
find_op-op_char sep_arg c plus h = ground arith
find_op-op_char sep_arg c _ h = ground arith

-- The node has the key with the value.
abbrev pub Has : Bytes → FormulaError → Node → Type 0
Has k v [] = ⊥
Has k v (entry ∷ node) = (k ≡ entry.0) × (v ≡ entry.1) ⊎ Has k v node

Has-child :
    (c : ℕ) (k : Bytes) (v : FormulaError) (node : Node)
    → Has k v (child c node)
    → Has (c ∷ k) v node
unfolding child
Has-child c k v [] h = h
Has-child c k v (([], w) ∷ node) h = inr (Has-child c k v node h)
Has-child c k v ((d ∷ key, w) ∷ node) h = elim (Bool-cases (c == d)) [
  | inl same ↦ elim (rw same at h) [
    | inl (p, q) ↦ inl (ground (arith, p), q)
    | inr later ↦ inr (Has-child c k v node later)
  ]
  | inr other ↦ inr (Has-child c k v node (rw other at h))
]

Has-node_value : (v : FormulaError) (node : Node) → node_value node ≡ some v → Has [] v node
unfolding node_value
Has-node_value v [] h = absurd (cc)
Has-node_value v (([], w) ∷ node) h = inl (refl, cc)
Has-node_value v ((d ∷ key, w) ∷ node) h = inr (Has-node_value v node h)

pub error_loop-key :
    (node : Node) (s : Bytes) {v : FormulaError} {left : Bytes}
    → error_loop node s ≡ some (v, left)
    → (k : Bytes) × Has k v node × (s ≡ k ++ left)
unfolding error_loop
error_loop-key node [] h = absurd (cc)
error_loop-key node (c ∷ rest) {v} {left} h = elim (Bool-cases (is_valid_node (child c node))) [
  | inl good ↦ elim (Option-cases (node_value (child c node))) [
    | inl deeper ↦
        let (k, has, q) =
          error_loop-key (child c node) rest {v = v} {left = left} (rw (good, deeper) at h) in
        (c ∷ k, Has-child c k v node has, ap (◌∷◌ c) q)
    | inr (w, found) ↦
        let h' = rw (good, found) at h in
        let same : w ≡ v = cc h' in
        let rest_left : rest ≡ left = cc h' in
        (
          c ∷ [],
          Has-child c [] v node (Has-node_value v (child c node) (rw same at found)),
          rw rest_left,
        )
  ]
  | inr bad ↦ absurd (cc (rw bad at h))
]

pub Has-error_keys : (k : Bytes) (v : FormulaError) → Has k v error_keys → k ≡ error_key v
Has-error_keys k v h = ground arith

pub numeral_loop-append :
    (n : ℕ) (s : Bytes) {digits left : Bytes}
    → numeral_loop n s ≡ some (digits, left)
    → s ≡ digits ++ left
unfolding numeral_loop
numeral_loop-append n [] h = ground arith
numeral_loop-append n (c ∷ rest) h =
    let count = if is_digit c then n else suc n in
    elim (Option-cases (numeral_loop count rest)) [
      | inl stops ↦ ground arith
      | inr ((ds, l), goes) ↦ ground (arith, numeral_loop-append count rest goes)
    ]

pub name_loop-append :
    (sep_arg : ℕ) (scopes : List ℕ) (s : Bytes)
    → s ≡ (name_loop sep_arg scopes s).0 ++ (name_loop sep_arg scopes s).1
unfolding name_loop
name_loop-append sep_arg scopes [] = refl
name_loop-append sep_arg scopes (c ∷ rest) = elim (Option-cases (name_step sep_arg scopes c)) [
  | inl ends ↦ rw (ends, name_loop)
  | inr (scopes', goes) ↦ rw (goes, name_loop) (ap (◌∷◌ c) (name_loop-append sep_arg scopes' rest))
]

abbrev pub has_quote : Bytes → Bool
has_quote [] = false
has_quote (c ∷ s) = c == b'"' || has_quote s

-- A string literal ends at the first quote, or with the input.
pub string_loop-append :
    (s : Bytes)
    → (has_quote (string_loop s).0 ≡ false)
      × ((s ≡ (string_loop s).0 ++ b'"' ∷ (string_loop s).1)
          ⊎ (s ≡ (string_loop s).0) × ((string_loop s).1 ≡ []))
unfolding string_loop
string_loop-append [] = (refl, inr (refl, refl))
string_loop-append (c ∷ rest) = elim (Bool-cases (c == b'"')) [
  | inl ends ↦ rw ends (refl, inl (ground arith))
  | inr goes ↦
      let (clean, spelled) = string_loop-append rest in
      rw goes (
        ground arith,
        elim spelled [ inl q ↦ inl (ap (◌∷◌ c) q) | inr (q, r) ↦ inr (ap (◌∷◌ c) q, r) ],
      )
]
