-- ===== src/StringPool/Defs.antt =====
-- The string pool of the model context. The lock of its mutex makes each operation one step.
use ixion.Prelude.{
  Eq, ℕ, ◌%◌, ◌^◌, Bool, true, false, ◌&&◌, List, [], ◌∷◌, ◌++◌, Option, none, some, ◌==◌, ◌≡◌, ◌↔◌,
  arith, length, get_elem?, if◌then◌else◌,
}
use ixion.FormulaLexer.Token.{Bytes}

abbrev pub eq_bytes : Bytes → Bytes → Bool
eq_bytes [] [] = true
eq_bytes [] (d ∷ t) = false
eq_bytes (c ∷ s) [] = false
eq_bytes (c ∷ s) (d ∷ t) = c == d && eq_bytes s t

pub eq_bytes_iff : (s t : Bytes) → (eq_bytes s t ≡ true) ↔ (s ≡ t)
eq_bytes_iff [] [] = ground arith
eq_bytes_iff [] (d ∷ t) = ground arith
eq_bytes_iff (c ∷ s) [] = ground arith
eq_bytes_iff (c ∷ s) (d ∷ t) = ground (arith, eq_bytes_iff s t)

instance abbrev pub bytes_eq : Eq Bytes
bytes_eq = record { beq = eq_bytes; beq_iff = eq_bytes_iff }

-- `empty_string_id`, the largest value of a 32-bit identifier.
abbrev pub empty_string_id : ℕ
empty_string_id = 4294967295

-- The members of `safe_string_pool`; an entry of the hash map is a string with its identifier.
pub record StringPool : Type 0 where
  pub strings : List Bytes
  pub string_map : List (Bytes × ℕ)

-- `m_string_map.find`
unfoldable pub find_string : Bytes → List (Bytes × ℕ) → Option ℕ
find_string s [] = none
find_string s ((t, i) ∷ m) = if eq_bytes s t then some i else find_string s m

-- `m_string_map.insert`, which keeps the entry of a key that it has.
unfoldable pub insert_string : Bytes → ℕ → List (Bytes × ℕ) → List (Bytes × ℕ)
insert_string s i m = elim (find_string s m) [ none ↦ (s, i) ∷ m | some j ↦ m ]

-- `append_string`
unfoldable pub append_string : StringPool → Bytes → ℕ × StringPool
append_string p s =
    let str_id = length p.strings % 2 ^ 32 in
    (
      str_id,
      record { strings = p.strings ++ s ∷ []; string_map = insert_string s str_id p.string_map },
    )

abbrev pub is_empty_string : Bytes → Bool
is_empty_string [] = true
is_empty_string (c ∷ s) = false

-- `add_string`
unfoldable pub add_string : StringPool → Bytes → ℕ × StringPool
add_string p s =
    if is_empty_string s
    then (empty_string_id, p)
    else elim (find_string s p.string_map) [ some i ↦ (i, p) | none ↦ append_string p s ]

-- `get_string`
unfoldable pub get_string : StringPool → ℕ → Option Bytes
get_string p identifier =
    if identifier == empty_string_id then some [] else get_elem? p.strings identifier

-- `get_identifier_from_string`
unfoldable pub get_identifier_from_string : StringPool → Bytes → ℕ
get_identifier_from_string p s = elim (find_string s p.string_map) [
  | none ↦ empty_string_id
  | some i ↦ i
]
