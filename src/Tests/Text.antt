-- ===== src/Tests/Text.antt =====
-- Instances of the theorems on UTF-8.
use ixion.Prelude.{ℕ, List, [], ◌∷◌, ◌++◌, none, some, ◌≡◌, refl, arith}
use ixion.Utf8.Defs.{calc_utf8_byte_positions}
use ixion.Utf8.Encoded.{
  encode, encode_all, calc_utf8_byte_positions-encode_all, calc_utf8_byte_positions-encode,
}

-- A letter, a letter of two bytes, one of three and one of four.
abbrev letters : List ℕ
letters = 65 ∷ 233 ∷ 8364 ∷ 128512 ∷ []

calc_utf8_byte_positions-encode_all_example :
    calc_utf8_byte_positions (encode_all letters) ≡ some (0 ∷ 1 ∷ 3 ∷ 6 ∷ [])
calc_utf8_byte_positions-encode_all_example = calc_utf8_byte_positions-encode_all letters refl

calc_utf8_byte_positions-encode_example :
    calc_utf8_byte_positions (encode 1048576 ++ encode 65) ≡ none
calc_utf8_byte_positions-encode_example =
    calc_utf8_byte_positions-encode 1048576 (encode 65) (omega arith) (omega arith)
