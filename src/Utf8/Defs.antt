-- ===== src/Utf8/Defs.antt =====
-- The two functions of utf8.cpp. A byte is a number below 256, on which the masks of the code are
-- quotients: `c & 0xE0` is `0xC0` where `c / 32` is 6, and so on.
use ixion.Prelude.{
  ℕ, zero, suc, ◌-◌, ◌/◌, List, [], ◌∷◌, Option, none, some, ltb, ◌==◌, if◌then◌else◌,
}
use ixion.FormulaLexer.Token.{Bytes}

-- `calc_utf8_byte_length`, where `none` is `invalid_utf8_byte_length`.
unfoldable pub calc_utf8_byte_length : ℕ → Option ℕ
calc_utf8_byte_length c =
    if ltb c 128
    then some 1
    else if c / 32 == 6
    then some 2
    else if c / 16 == 14
    then some 3
    else if c / 4 == 60
    then some 4
    else none

-- The loop of `calc_utf8_byte_positions`: at index `i`, with `skip` bytes to go to the next character,
-- which may lie behind the end. `none` is the `general_error` that it throws.
unfoldable pub positions_from : ℕ → ℕ → Bytes → Option (List ℕ)
positions_from skip i [] = some []
positions_from (suc skip) i (c ∷ s) = positions_from skip (suc i) s
positions_from zero i (c ∷ s) = elim (calc_utf8_byte_length c) [
  | none ↦ none
  | some n ↦ elim (positions_from (n - 1) (suc i) s) [ none ↦ none | some is ↦ some (i ∷ is) ]
]

-- `calc_utf8_byte_positions`
unfoldable pub calc_utf8_byte_positions : Bytes → Option (List ℕ)
calc_utf8_byte_positions s = positions_from 0 0 s
