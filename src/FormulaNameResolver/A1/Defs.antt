-- ===== src/FormulaNameResolver/A1/Defs.antt =====
-- `append_address_a1`, where no sheet name is asked for, and `parse_address_a1`. The column of a parsed address
-- stays below its bound. Its row has none but that of a signed integer of 32 bits, which the digits can overflow.
use ixion.Prelude.{
  ℕ, zero, suc, ◌+◌, ◌-◌, ◌*◌, ◌/◌, ◌%◌, Bool, true, false, not, ◌&&◌, [], ◌∷◌, ltb, leb, ◌==◌,
  if◌then◌else◌,
}
use ixion.Prelude.Int.{ℤ, pos, negsuc, ◌+ℤ◌, ◌-ℤ◌, leb_ℤ}
use ixion.Address.Defs.{
  AbsAddress, Address, rc_max, row_unset, column_unset, row_upper_bound, column_upper_bound,
}
use ixion.FormulaLexer.Token.{Bytes}

-- The loop of `append_column_name_a1`. It pushes the last letter first and reverses the name at the end, so
-- that each letter comes in front of those that are there.
unfoldable pub column_letters : ℕ → ℕ → Bytes → Bytes
column_letters zero col name = name
column_letters (suc n) col name = elim (ltb col 26) [
  | true ↦ (b'A' + col) ∷ name
  | false ↦ column_letters n ((col - col % 26) / 26 - 1) ((b'A' + col % 26) ∷ name)
]

-- `append_column_name_a1`, in front of more text. The remainder of a negative column is negative.
unfoldable pub append_column_name_a1 : ℤ → Bytes → Bytes
append_column_name_a1 (pos col) rest = column_letters (suc col) col rest
append_column_name_a1 (negsuc n) rest = (b'A' - suc n % 26) ∷ rest

-- The output of a number: its decimal digits.
unfoldable pub digits : ℕ → ℕ → Bytes → Bytes
digits zero n rest = rest
digits (suc k) n rest = elim (ltb n 10) [
  | true ↦ (b'0' + n) ∷ rest
  | false ↦ digits k (n / 10) ((b'0' + n % 10) ∷ rest)
]

unfoldable pub append_number : ℤ → Bytes → Bytes
append_number (pos n) rest = digits (suc n) n rest
append_number (negsuc n) rest = b'-' ∷ digits (suc (suc n)) (suc n) rest

unfoldable pub append_sign : Bool → Bytes → Bytes
append_sign true rest = b'$' ∷ rest
append_sign false rest = rest

-- The absolute positions of an address: the sums are those of `append_address_a1`.
abbrev pub column_of : Address → AbsAddress → ℤ
column_of a origin = if a.abs_column then a.column else a.column +ℤ origin.column

abbrev pub row_of : Address → AbsAddress → ℤ
row_of a origin = if a.abs_row then a.row else a.row +ℤ origin.row

-- `append_address_a1`
unfoldable pub append_address_a1 : Address → AbsAddress → Bytes
append_address_a1 a origin = append_sign a.abs_column (
    append_column_name_a1 (column_of a origin)
      (append_sign a.abs_row (append_number (row_of a origin +ℤ pos 1) [])))

-- `resolver_parse_mode`
pub data ParseMode : Type 0 where
  column_mode row_mode : ParseMode

-- The part of the address that is being parsed; 0 is a position that is not set.
pub record Parts : Type 0 where
  pub row : ℕ
  pub column : ℕ
  pub abs_row : Bool
  pub abs_column : Bool

-- What a character leads to.
pub data Step : Type 0 where
  continued : ParseMode → Parts → Step
  failed colon overflow : Step

pub data Parsed : Type 0 where
  invalid : Parsed
  -- The digits of the row overflow, and what comes then is not defined.
  undefined : Parsed
  valid_address : Address → Parsed
  -- An address in front of a colon, with the text from there on.
  range_expected : Address → Bytes → Parsed

abbrev pub to_upper : ℕ → ℕ
to_upper c = if leb b'a' c && leb c b'z' then c - 32 else c

unfoldable pub column_digit : ParseMode → Parts → ℕ → Step
column_digit row_mode a c = failed
column_digit column_mode a c =
    let column = (if a.column == 0 then a.column else a.column * 26) + (c - b'A' + 1) in
    if ltb (rc_max / 26 - 26) column
    then failed
    else continued column_mode (record a { column = column })

-- One more digit of the row.
unfoldable pub add_row : Parts → ℕ → Step
add_row a digit =
    let row = (if a.row == 0 then a.row else a.row * 10) + digit in
    if ltb 2147483647 row then overflow else continued row_mode (record a { row = row })

unfoldable pub row_digit : ParseMode → Parts → ℕ → Step
row_digit column_mode a c = if c == b'0' then failed else add_row a (c - b'0')
row_digit row_mode a c = add_row a (c - b'0')

unfoldable pub dollar : ParseMode → Parts → Step
dollar row_mode a = failed
dollar column_mode a =
    if a.column == 0
    then continued column_mode (record a { abs_column = true })
    else continued row_mode (record a { abs_row = true })

-- One round of the loop of `parse_address_a1`, for a character in upper case.
unfoldable pub a1_step : ParseMode → Parts → ℕ → Step
a1_step mode a c =
    if leb b'A' c && leb c b'Z'
    then column_digit mode a c
    else if leb b'0' c && leb c b'9'
    then row_digit mode a c
    else if c == b':'
    then colon
    else if c == b'$'
    then dollar mode a
    else failed

-- A position that was counted from 1, or the value for one that is not set.
unfoldable pub from_one : ℕ → ℤ → ℤ
from_one zero unset = unset
from_one (suc n) unset = pos n

-- The end of the loop, at a colon or at the end of the text, where `result` takes the address.
unfoldable pub a1_end : Address → ParseMode → Parts → (Address → Parsed) → Parsed
a1_end base row_mode a result =
    if a.row == 0
    then invalid
    else result (record base {
      row = from_one a.row row_unset;
      column = from_one a.column column_unset;
      abs_row = a.abs_row;
      abs_column = a.abs_column;
    })
a1_end base column_mode a result =
    if a.column == 0
    then invalid
    else result (record base {
      row = row_unset;
      column = from_one a.column column_unset;
      abs_row = a.abs_row;
      abs_column = a.abs_column;
    })

-- `parse_address_a1`, which keeps the sheet of `base`.
unfoldable pub a1_loop : Address → ParseMode → Parts → Bytes → Parsed
a1_loop base mode a [] = a1_end base mode a (λ b. valid_address b)
a1_loop base mode a (c ∷ s) = elim (a1_step mode a (to_upper c)) [
  | failed ↦ invalid
  | overflow ↦ undefined
  | colon ↦ a1_end base mode a (λ b. range_expected b (c ∷ s))
  | continued mode' a' ↦ a1_loop base mode' a' s
]

-- `parse_address_excel_a1`
unfoldable pub parse_address_excel_a1 : Address → Bytes → Parsed
parse_address_excel_a1 base s =
    a1_loop (record base { abs_sheet = true }) column_mode
      (record { row = 0; column = 0; abs_row = false; abs_column = false }) s

-- `to_relative_address`
unfoldable pub to_relative_address : Address → AbsAddress → Bool → Address
to_relative_address a origin sheet = record a {
  sheet = if not a.abs_sheet && sheet then a.sheet -ℤ origin.sheet else a.sheet;
  row = if not a.abs_row && leb_ℤ a.row row_upper_bound then a.row -ℤ origin.row else a.row;
  column =
      if not a.abs_column && leb_ℤ a.column column_upper_bound
      then a.column -ℤ origin.column
      else a.column;
}
