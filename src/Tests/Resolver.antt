-- ===== src/Tests/Resolver.antt =====
-- Instances of the theorems on the A1 form of addresses.
use ixion.Prelude.{true, false, [], ◌∷◌, ◌≡◌, refl, arith}
use ixion.Prelude.Int.{pos, negsuc, ◌+ℤ◌}
use ixion.Address.Defs.{AbsAddress, Address}
use ixion.FormulaLexer.Token.{Bytes}
use ixion.FormulaNameResolver.A1.Defs.{
  column_letters, append_column_name_a1, digits, append_number, append_sign, append_address_a1,
  valid_address, parse_address_excel_a1, to_relative_address,
}
use ixion.FormulaNameResolver.A1.RoundTrip.{parse_address_excel_a1-append_address_a1}
use ixion.FormulaNameResolver.A1.Bounds.{Fits, parse_address_excel_a1-Fits}

abbrev home : AbsAddress
home = record { sheet = pos 0; row = pos 9; column = pos 30 }

-- The third column before that of the home cell, and row 5 for good.
abbrev mixed : Address
mixed = record {
  sheet = pos 0;
  row = pos 4;
  column = negsuc 2;
  abs_sheet = false;
  abs_row = true;
  abs_column = false;
}

abbrev base : Address
base = record {
  sheet = pos 7;
  row = pos 0;
  column = pos 0;
  abs_sheet = true;
  abs_row = false;
  abs_column = false;
}

mixed_text : append_address_a1 mixed home ≡ b'A' ∷ b'B' ∷ b'$' ∷ b'5' ∷ []
unfolding append_address_a1 append_sign append_column_name_a1 column_letters append_number digits
    ◌+ℤ◌
mixed_text = refl

parse_address_excel_a1-append_address_a1_example :
    (b : Address) × (parse_address_excel_a1 base (append_address_a1 mixed home) ≡ valid_address b)
    × (to_relative_address b home false ≡ record mixed { sheet = pos 7; abs_sheet = true })
unfolding ◌+ℤ◌
parse_address_excel_a1-append_address_a1_example =
    parse_address_excel_a1-append_address_a1 base mixed home (omega arith) (omega arith)
      (omega arith) (omega arith)

-- `C:D`
abbrev columns : Bytes
columns = b'C' ∷ b':' ∷ b'D' ∷ []

parse_address_excel_a1-Fits_example : Fits 3 (parse_address_excel_a1 base columns)
parse_address_excel_a1-Fits_example = parse_address_excel_a1-Fits base columns
