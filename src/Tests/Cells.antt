-- ===== src/Tests/Cells.antt =====
-- Instances of the theorems on addresses and ranges.
use ixion.Prelude.{Bool, true, false, ◌≡◌, ◌↔◌, refl}
use ixion.Prelude.Int.{ℤ, pos, negsuc}
use ixion.Address.Defs.{
  AbsAddress, Address, AbsRange, valid_abs, valid_range, contains, reorder, lt_abs, eq_abs,
  lt_address, lt_range,
}
use ixion.Address.Order.{lt_address_trans, lt_range_total}
use ixion.Address.Range.{IsBetween, contains-reorder, reorder-valid}

abbrev on_first : ℤ → ℤ → AbsAddress
on_first row column = record { sheet = pos 0; row = row; column = column }

-- Rows 0 to 3 and columns 2 and 1, which stand the wrong way round.
abbrev crossed : AbsRange
crossed = record { first = on_first (pos 0) (pos 2); last = on_first (pos 3) (pos 1) }

contains-reorder_example : (contains (reorder crossed) (on_first (pos 2) (pos 1)) ≡ true) ↔ (
    IsBetween (pos 0) (pos 0) (pos 0)
    × IsBetween (pos 0) (pos 3) (pos 2)
    × IsBetween (pos 2) (pos 1) (pos 1))
contains-reorder_example = contains-reorder crossed (on_first (pos 2) (pos 1))

first-valid : valid_abs (on_first (pos 0) (pos 2)) ≡ true
unfolding valid_abs
first-valid = refl

last-valid : valid_abs (on_first (pos 3) (pos 1)) ≡ true
unfolding valid_abs
last-valid = refl

reorder-valid_example :
    (valid_range (reorder crossed) ≡ true)
    × (valid_range crossed ≡ true → reorder crossed ≡ crossed)
reorder-valid_example = reorder-valid crossed first-valid last-valid

abbrev relative : ℤ → Bool → Address
relative row abs_row = record {
  sheet = pos 0;
  row = row;
  column = pos 0;
  abs_sheet = true;
  abs_row = abs_row;
  abs_column = false;
}

below : lt_address (relative (negsuc 2) false) (relative (pos 1) false) ≡ true
unfolding lt_address
below = refl

relative_first : lt_address (relative (pos 1) false) (relative (pos 0) true) ≡ true
unfolding lt_address
relative_first = refl

lt_address_trans_example : lt_address (relative (negsuc 2) false) (relative (pos 0) true) ≡ true
lt_address_trans_example =
    lt_address_trans (relative (negsuc 2) false) (relative (pos 1) false) (relative (pos 0) true)
      below relative_first

not_less : lt_range crossed crossed ≡ false
unfolding lt_range lt_abs eq_abs
not_less = refl

lt_range_total_example : crossed ≡ crossed
lt_range_total_example = lt_range_total crossed crossed not_less not_less
