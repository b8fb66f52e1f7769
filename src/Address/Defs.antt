-- ===== src/Address/Defs.antt =====
-- The types of src/libixion/address.cpp and their operations. The 32-bit signed integers are
-- integers here: the code adds an offset to a position without a check, and a result outside 32 bits
-- would be undefined behaviour.
use ixion.Prelude.{ℕ, ◌-◌, ◌/◌, Bool, true, false, not, ◌&&◌, ◌||◌, if◌then◌else◌}
use ixion.Prelude.Int.{negsuc, ℤ, pos, ◌+ℤ◌, ◌-ℤ◌, ltb_ℤ, leb_ℤ, eqb_ℤ}

-- `std::numeric_limits<row_t>::max()`, which is that of `col_t` too.
abbrev pub rc_max : ℕ
rc_max = 2147483647

abbrev pub row_unset : ℤ
row_unset = pos (rc_max - 9)

abbrev pub row_upper_bound : ℤ
row_upper_bound = pos (rc_max - 10)

abbrev pub column_unset : ℤ
column_unset = pos (rc_max - 9)

abbrev pub column_upper_bound : ℤ
column_upper_bound = pos (rc_max / 26 - 26)

-- `is_valid_sheet`
abbrev pub is_valid_sheet : ℤ → Bool
is_valid_sheet sheet = leb_ℤ (pos 0) sheet

-- `abs_address_t`
pub record AbsAddress : Type 0 where
  pub sheet : ℤ
  pub row : ℤ
  pub column : ℤ

-- `address_t`, whose parts are offsets where their flag is not set.
pub record Address : Type 0 where
  pub sheet : ℤ
  pub row : ℤ
  pub column : ℤ
  pub abs_sheet : Bool
  pub abs_row : Bool
  pub abs_column : Bool

-- `abs_range_t`
pub record AbsRange : Type 0 where
  pub first : AbsAddress
  pub last : AbsAddress

-- `range_t`
pub record Range : Type 0 where
  pub first : Address
  pub last : Address

-- `abs_address_t::valid`
unfoldable pub valid_abs : AbsAddress → Bool
valid_abs a =
    leb_ℤ (pos 0) a.sheet
    && (leb_ℤ (pos 0) a.row
        && (leb_ℤ (pos 0) a.column && (leb_ℤ a.row row_unset && leb_ℤ a.column column_unset)))

-- `operator==` of `abs_address_t`
unfoldable pub eq_abs : AbsAddress → AbsAddress → Bool
eq_abs a b = eqb_ℤ a.sheet b.sheet && (eqb_ℤ a.row b.row && eqb_ℤ a.column b.column)

-- `operator<` of `abs_address_t`
unfoldable pub lt_abs : AbsAddress → AbsAddress → Bool
lt_abs a b =
    if not (eqb_ℤ a.sheet b.sheet)
    then ltb_ℤ a.sheet b.sheet
    else if not (eqb_ℤ a.row b.row)
    then ltb_ℤ a.row b.row
    else ltb_ℤ a.column b.column

-- `operator<` of `bool`
abbrev pub lt_bool : Bool → Bool → Bool
lt_bool a b = not a && b

abbrev pub ne_bool : Bool → Bool → Bool
ne_bool true b = not b
ne_bool false b = b

-- `operator<` of `address_t`
unfoldable pub lt_address : Address → Address → Bool
lt_address a b =
    if ne_bool a.abs_sheet b.abs_sheet
    then lt_bool a.abs_sheet b.abs_sheet
    else if ne_bool a.abs_row b.abs_row
    then lt_bool a.abs_row b.abs_row
    else if ne_bool a.abs_column b.abs_column
    then lt_bool a.abs_column b.abs_column
    else if not (eqb_ℤ a.sheet b.sheet)
    then ltb_ℤ a.sheet b.sheet
    else if not (eqb_ℤ a.row b.row)
    then ltb_ℤ a.row b.row
    else ltb_ℤ a.column b.column

-- `address_t::valid`
unfoldable pub valid_address : Address → Bool
valid_address a =
    if a.abs_sheet && ltb_ℤ a.sheet (pos 0)
    then false
    else if ltb_ℤ row_unset a.row
    then false
    else if a.abs_row && ltb_ℤ a.row (pos 0)
    then false
    else if not a.abs_row && ltb_ℤ a.row (pos 0 -ℤ row_upper_bound)
    then false
    else if ltb_ℤ column_unset a.column
    then false
    else if a.abs_column && ltb_ℤ a.column (pos 0)
    then false
    else if not a.abs_column && ltb_ℤ a.column (pos 0 -ℤ column_upper_bound)
    then false
    else true

-- `address_t::to_abs`
unfoldable pub to_abs : AbsAddress → Address → AbsAddress
to_abs origin a = record {
  sheet =
      if not (is_valid_sheet origin.sheet)
      then origin.sheet
      else if not a.abs_sheet
      then a.sheet +ℤ origin.sheet
      else a.sheet;
  row = if not a.abs_row && leb_ℤ a.row row_upper_bound then a.row +ℤ origin.row else a.row;
  column =
      if not a.abs_column && leb_ℤ a.column column_upper_bound
      then a.column +ℤ origin.column
      else a.column;
}

-- `abs_range_t::valid`
unfoldable pub valid_range : AbsRange → Bool
unfolding valid_abs
valid_range r =
    valid_abs r.first
    && (valid_abs r.last
        && (leb_ℤ r.first.sheet r.last.sheet
            && (leb_ℤ r.first.column r.last.column && leb_ℤ r.first.row r.last.row)))

-- `abs_range_t::all_columns`
unfoldable pub all_columns : AbsRange → Bool
all_columns r = eqb_ℤ r.first.column column_unset && eqb_ℤ r.last.column column_unset

-- `abs_range_t::all_rows`
unfoldable pub all_rows : AbsRange → Bool
all_rows r = eqb_ℤ r.first.row row_unset && eqb_ℤ r.last.row row_unset

-- `abs_range_t::contains`
unfoldable pub contains : AbsRange → AbsAddress → Bool
contains r a =
    leb_ℤ r.first.sheet a.sheet
    && (leb_ℤ a.sheet r.last.sheet
        && (leb_ℤ r.first.row a.row
            && (leb_ℤ a.row r.last.row
                && (leb_ℤ r.first.column a.column && leb_ℤ a.column r.last.column))))

-- One test of `abs_range_t::reorder`, whose result is the two coordinates in order.
abbrev pub swap_if_greater : ℤ → ℤ → ℤ × ℤ
swap_if_greater a b = if ltb_ℤ b a then (b, a) else (a, b)

-- `abs_range_t::reorder`
unfoldable pub reorder : AbsRange → AbsRange
reorder r =
    let sheets = swap_if_greater r.first.sheet r.last.sheet in
    let rows = swap_if_greater r.first.row r.last.row in
    let columns = swap_if_greater r.first.column r.last.column in
    record {
      first = record { sheet = sheets.0; row = rows.0; column = columns.0 };
      last = record { sheet = sheets.1; row = rows.1; column = columns.1 };
    }

-- Whether a result is one of the 32-bit integers, which rows and columns are.
abbrev pub is_int32 : ℤ → Bool
is_int32 z = leb_ℤ (negsuc 2147483647) z && leb_ℤ z (pos 2147483647)

-- The two steps of `start + span - 1` stay in 32 bits; otherwise the result is undefined.
abbrev pub has_last : ℤ → ℤ → Bool
has_last start span = is_int32 (start +ℤ span) && is_int32 (start +ℤ span -ℤ pos 1)

-- How the constructor of `abs_range_t` from a corner and the two spans ends: an overflow, whose result is
-- undefined, `std::range_error`, or a range.
pub data Spanned : Type 0 where
  overflow range_error : Spanned
  spanned : AbsRange → Spanned

-- The positions are computed before the spans are looked at.
unfoldable pub range_of_spans : AbsAddress → ℤ → ℤ → Spanned
range_of_spans a row_span col_span =
    if not (has_last a.row row_span && has_last a.column col_span)
    then overflow
    else if ltb_ℤ row_span (pos 1) || ltb_ℤ col_span (pos 1)
    then range_error
    else spanned (record {
      first = a;
      last = record a { row = a.row +ℤ row_span -ℤ pos 1; column = a.column +ℤ col_span -ℤ pos 1 };
    })

-- `operator==` of `abs_range_t`
unfoldable pub eq_range : AbsRange → AbsRange → Bool
eq_range r s = eq_abs r.first s.first && eq_abs r.last s.last

-- `operator<` of `abs_range_t`
unfoldable pub lt_range : AbsRange → AbsRange → Bool
lt_range r s = if not (eq_abs r.first s.first) then lt_abs r.first s.first else lt_abs r.last s.last

-- `range_t::to_abs`
unfoldable pub range_to_abs : AbsAddress → Range → AbsRange
unfolding to_abs
range_to_abs origin r = record { first = to_abs origin r.first; last = to_abs origin r.last }
