-- ===== src/FormulaNameResolver/A1/RoundTrip.antt =====
-- What is printed of an address is parsed as that address.
use ixion.Prelude.{
  ℕ, suc, ◌+◌, ◌≤◌, ◌<◌, Bool, true, false, not, ◌&&◌, [], ◌≡◌, refl, sym, ◌∙◌, arith,
  if◌then◌else◌, ◌/◌, ◌-◌, add-one,
}
use ixion.Prelude.Int.{ℤ, pos, negsuc, ◌+ℤ◌, ◌-ℤ◌, ◌≤ℤ◌, ◌<ℤ◌, leb_ℤ, int_laws}
use ixion.Address.Defs.{AbsAddress, Address, rc_max, row_upper_bound, column_upper_bound}
use ixion.FormulaLexer.Token.{Bytes}
use ixion.FormulaNameResolver.A1.Defs.{
  append_column_name_a1, digits, append_number, append_sign, column_of, row_of, append_address_a1,
  column_mode, row_mode, valid_address, dollar, a1_step, a1_loop, a1_end, from_one,
  parse_address_excel_a1, to_relative_address,
}
use ixion.FormulaNameResolver.A1.Digits.{
  a1_loop-continued, parts, a1_loop-column_letters, a1_loop-digits,
}

-- The signs of absolute positions.
dollar_column :
    (base : Address) (sign : Bool) (rest : Bytes)
    → a1_loop base column_mode (parts base false false 0 0) (append_sign sign rest)
      ≡ a1_loop base column_mode (parts base false sign 0 0) rest
unfolding append_sign a1_step dollar
dollar_column base false rest = refl
dollar_column base true rest =
    a1_loop-continued base column_mode column_mode (parts base false false 0 0)
      (parts base false true 0 0) b'$' rest refl

-- The sign of the row and its digits.
dollar_row :
    (base : Address) (abs_column sign : Bool) (k n column : ℕ)
    → n < k
    → 0 < n
    → n ≤ 2147483647
    → a1_loop base column_mode
        (parts base false abs_column 0 (suc column))
        (append_sign sign (digits k n []))
      ≡ a1_end base row_mode (parts base sign abs_column n (suc column)) (λ b. valid_address b)
unfolding append_sign a1_step dollar a1_loop
dollar_row base abs_column false k n column h p q =
    a1_loop-digits base false abs_column k n (suc column) column_mode [] h p q
dollar_row base abs_column true k n column h p q =
    a1_loop-continued base column_mode row_mode (parts base false abs_column 0 (suc column))
      (parts base true abs_column 0 (suc column)) b'$' (digits k n []) (ground arith)
    ∙ a1_loop-digits base true abs_column k n (suc column) row_mode [] h p q

one_more : (n : ℕ) → pos n +ℤ pos 1 ≡ pos (suc n)
one_more n = omega int_laws

-- Positions that are numbers.
parse-print :
    (base : Address) (abs_row abs_column : Bool) (row column : ℕ)
    → column + 1 ≤ rc_max / 26 - 26
    → row + 1 ≤ 2147483647
    → a1_loop base column_mode (parts base false false 0 0) (
        append_sign abs_column (
          append_column_name_a1
            (pos column)
            (append_sign abs_row (append_number (pos row +ℤ pos 1) []))))
      ≡ valid_address (record base {
        row = pos row;
        column = pos column;
        abs_row = abs_row;
        abs_column = abs_column;
      })
unfolding append_column_name_a1 append_number a1_end from_one
parse-print base abs_row abs_column row column h bounded =
    dollar_column base abs_column _
    ∙ a1_loop-column_letters base false abs_column (suc column) column _ (omega arith) h
    ∙ rw (add-one column, one_more row)
        (dollar_row base abs_column abs_row (suc (suc row)) (suc row) column (omega arith)
            (omega arith) (omega arith)
          ∙ ground arith)

nonnegative : (z : ℤ) → pos 0 ≤ℤ z → (n : ℕ) × (z ≡ pos n)
nonnegative (pos n) h = (n, refl)
nonnegative (negsuc n) h = absurd (omega arith)

-- A position that was absolute before is relative to the origin again.
relative :
    (sign : Bool) (p o : ℤ) (n : ℕ) (bound : ℤ)
    → (if sign then p else p +ℤ o) ≡ pos n
    → leb_ℤ (pos n) bound ≡ true
    → (if not sign && leb_ℤ (pos n) bound then pos n -ℤ o else pos n) ≡ p
relative true p o n bound e h = sym e
relative false p o n bound e h = rw h (rw (← e) (omega int_laws))

round_trip_at :
    (base a : Address) (origin : AbsAddress) (col row : ℕ)
    → column_of a origin ≡ pos col
    → pos col <ℤ column_upper_bound
    → row_of a origin ≡ pos row
    → pos row ≤ℤ row_upper_bound
    → (b : Address) × (parse_address_excel_a1 base (append_address_a1 a origin) ≡ valid_address b)
      × (to_relative_address b origin false ≡ record a { sheet = base.sheet; abs_sheet = true })
unfolding parse_address_excel_a1 append_address_a1 to_relative_address
round_trip_at base a origin col row ec c er r = (
  record {
    sheet = base.sheet;
    abs_sheet = true;
    row = pos row;
    column = pos col;
    abs_row = a.abs_row;
    abs_column = a.abs_column;
  },
  rw (ec, er)
      (parse-print (record base { abs_sheet = true }) a.abs_row a.abs_column row col (omega arith)
        (omega arith)),
  same (relative a.abs_row a.row origin.row row row_upper_bound er (ground arith))
      (relative a.abs_column a.column origin.column col column_upper_bound ec (ground arith)),
)
  where
    same :
        {r c : ℤ}
        → r ≡ a.row
        → c ≡ a.column
        → ◌≡◌ {A = Address}
            (record {
              sheet = base.sheet;
              abs_sheet = true;
              row = r;
              column = c;
              abs_row = a.abs_row;
              abs_column = a.abs_column;
            })
            (record a { sheet = base.sheet; abs_sheet = true })
    same e f = cc

-- The address of a cell is printed and parsed again on the same cell, where the column lies below its bound
-- and neither position is negative. Then it is the address that was printed, but for the sheet.
pub parse_address_excel_a1-append_address_a1 :
    (base a : Address) (origin : AbsAddress)
    → pos 0 ≤ℤ column_of a origin
    → column_of a origin <ℤ column_upper_bound
    → pos 0 ≤ℤ row_of a origin
    → row_of a origin ≤ℤ row_upper_bound
    → (b : Address) × (parse_address_excel_a1 base (append_address_a1 a origin) ≡ valid_address b)
      × (to_relative_address b origin false ≡ record a { sheet = base.sheet; abs_sheet = true })
unfolding parse_address_excel_a1 append_address_a1
parse_address_excel_a1-append_address_a1 base a origin c0 c1 r0 r1 =
    let col = nonnegative (column_of a origin) c0 in
    let row = nonnegative (row_of a origin) r0 in
    round_trip_at base a origin col.0 row.0 col.1 (rw col.1 at c1) row.1 (rw row.1 at r1)
