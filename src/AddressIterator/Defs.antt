-- ===== src/AddressIterator/Defs.antt =====
-- The node of `abs_address_iterator::const_iterator`, and its steps. An exception is `none`. The asserts,
-- which a release build leaves out, are no part of the steps.
use ixion.Prelude.{Bool, true, false, Option, none, some, if◌then◌else◌}
use ixion.Prelude.Int.{pos, ◌+ℤ◌, ◌-ℤ◌, ltb_ℤ}
use ixion.Address.Defs.{AbsAddress, AbsRange}

-- `rc_direction_t`
pub data Direction : Type 0 where
  horizontal vertical : Direction

-- `impl_node`, less the pointer to its range and its two functions, which follow from the direction.
pub record Node : Type 0 where
  pub position : AbsAddress
  pub end_pos : Bool

unfoldable pub inc_sheet : AbsRange → AbsAddress → Option AbsAddress
inc_sheet range a =
    if ltb_ℤ a.sheet range.last.sheet
    then some
        (record { sheet = a.sheet +ℤ pos 1; row = range.first.row; column = range.first.column })
    else none

unfoldable pub dec_sheet : AbsRange → AbsAddress → Option AbsAddress
dec_sheet range a =
    if ltb_ℤ range.first.sheet a.sheet
    then some
        (record { sheet = a.sheet -ℤ pos 1; row = range.last.row; column = range.last.column })
    else none

-- What the four steps have in common at the edge of a sheet.
abbrev pub after_inc_sheet : AbsAddress → Option AbsAddress → Option Node
after_inc_sheet a (some b) = some (record { position = b; end_pos = false })
after_inc_sheet a none = some (record { position = a; end_pos = true })

abbrev pub after_dec_sheet : Option AbsAddress → Option Node
after_dec_sheet (some b) = some (record { position = b; end_pos = false })
after_dec_sheet none = none

unfoldable pub inc_vertical : AbsRange → Node → Option Node
inc_vertical range n =
    let a = n.position in
    if n.end_pos
    then none
    else if ltb_ℤ a.row range.last.row
    then some (record n { position = record a { row = a.row +ℤ pos 1 } })
    else if ltb_ℤ a.column range.last.column
    then some
        (record n { position = record a { column = a.column +ℤ pos 1; row = range.first.row } })
    else after_inc_sheet a (inc_sheet range a)

unfoldable pub dec_vertical : AbsRange → Node → Option Node
dec_vertical range n =
    let a = n.position in
    if n.end_pos
    then some (record n { end_pos = false })
    else if ltb_ℤ range.first.row a.row
    then some (record n { position = record a { row = a.row -ℤ pos 1 } })
    else if ltb_ℤ range.first.column a.column
    then some
        (record n { position = record a { column = a.column -ℤ pos 1; row = range.last.row } })
    else after_dec_sheet (dec_sheet range a)

unfoldable pub inc_horizontal : AbsRange → Node → Option Node
inc_horizontal range n =
    let a = n.position in
    if n.end_pos
    then none
    else if ltb_ℤ a.column range.last.column
    then some (record n { position = record a { column = a.column +ℤ pos 1 } })
    else if ltb_ℤ a.row range.last.row
    then some
        (record n { position = record a { row = a.row +ℤ pos 1; column = range.first.column } })
    else after_inc_sheet a (inc_sheet range a)

unfoldable pub dec_horizontal : AbsRange → Node → Option Node
dec_horizontal range n =
    let a = n.position in
    if n.end_pos
    then some (record n { end_pos = false })
    else if ltb_ℤ range.first.column a.column
    then some (record n { position = record a { column = a.column -ℤ pos 1 } })
    else if ltb_ℤ range.first.row a.row
    then some
        (record n { position = record a { row = a.row -ℤ pos 1; column = range.last.column } })
    else after_dec_sheet (dec_sheet range a)

-- `impl_node::inc` and `impl_node::dec`, by the functions that the constructor picks.
unfoldable pub inc : Direction → AbsRange → Node → Option Node
inc horizontal = inc_horizontal
inc vertical = inc_vertical

unfoldable pub dec : Direction → AbsRange → Node → Option Node
dec horizontal = dec_horizontal
dec vertical = dec_vertical

-- `cbegin` and `cend`
unfoldable pub cbegin : AbsRange → Node
cbegin range = record { position = range.first; end_pos = false }

unfoldable pub cend : AbsRange → Node
cend range = record { position = range.last; end_pos = true }
