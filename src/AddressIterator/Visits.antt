-- ===== src/AddressIterator/Visits.antt =====
-- A loop over a range: it visits the cells of the range, every one of them, and then the end.
use ixion.Prelude.{
  ℕ, zero, suc, true, false, some, ◌≡◌, ◌↔◌, sym, ◌∙◌, ap, inl, inr, arith, Bool-cases,
}
use ixion.Prelude.Int.{ℤ, pos, pos_part, ◌+ℤ◌, ◌-ℤ◌, ◌≤ℤ◌, ◌<ℤ◌, int_laws}
use ixion.Address.Defs.{AbsAddress, AbsRange, valid_abs, valid_range}
use ixion.AddressIterator.Defs.{
  Direction, horizontal, vertical, Node, inc_sheet, inc_vertical, inc_horizontal, inc, cbegin,
}
use ixion.AddressIterator.States.{Inside, IsNode, test_of_lt, test_self}
use ixion.AddressIterator.Inverse.{
  transpose_range, transpose_node, transpose_result, inc_horizontal-transpose, transpose-IsNode,
  dec-inc,
}

-- The states that a loop from the first cell goes through.
pub data Visits (dir : Direction) (range : AbsRange) : Node → Type 0 where
  begin : Visits dir range (cbegin range)
  next : {n m : Node} → Visits dir range n → inc dir range n ≡ some m → Visits dir range m

offset : (a b : ℤ) → a ≤ℤ b → (k : ℕ) × (b ≡ a +ℤ pos k)
offset a b h = (pos_part (b -ℤ a), unfold ◌+ℤ◌ ◌-ℤ◌ in ground arith)

one_more : (a : ℤ) (k : ℕ) → a +ℤ pos k +ℤ pos 1 ≡ a +ℤ pos (suc k)
one_more a k = omega int_laws

none_more : (a : ℤ) → a +ℤ pos 0 ≡ a
none_more a = omega int_laws

abbrev cell_at : ℤ → ℤ → ℤ → Node
cell_at s r c = record { position = record { sheet = s; row = r; column = c }; end_pos = false }

module _ (range : AbsRange) where
  abbrev Seen : Node → Type 0
  Seen = Visits vertical range

  down : (s r c : ℤ) → r <ℤ range.last.row → Seen (cell_at s r c) → Seen (cell_at s (r +ℤ pos 1) c)
  down s r c lt seen =
      next {m = cell_at s (r +ℤ pos 1) c} seen
        (unfold inc inc_vertical in rw (test_of_lt r range.last.row lt))

  right :
      (s c : ℤ)
      → c <ℤ range.last.column
      → Seen (cell_at s range.last.row c)
      → Seen (cell_at s range.first.row (c +ℤ pos 1))
  right s c lt seen =
      next {m = cell_at s range.first.row (c +ℤ pos 1)} seen (
        unfold inc inc_vertical in rw (test_self range.last.row, test_of_lt c range.last.column lt))

  over :
      (s : ℤ)
      → s <ℤ range.last.sheet
      → Seen (cell_at s range.last.row range.last.column)
      → Seen (cell_at (s +ℤ pos 1) range.first.row range.first.column)
  over s lt seen = next {m = cell_at (s +ℤ pos 1) range.first.row range.first.column} seen (
      unfold inc inc_vertical inc_sheet in
      rw (test_self range.last.row, test_self range.last.column, test_of_lt s range.last.sheet lt))

  column_down :
      (s c : ℤ) (k : ℕ)
      → range.first.row +ℤ pos k ≤ℤ range.last.row
      → Seen (cell_at s range.first.row c)
      → Seen (cell_at s (range.first.row +ℤ pos k) c)
  column_down s c zero h seen = rw (none_more range.first.row) seen
  column_down s c (suc k) h seen = rw (← one_more range.first.row k) (
      down s (range.first.row +ℤ pos k) c (omega int_laws)
        (column_down s c k (omega int_laws) seen))

  -- The cells of a column whose top is visited.
  whole_column :
      (s r c : ℤ)
      → range.first.row ≤ℤ r
      → r ≤ℤ range.last.row
      → Seen (cell_at s range.first.row c)
      → Seen (cell_at s r c)
  whole_column s r c r0 r1 seen =
      let (k, q) = offset range.first.row r r0 in rw q (column_down s c k (rw (← q) r1) seen)

  columns_right :
      (s : ℤ) (k : ℕ)
      → range.first.row ≤ℤ range.last.row
      → range.first.column +ℤ pos k ≤ℤ range.last.column
      → Seen (cell_at s range.first.row range.first.column)
      → Seen (cell_at s range.first.row (range.first.column +ℤ pos k))
  columns_right s zero rows h seen = rw (none_more range.first.column) seen
  columns_right s (suc k) rows h seen = rw (← one_more range.first.column k) (
      right s (range.first.column +ℤ pos k) (omega int_laws) (
        whole_column s range.last.row (range.first.column +ℤ pos k) rows (omega arith)
          (columns_right s k rows (omega int_laws) seen)))

  -- The cells of a sheet whose first cell is visited.
  whole_sheet :
      (s r c : ℤ)
      → range.first.row ≤ℤ r
      → r ≤ℤ range.last.row
      → range.first.column ≤ℤ c
      → c ≤ℤ range.last.column
      → Seen (cell_at s range.first.row range.first.column)
      → Seen (cell_at s r c)
  whole_sheet s r c r0 r1 c0 c1 seen =
      let (k, q) = offset range.first.column c c0 in
      whole_column s r c r0 r1 (rw q (columns_right s k (omega arith) (rw (← q) c1) seen))

  sheets_over :
      (k : ℕ)
      → range.first.row ≤ℤ range.last.row
      → range.first.column ≤ℤ range.last.column
      → range.first.sheet +ℤ pos k ≤ℤ range.last.sheet
      → Seen (cell_at (range.first.sheet +ℤ pos k) range.first.row range.first.column)
  sheets_over zero rows columns h = rw (none_more range.first.sheet) (unfold cbegin in begin)
  sheets_over (suc k) rows columns h = rw (← one_more range.first.sheet k) (
      over (range.first.sheet +ℤ pos k) (omega int_laws) (
        whole_sheet (range.first.sheet +ℤ pos k) range.last.row range.last.column rows (omega arith)
          columns (omega arith) (sheets_over k rows columns (omega int_laws))))

  every_cell : (a : AbsAddress) → Inside range a → Seen (record { position = a; end_pos = false })
  every_cell a (s0, s1, r0, r1, c0, c1) =
      let (k, q) = offset range.first.sheet a.sheet s0 in
      whole_sheet a.sheet a.row a.column r0 r1 c0 c1
        (rw q (sheets_over k (omega arith) (omega arith) (rw (← q) s1)))

some-inj : {n m : Node} → some n ≡ some m → n ≡ m
some-inj h = cc h

stops :
    (dir : Direction) (range : AbsRange) (n : Node) {m : Node}
    → n.end_pos ≡ true
    → inc dir range n ≡ some m
    → ⊥
unfolding inc inc_vertical inc_horizontal
stops vertical range n end goes = cc (rw end at goes)
stops horizontal range n end goes = cc (rw end at goes)

module _ (range : AbsRange) (good : valid_range range ≡ true) where
  corners : Inside range range.first × Inside range range.last
  corners = unfold valid_range valid_abs in ground arith

  -- The end follows the last cell.
  the_end : (n : Node) → n.end_pos ≡ true → n.position ≡ range.last → Visits vertical range n
  the_end n end last = next {m = n} (every_cell range range.last corners.1) (
      unfold inc inc_vertical inc_sheet in
      rw (
        test_self range.last.row,
        test_self range.last.column,
        test_self range.last.sheet,
        ← last,
        ← end,
      ))

  every_node : (n : Node) → IsNode range n → Visits vertical range n
  every_node n (inside, last) = elim (Bool-cases n.end_pos) [
    | inl end ↦ the_end n end (last end)
    | inr below ↦ rw (← below) at (every_cell range n.position inside)
  ]

  nodes_only : (dir : Direction) {n : Node} → Visits dir range n → IsNode range n
  nodes_only dir begin = unfold cbegin in (corners.0, λ h. absurd (cc))
  nodes_only dir (next {n} {m} p goes) = elim (Bool-cases n.end_pos) [
    | inl end ↦ absurd (stops dir range n end goes)
    | inr below ↦
        let (m', goes', node, _) = dec-inc dir range n (nodes_only dir p) below in
        rw (some-inj (sym goes' ∙ goes)) at node
  ]

transposed :
    (range : AbsRange) {n : Node}
    → Visits vertical (transpose_range range) n
    → Visits horizontal range (transpose_node n)
transposed range begin = unfold cbegin in begin
transposed range (next {n} {m} p goes) = next {m = transpose_node m} (transposed range p) (
    unfold inc in
    inc_horizontal-transpose range (transpose_node n) ∙ ap transpose_result (unfold inc in goes))

transpose-valid :
    (range : AbsRange) → valid_range range ≡ true → valid_range (transpose_range range) ≡ true
unfolding valid_range valid_abs
transpose-valid range good = ground arith

-- In both directions, a loop over a valid range goes through the cells of the range, through every one of
-- them, and comes to the end behind the last cell.
pub Visits-iff :
    (dir : Direction) (range : AbsRange)
    → valid_range range ≡ true
    → (n : Node) → Visits dir range n ↔ IsNode range n
Visits-iff vertical range good n = (nodes_only range good vertical, every_node range good n)
Visits-iff horizontal range good n = (
  nodes_only range good horizontal,
  λ h. transposed range (
      every_node (transpose_range range) (transpose-valid range good) (transpose_node n)
        (transpose-IsNode range n h)),
)
