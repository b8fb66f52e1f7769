-- ===== src/AddressIterator/States.antt =====
-- The states of an iterator, and the tests that its steps make.
use ixion.Prelude.{true, false, ◌≡◌, arith}
use ixion.Prelude.Int.{ℤ, pos, ◌+ℤ◌, ◌-ℤ◌, ◌≤ℤ◌, ◌<ℤ◌, ltb_ℤ, int_laws}
use ixion.Address.Defs.{AbsAddress, AbsRange}
use ixion.AddressIterator.Defs.{Node}

-- The cell lies in the range.
abbrev pub Inside : AbsRange → AbsAddress → Type 0
Inside range a =
    (range.first.sheet ≤ℤ a.sheet)
    × (a.sheet ≤ℤ range.last.sheet)
    × (range.first.row ≤ℤ a.row)
    × (a.row ≤ℤ range.last.row)
    × (range.first.column ≤ℤ a.column)
    × (a.column ≤ℤ range.last.column)

-- The states of an iterator over the range: a cell of it, or the end, where the cell is the last one.
abbrev pub IsNode : AbsRange → Node → Type 0
IsNode range n = Inside range n.position × (n.end_pos ≡ true → n.position ≡ range.last)

pub step_back : (x : ℤ) → x +ℤ pos 1 -ℤ pos 1 ≡ x
step_back x = omega int_laws

pub step_on : (x : ℤ) → x -ℤ pos 1 +ℤ pos 1 ≡ x
step_on x = omega int_laws

pub lt_of_test : (a b : ℤ) → ltb_ℤ a b ≡ true → a <ℤ b
lt_of_test a b h = ground arith

pub le_of_test : (a b : ℤ) → ltb_ℤ a b ≡ false → b ≤ℤ a
le_of_test a b h = ground arith

pub test_of_lt : (a b : ℤ) → a <ℤ b → ltb_ℤ a b ≡ true
test_of_lt a b h = ground arith

pub test_of_le : (a b : ℤ) → b ≤ℤ a → ltb_ℤ a b ≡ false
test_of_le a b h = ground arith

-- Behind a step up, a step down is possible.
pub test-step : (a x : ℤ) → a ≤ℤ x → ltb_ℤ a (x +ℤ pos 1) ≡ true
test-step a x h = test_of_lt a (x +ℤ pos 1) (omega int_laws)

pub test-back : (x b : ℤ) → x ≤ℤ b → ltb_ℤ (x -ℤ pos 1) b ≡ true
test-back x b h = test_of_lt (x -ℤ pos 1) b (omega int_laws)

pub squeeze : (a b : ℤ) → a ≤ℤ b → ltb_ℤ a b ≡ false → a ≡ b
squeeze a b h k = ground arith

pub test_self : (a : ℤ) → ltb_ℤ a a ≡ false
test_self a = ground arith
