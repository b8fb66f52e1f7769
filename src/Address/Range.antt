-- ===== src/Address/Range.antt =====
-- `abs_range_t::reorder` and the construction of a range from spans: which cells the ranges hold.
use ixion.Prelude.{◌≡◌, ◌↔◌, ◌⊎◌, true, arith}
use ixion.Prelude.Int.{ℤ, pos, negsuc, ◌+ℤ◌, ◌-ℤ◌, ◌≤ℤ◌, ◌<ℤ◌}
use ixion.Address.Defs.{
  AbsAddress, AbsRange, valid_abs, valid_range, contains, reorder, swap_if_greater,
}

-- `c` lies between `a` and `b`, whichever is the smaller.
abbrev pub IsBetween : ℤ → ℤ → ℤ → Type 0
IsBetween a b c = (a ≤ℤ c) × (c ≤ℤ b) ⊎ (b ≤ℤ c) × (c ≤ℤ a)

-- What `contains` says of one coordinate.
abbrev Within : ℤ → ℤ → ℤ → Type 0
Within a b c = (a ≤ℤ c) × (c ≤ℤ b)

contains_iff :
    (r : AbsRange) (a : AbsAddress)
    → (contains r a ≡ true) ↔ (
        Within r.first.sheet r.last.sheet a.sheet
        × Within r.first.row r.last.row a.row
        × Within r.first.column r.last.column a.column)
unfolding contains
contains_iff r a = ground arith

swap-IsBetween :
    (a b c : ℤ) → Within (swap_if_greater a b).0 (swap_if_greater a b).1 c ↔ IsBetween a b c
swap-IsBetween a b c = ground arith

-- A reordered range holds exactly the cells whose coordinates lie between those of the two corners,
-- in whichever order the corners stand.
pub contains-reorder :
    (r : AbsRange) (a : AbsAddress)
    → (contains (reorder r) a ≡ true) ↔ (
        IsBetween r.first.sheet r.last.sheet a.sheet
        × IsBetween r.first.row r.last.row a.row
        × IsBetween r.first.column r.last.column a.column)
unfolding reorder
contains-reorder r a =
    let sheet = swap-IsBetween r.first.sheet r.last.sheet a.sheet in
    let row = swap-IsBetween r.first.row r.last.row a.row in
    let column = swap-IsBetween r.first.column r.last.column a.column in
    let inside = contains_iff (reorder r) a in
    (
      (λ h. let p = inside.0 h in (sheet.0 p.0, row.0 p.1, column.0 p.2)),
      (λ p. inside.1 (sheet.1 p.0, row.1 p.1, column.1 p.2)),
    )

-- From two valid corners `reorder` makes a valid range, and it leaves a valid range as it is.
pub reorder-valid :
    (r : AbsRange)
    → valid_abs r.first ≡ true
    → valid_abs r.last ≡ true
    → (valid_range (reorder r) ≡ true) × (valid_range r ≡ true → reorder r ≡ r)
unfolding reorder valid_range
reorder-valid r h k = ground arith

-- The integer is none of 32 bits.
abbrev pub IsOver : ℤ → Type 0
IsOver z = (z <ℤ negsuc 2147483647) ⊎ (pos 2147483647 <ℤ z)

-- A step of `start + span - 1` leaves the 32 bits.
abbrev pub LastIsOver : ℤ → ℤ → Type 0
LastIsOver start span = IsOver (start +ℤ span) ⊎ IsOver (start +ℤ span -ℤ pos 1)
