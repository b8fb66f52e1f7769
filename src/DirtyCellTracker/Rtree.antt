-- ===== src/DirtyCellTracker/Rtree.antt =====
-- The R-tree that `dirty_cell_tracker` stands on, `mdds::rtree<rc_t, abs_range_set_t>`. It is a library
-- outside the repository: its operations and their documented behaviour are the parameter of the model.
use ixion.Prelude.{
  Bool, true, false, ◌&&◌, ◌||◌, ◌≡◌, List, [], ◌∷◌, Option, none, some, elem, if◌then◌else◌,
}
use ixion.Prelude.Int.{ℤ, leb_ℤ, eqb_ℤ}
use ixion.Address.Defs.{AbsRange}
use ixion.Address.Order.{range_eq}

-- `rtree_type::extent_type`: the start and the end point, each a row and a column.
pub record Extent : Type 0 where
  pub start_row : ℤ
  pub start_column : ℤ
  pub end_row : ℤ
  pub end_column : ℤ

unfoldable pub eq_extent : Extent → Extent → Bool
eq_extent x y =
    eqb_ℤ x.start_row y.start_row
    && (eqb_ℤ x.start_column y.start_column
        && (eqb_ℤ x.end_row y.end_row && eqb_ℤ x.end_column y.end_column))

-- Two boxes share a point.
abbrev pub overlaps : Extent → Extent → Bool
overlaps x y =
    leb_ℤ x.start_row y.end_row
    && (leb_ℤ y.start_row x.end_row
        && (leb_ℤ x.start_column y.end_column && leb_ℤ y.start_column x.end_column))

-- `abs_range_set_t`
abbrev pub RangeSet : Type 0
RangeSet = List AbsRange

-- Some set of the list has the range.
abbrev pub elem_any : AbsRange → List RangeSet → Bool
elem_any r [] = false
elem_any r (s ∷ ss) = elem r s || elem_any r ss

-- The operations that the tracker uses. `search_match` is the first result of a search of type
-- `match`, `assign` a write to that result's value, and `erase` the removal of it.
pub record Rtree : Type 1 where
  pub Tree : Type 0
  pub empty_tree : Tree
  pub search_match : Tree → Extent → Option RangeSet
  pub search_overlap : Tree → Extent → List RangeSet
  pub insert_tree : Tree → Extent → RangeSet → Tree
  pub assign : Tree → Extent → RangeSet → Tree
  pub erase_tree : Tree → Extent → Tree
  pub match_empty : (x : Extent) → search_match empty_tree x ≡ none
  pub match_insert :
      (t : Tree) (x y : Extent) (s : RangeSet)
      → search_match t x ≡ none
      → search_match (insert_tree t x s) y ≡ (if eq_extent x y then some s else search_match t y)
  pub match_assign :
      (t : Tree) (x y : Extent) (old s : RangeSet)
      → search_match t x ≡ some old
      → search_match (assign t x s) y ≡ (if eq_extent x y then some s else search_match t y)
  pub match_erase :
      (t : Tree) (x y : Extent) (old : RangeSet)
      → search_match t x ≡ some old
      → search_match (erase_tree t x) y ≡ (if eq_extent x y then none else search_match t y)
  -- A search of type `overlap` finds what is stored at the boxes that share a point with the one given.
  pub overlap_sound :
      (t : Tree) (x : Extent) (r : AbsRange)
      → elem_any r (search_overlap t x) ≡ true
      → (y : Extent) × (s : RangeSet) × (search_match t y ≡ some s)
        × (overlaps y x ≡ true)
        × (elem r s ≡ true)
  pub overlap_complete :
      (t : Tree) (x y : Extent) (r : AbsRange) (s : RangeSet)
      → search_match t y ≡ some s
      → overlaps y x ≡ true
      → elem r s ≡ true
      → elem_any r (search_overlap t x) ≡ true
