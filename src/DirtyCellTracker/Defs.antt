-- ===== src/DirtyCellTracker/Defs.antt =====
-- The state of `dirty_cell_tracker` and its operations.
use ixion.Prelude.{
  ℕ, zero, suc, ◌-◌, Bool, true, false, not, ◌&&◌, ◌||◌, List, [], ◌∷◌, Option, none, some,
  get_elem?, set, if◌then◌else◌,
}
use ixion.Prelude.Int.{ℤ, pos, negsuc, pos_part, eqb_ℤ}
use ixion.Address.Defs.{AbsRange, valid_range, all_columns, all_rows}
use ixion.Address.Order.{range_eq, range_ord}
use ixion.UnorderedSet.{insert, insert_all, erase, IterationOrder}
use ixion.DepthFirstSearch.Defs.{run}
use ixion.DirtyCellTracker.Closure.Defs.{mark_all, close, close_related}
use ixion.DirtyCellTracker.Rtree.{Extent, RangeSet, Rtree}

-- The box of a range on one sheet.
unfoldable pub extent_of : AbsRange → Extent
extent_of r = record {
  start_row = r.first.row;
  start_column = r.first.column;
  end_row = r.last.row;
  end_column = r.last.column;
}

abbrev pub is_empty : RangeSet → Bool
is_empty [] = true
is_empty (r ∷ s) = false

-- The three guards of `add` and `remove`; both throw `std::invalid_argument` where this fails.
unfoldable pub is_trackable : AbsRange → AbsRange → Bool
is_trackable src dest =
    valid_range src
    && (eqb_ℤ src.first.sheet src.last.sheet
        && (valid_range dest && not (all_columns dest || all_rows dest)))

abbrev pub first_sheet : AbsRange → ℕ
first_sheet r = pos_part r.first.sheet

-- The number of sheets of a valid range.
abbrev pub sheet_count : AbsRange → ℕ
sheet_count r = suc (pos_part r.last.sheet) - pos_part r.first.sheet

module _ (R : Rtree) where
  open R use {Tree, empty_tree, search_match, search_overlap, insert_tree, assign, erase_tree}

  -- `dirty_cell_tracker::impl`: a tree for each sheet, and the volatile cells.
  pub record Tracker : Type 0 where
    pub grids : List Tree
    pub volatile_cells : RangeSet

  -- The resize of `fetch_grid_or_resize`, which makes index `n` one of the trees.
  unfoldable pub resize : ℕ → List Tree → List Tree
  resize zero [] = empty_tree ∷ []
  resize zero (t ∷ g) = t ∷ g
  resize (suc n) [] = empty_tree ∷ resize n []
  resize (suc n) (t ∷ g) = t ∷ resize n g

  -- `fetch_grid`; a negative sheet becomes an index past every deque.
  unfoldable pub fetch_grid : List Tree → ℤ → Option Tree
  fetch_grid g (pos n) = get_elem? g n
  fetch_grid g (negsuc n) = none

  -- The body of the loop of `add`, on one sheet.
  unfoldable pub add_on_sheet : AbsRange → Extent → ℕ → List Tree → List Tree
  add_on_sheet src box sheet g =
      let grown = resize sheet g in
      elim (get_elem? grown sheet) [
        | none ↦ grown
        | some tree ↦ elim (search_match tree box) [
          | none ↦ set grown sheet (insert_tree tree box (insert src []))
          | some listener ↦ set grown sheet (assign tree box (insert src listener))
        ]
      ]

  -- The body of the loop of `remove`. The write through the iterator's reference comes first, and the
  -- emptied set is then taken out of the tree.
  unfoldable pub remove_on_sheet : AbsRange → Extent → ℕ → List Tree → List Tree
  remove_on_sheet src box sheet g = elim (get_elem? g sheet) [
    | none ↦ g
    | some tree ↦ elim (search_match tree box) [
      | none ↦ g
      | some listener ↦
          let left = erase src listener in
          let written = assign tree box left in
          set g sheet (if is_empty left then erase_tree written box else written)
    ]
  ]

  -- `for (sheet = first; sheet <= last; ++sheet)`, with the number of rounds.
  unfoldable pub for_sheets : (ℕ → List Tree → List Tree) → ℕ → ℕ → List Tree → List Tree
  for_sheets body zero sheet g = g
  for_sheets body (suc k) sheet g = for_sheets body k (suc sheet) (body sheet g)

  -- `add`
  unfoldable pub add : Tracker → AbsRange → AbsRange → Option Tracker
  add t src dest =
      if is_trackable src dest
      then some (record t {
        grids =
            for_sheets (add_on_sheet src (extent_of dest)) (sheet_count dest) (first_sheet dest)
              t.grids;
      })
      else none

  -- `remove`
  unfoldable pub remove : Tracker → AbsRange → AbsRange → Option Tracker
  remove t src dest =
      if is_trackable src dest
      then some (record t {
        grids =
            for_sheets (remove_on_sheet src (extent_of dest)) (sheet_count dest) (first_sheet dest)
              t.grids;
      })
      else none

  -- `add_volatile`
  unfoldable pub add_volatile : Tracker → AbsRange → Tracker
  add_volatile t r = record t { volatile_cells = insert r t.volatile_cells }

  -- `remove_volatile`
  unfoldable pub remove_volatile : Tracker → AbsRange → Tracker
  remove_volatile t r = record t { volatile_cells = erase r t.volatile_cells }

  -- The loop of `get_affected_cell_ranges` over the results of the search.
  unfoldable pub collect : List RangeSet → RangeSet → RangeSet
  collect [] ranges = ranges
  collect (s ∷ ss) ranges = collect ss (insert_all s ranges)

  -- `get_affected_cell_ranges`
  unfoldable pub get_affected_cell_ranges : Tracker → AbsRange → RangeSet
  get_affected_cell_ranges t r = elim (fetch_grid t.grids r.first.sheet) [
    | none ↦ []
    | some tree ↦ collect (search_overlap tree (extent_of r)) []
  ]

  module _ (turns : IterationOrder AbsRange range_eq) where
    -- `query_dirty_cells` of a set of modified cells, with `fuel` for its rounds.
    unfoldable pub query_dirty_cells : ℕ → Tracker → RangeSet → Option RangeSet
    query_dirty_cells fuel t modified =
        close turns (get_affected_cell_ranges t) fuel (insert_all t.volatile_cells modified)
          (insert_all t.volatile_cells [])

    -- The ranges that `query_and_sort_dirty_cells` finds in its first round.
    unfoldable pub first_round : Tracker → RangeSet → RangeSet × RangeSet
    first_round t modified =
        mark_all turns (get_affected_cell_ranges t) (turns.order modified) [] []

    -- Those that its loop starts from. A null pointer for the formula cells acts as an empty set.
    unfoldable pub initial_dirty_cells : Tracker → RangeSet → RangeSet → RangeSet
    initial_dirty_cells t modified formula_cells =
        insert_all formula_cells (insert_all t.volatile_cells (first_round t modified).1)

    -- `query_and_sort_dirty_cells`
    unfoldable pub query_and_sort_dirty_cells :
        ℕ → Tracker → RangeSet → RangeSet → Option (List AbsRange)
    query_and_sort_dirty_cells fuel t modified formula_cells =
        elim (close_related turns (get_affected_cell_ranges t) fuel
          (initial_dirty_cells t modified formula_cells) (first_round t modified).0 []) [
            | none ↦ none
            | some (dirty, rels) ↦
                run (turns.order (insert_all formula_cells (insert_all t.volatile_cells dirty)))
                  rels
          ]
