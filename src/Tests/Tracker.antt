-- ===== src/Tests/Tracker.antt =====
-- Runs of the tracker on the R-tree of Boxes, and instances of its theorems.
use ixion.Prelude.{
  ℕ, zero, suc, true, false, not, ◌&&◌, ◌||◌, List, [], ◌∷◌, none, some, ◌≡◌, ◌↔◌, ◌⊎◌, refl, arith,
  elem, distinct,
}
use ixion.Prelude.Int.{pos}
use ixion.Address.Defs.{AbsRange, eq_abs, eq_range}
use ixion.Address.Order.{range_eq}
use ixion.UnorderedSet.{insert, insert_all, IterationOrder}
use ixion.DepthFirstSearch.Graph.{before}
use ixion.DirtyCellTracker.Rtree.{Extent, RangeSet, eq_extent}
use ixion.DirtyCellTracker.Closure.Defs.{mark, mark_all, close}
use ixion.DirtyCellTracker.Closure.Progress.{Dirty}
use ixion.DirtyCellTracker.Defs.{
  extent_of, Tracker, fetch_grid, collect, get_affected_cell_ranges, query_dirty_cells,
  query_and_sort_dirty_cells, add, remove, is_trackable,
}
use ixion.DirtyCellTracker.Record.{tracks}
use ixion.DirtyCellTracker.Remove.{IsWellFormed}
use ixion.DirtyCellTracker.Sheets.{is_at, add-tracks, remove-tracks}
use ixion.DirtyCellTracker.Query.{
  Listens, IsUniverse, get_affected_cell_ranges_iff, query_dirty_cells_lem,
}
use ixion.DirtyCellTracker.Sort.Loop.{Leads}
use ixion.DirtyCellTracker.Sort.{query_and_sort_dirty_cells_lem}
use ixion.Tests.Boxes.{boxes, look_up, scan}

-- The order of the list.
abbrev as_listed : IterationOrder AbsRange range_eq
as_listed = record { order = λ s. s; elem_order = λ a s. refl; distinct_order = λ s h. h }

abbrev cell : ℕ → ℕ → AbsRange
cell row column = record {
  first = record { sheet = pos 0; row = pos row; column = pos column };
  last = record { sheet = pos 0; row = pos row; column = pos column };
}

-- `cell 0 1` listens to `cell 0 0`, and `cell 0 2` to `cell 0 1`.
abbrev chain : Tracker boxes
chain = record {
  grids = ((extent_of (cell 0 0), cell 0 1 ∷ []) ∷ (extent_of (cell 0 1), cell 0 2 ∷ []) ∷ []) ∷ [];
  volatile_cells = cell 3 3 ∷ [];
}

abbrev sources : RangeSet
sources = cell 0 1 ∷ cell 0 2 ∷ []

chain-IsUniverse : IsUniverse boxes chain sources
unfolding look_up
chain-IsUniverse r zero x h = ground arith
chain-IsUniverse r (suc n) x h = absurd (cc)

chain-IsWellFormed : IsWellFormed boxes (chain.grids)
unfolding look_up
chain-IsWellFormed zero x = ground arith
chain-IsWellFormed (suc n) x = refl

-- The results of the two queries on the chain.
query_result :
    query_dirty_cells boxes as_listed 4 chain (cell 0 0 ∷ [])
    ≡ some (cell 0 2 ∷ cell 0 1 ∷ cell 3 3 ∷ [])
unfolding query_dirty_cells get_affected_cell_ranges close mark_all look_up scan insert insert_all
    eq_range collect eq_abs mark fetch_grid extent_of eq_extent
query_result = refl

query_dirty_cells_lem_example :
    (d : RangeSet) × (query_dirty_cells boxes as_listed 4 chain (cell 0 0 ∷ []) ≡ some d)
    × ((x : AbsRange)
        → (elem x d ≡ true) ↔ (
            (elem x (chain.volatile_cells) ≡ true)
            ⊎ Dirty
                (get_affected_cell_ranges boxes chain)
                (insert_all (chain.volatile_cells) (cell 0 0 ∷ []))
                x))
query_dirty_cells_lem_example =
    query_dirty_cells_lem boxes as_listed 4 chain (cell 0 0 ∷ []) sources chain-IsUniverse
      (omega arith)

query_and_sort_dirty_cells_lem_example :
    (sorted : List AbsRange) × (query_and_sort_dirty_cells boxes as_listed 4 chain
        (cell 0 0 ∷ [])
        []
      ≡ some sorted)
    × (distinct sorted ≡ true)
    × ((x : AbsRange)
        → (elem x sorted ≡ true) ↔ (
            (elem x [] ≡ true)
            ⊎ (elem x (chain.volatile_cells) ≡ true)
            ⊎ Dirty
                (get_affected_cell_ranges boxes chain)
                (insert_all [] (insert_all (chain.volatile_cells) (cell 0 0 ∷ [])))
                x))
    × ((u r : AbsRange)
        → elem u sorted ≡ true
        → elem r (get_affected_cell_ranges boxes chain u) ≡ true
        → (before u r sorted ≡ true) ⊎ Leads (get_affected_cell_ranges boxes chain) r u)
query_and_sort_dirty_cells_lem_example =
    query_and_sort_dirty_cells_lem boxes as_listed chain (cell 0 0 ∷ []) [] sources 4
      chain-IsUniverse (omega arith)

get_affected_cell_ranges_iff_example :
    (elem (cell 0 1) (get_affected_cell_ranges boxes chain (cell 0 0)) ≡ true)
    ↔ Listens boxes chain (cell 0 1) (cell 0 0)
get_affected_cell_ranges_iff_example =
    get_affected_cell_ranges_iff boxes chain (cell 0 0) (cell 0 1)

add-tracks_example :
    (is_trackable (cell 5 5) (cell 0 2) ≡ false) × (add boxes chain (cell 5 5) (cell 0 2) ≡ none)
    ⊎ ((t : Tracker boxes) × (add boxes chain (cell 5 5) (cell 0 2) ≡ some t)
        × IsWellFormed boxes (t.grids)
        × (t.volatile_cells ≡ chain.volatile_cells)
        × ((r : AbsRange) (n : ℕ) (x : Extent)
            → tracks boxes (t.grids) r n x ≡ (
                is_at (cell 0 2) n x && eq_range r (cell 5 5) || tracks boxes (chain.grids) r n x)))
add-tracks_example = add-tracks boxes chain (cell 5 5) (cell 0 2) chain-IsWellFormed

remove-tracks_example :
    (is_trackable (cell 0 1) (cell 0 0) ≡ false) × (remove boxes chain (cell 0 1) (cell 0 0) ≡ none)
    ⊎ ((t : Tracker boxes) × (remove boxes chain (cell 0 1) (cell 0 0) ≡ some t)
        × IsWellFormed boxes (t.grids)
        × (t.volatile_cells ≡ chain.volatile_cells)
        × ((r : AbsRange) (n : ℕ) (x : Extent)
            → tracks boxes (t.grids) r n x ≡ (
                not (is_at (cell 0 0) n x && eq_range r (cell 0 1))
                && tracks boxes (chain.grids) r n x)))
remove-tracks_example = remove-tracks boxes chain (cell 0 1) (cell 0 0) chain-IsWellFormed
