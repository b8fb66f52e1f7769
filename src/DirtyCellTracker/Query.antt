-- ===== src/DirtyCellTracker/Query.antt =====
-- `query_dirty_cells`: the fuel is enough, and the result is what a change of the modified cells and of
-- the volatile cells makes dirty.
use ixion.Prelude.{
  ℕ, ◌+◌, ◌≤◌, true, ◌||◌, List, [], ◌∷◌, some, ◌≡◌, ◌↔◌, ◌⊎◌, inl, inr, refl, arith, elem,
  get_elem?, length, Option-cases, Eq,
}
use ixion.Prelude.Int.{ℤ, pos, negsuc}
use ixion.Address.Defs.{AbsRange}
use ixion.Address.Order.{range_eq}
use ixion.UnorderedSet.{insert_all, elem-insert_all, IterationOrder}
use ixion.DirtyCellTracker.Rtree.{Extent, RangeSet, Rtree, overlaps, elem_any}
use ixion.DirtyCellTracker.Defs.{
  extent_of, Tracker, fetch_grid, collect, get_affected_cell_ranges, query_dirty_cells,
}
use ixion.DirtyCellTracker.Record.{tracks}
use ixion.DirtyCellTracker.Closure.Close.{rounds, close_lem}
use ixion.Prelude.Missing.{missing}
use ixion.DirtyCellTracker.Closure.Progress.{Dirty, Progress}

pub missing-le {ℓ} : {V : Type ℓ} ⦃e : Eq V⦄ (us dirty : List V) → missing us dirty ≤ length us
missing-le [] dirty = omega arith
missing-le (u ∷ us) dirty = ground (arith, missing-le us dirty)

pub rounds-le {ℓ} : {V : Type ℓ} (cur : List V) → rounds cur ≤ 2
rounds-le [] = omega arith
rounds-le (c ∷ cur) = omega arith

module _ (R : Rtree) where
  open R use {Tree, search_match, search_overlap, overlap_sound, overlap_complete}

  elem-collect :
      (r : AbsRange) (ss : List RangeSet) (s : RangeSet)
      → elem r (collect R ss s) ≡ (elem_any r ss || elem r s)
  unfolding collect
  elem-collect r [] s = refl
  elem-collect r (x ∷ ss) s =
      ground (arith, elem-collect r ss (insert_all x s), elem-insert_all r x s)

  -- `listens t r c`: on the first sheet of `c` the range `r` listens to a box that shares a cell with `c`.
  pub data Listens (t : Tracker R) (r c : AbsRange) : Type 0 where
    listens :
        (n : ℕ) (x : Extent)
        → c.first.sheet ≡ pos n
        → overlaps x (extent_of c) ≡ true
        → tracks R t.grids r n x ≡ true
        → Listens t r c

  fetch_grid-some :
      (g : List Tree) (z : ℤ) {tree : Tree}
      → fetch_grid R g z ≡ some tree
      → (n : ℕ) × (z ≡ pos n) × (get_elem? g n ≡ some tree)
  unfolding fetch_grid
  fetch_grid-some g (pos n) h = (n, refl, h)
  fetch_grid-some g (negsuc n) h = absurd (cc)

  -- A change of `c` affects exactly the ranges that listen to a box that shares a cell with it.
  pub get_affected_cell_ranges_iff :
      (t : Tracker R) (c r : AbsRange)
      → (elem r (get_affected_cell_ranges R t c) ≡ true) ↔ Listens t r c
  unfolding get_affected_cell_ranges
  get_affected_cell_ranges_iff t c r = (there, back)
    where
      there : elem r (get_affected_cell_ranges R t c) ≡ true → Listens t r c
      there h = elim (Option-cases (fetch_grid R t.grids c.first.sheet)) [
        | inl no_tree ↦ absurd (cc (rw (no_tree, get_affected_cell_ranges) at h))
        | inr (tree, q) ↦
            let (n, on_sheet, at) = fetch_grid-some t.grids c.first.sheet q in
            let h' = rw (q, get_affected_cell_ranges) at h in
            let (x, s, stored, shares, m) =
              overlap_sound tree (extent_of c) r
                (ground (arith, h', elem-collect r (search_overlap tree (extent_of c)) [])) in
            listens n x on_sheet shares (rw (at, stored) m)
      ]

      back : Listens t r c → elem r (get_affected_cell_ranges R t c) ≡ true
      back (listens n x on_sheet shares tracked) = elim (Option-cases (get_elem? t.grids n)) [
        | inl no_tree ↦ absurd (cc (rw no_tree at tracked))
        | inr (tree, at) ↦ elim (Option-cases (search_match tree x)) [
          | inl no_set ↦ absurd (cc (rw (at, no_set) at tracked))
          | inr (s, stored) ↦
              let q : fetch_grid R t.grids c.first.sheet ≡ some tree =
                rw on_sheet (unfold fetch_grid in at) in
              let found_r =
                overlap_complete tree (extent_of c) x r s stored shares
                  (rw (at, stored) at tracked) in
              rw (q, get_affected_cell_ranges)
                (ground (arith, found_r, elem-collect r (search_overlap tree (extent_of c)) []))
        ]
      ]

  -- The sources on record are all in the list.
  abbrev pub IsUniverse : Tracker R → List AbsRange → Type 0
  IsUniverse t us =
      (r : AbsRange) (n : ℕ) (x : Extent) → tracks R t.grids r n x ≡ true → elem r us ≡ true

  pub affected_in_universe :
      (t : Tracker R) (us : List AbsRange)
      → IsUniverse t us
      → (r c : AbsRange) → elem r (get_affected_cell_ranges R t c) ≡ true
      → elem r us ≡ true
  affected_in_universe t us within r c h = elim ((get_affected_cell_ranges_iff t c r).0 h) [
    | listens n x on_sheet shares tracked ↦ within r n x tracked
  ]

  module _ (turns : IterationOrder AbsRange range_eq) where
    abbrev seeds : Tracker R → RangeSet → RangeSet
    seeds t modified = insert_all t.volatile_cells modified

    -- With two rounds more than there are sources on record, `query_dirty_cells` returns. Its result
    -- has exactly the volatile cells, and the ranges that are affected by a modified or a volatile cell,
    -- at once or through a chain of other affected ranges.
    pub query_dirty_cells_lem :
        (fuel : ℕ) (t : Tracker R) (modified : RangeSet) (us : List AbsRange)
        → IsUniverse t us
        → length us + 2 ≤ fuel
        → (d : RangeSet) × (query_dirty_cells R turns fuel t modified ≡ some d)
          × ((x : AbsRange)
              → (elem x d ≡ true) ↔ (
                  (elem x t.volatile_cells ≡ true)
                  ⊎ Dirty (get_affected_cell_ranges R t) (insert_all t.volatile_cells modified) x))
    unfolding query_dirty_cells
    query_dirty_cells_lem fuel t modified us within room =
        let (d, runs, exact) =
          close_lem turns (get_affected_cell_ranges R t) us (seeds t modified) t.volatile_cells
            (affected_in_universe t us within) fuel (seeds t modified)
            (insert_all t.volatile_cells [])
            (omega
              (arith, missing-le us (insert_all t.volatile_cells []), rounds-le (seeds t modified)))
            start in
        (d, runs, exact)
      where
        start :
            Progress
              (get_affected_cell_ranges R t)
              (seeds t modified)
              t.volatile_cells
              (seeds t modified)
              (insert_all t.volatile_cells [])
        start = record {
          sound = λ x m. inl (ground (arith, elem-insert_all x t.volatile_cells []));
          cur_sound = λ x m. inl m;
          complete = λ u m. inl (elim m [
            | inl s ↦ s
            | inr d ↦ ground (
              arith,
              elem-insert_all u t.volatile_cells [],
              elem-insert_all u t.volatile_cells modified,
            )
          ]);
          grows = λ x m. ground (arith, elem-insert_all x t.volatile_cells []);
        }
