-- ===== src/DirtyCellTracker/Sort.antt =====
-- `query_and_sort_dirty_cells`: its result holds the dirty ranges once each, in an order of calculation.
pub mod Loop
use ixion.Prelude.{
  ℕ, ◌+◌, ◌≤◌, true, ◌||◌, List, [], some, ◌≡◌, ◌↔◌, ◌⊎◌, inl, inr, ◌∙◌, arith, elem, distinct,
  length, Bool-cases,
}
use ixion.Address.Defs.{AbsRange}
use ixion.Address.Order.{range_eq, range_ord}
use ixion.UnorderedSet.{insert_all, elem-insert_all, IterationOrder}
use ixion.DepthFirstSearch.Graph.{before}
use ixion.DirtyCellTracker.Rtree.{RangeSet, Rtree}
use ixion.DirtyCellTracker.Defs.{
  Tracker, get_affected_cell_ranges, first_round, initial_dirty_cells, query_and_sort_dirty_cells,
}
use ixion.DirtyCellTracker.Closure.Marks.{affects, affects-elem, elem-affects, elem_round}
use ixion.DirtyCellTracker.Closure.Progress.{Dirty, from_seed, onward}
use ixion.DirtyCellTracker.Query.{IsUniverse}
use ixion.DirtyCellTracker.Sort.Loop.{Leads, elem-initial, sorts_from_first_round}

module _ (R : Rtree) (turns : IterationOrder AbsRange range_eq) where
  module _ (t : Tracker R) (modified formula_cells us : RangeSet) where
    abbrev affected : AbsRange → RangeSet
    affected = get_affected_cell_ranges R t

    abbrev initial : RangeSet
    initial = initial_dirty_cells R turns t modified formula_cells

    -- What a query is given, with the volatile cells.
    abbrev inputs : RangeSet
    inputs = insert_all formula_cells (insert_all t.volatile_cells modified)

    elem-inputs :
        (x : AbsRange)
        → elem x inputs ≡ (elem x formula_cells || (elem x t.volatile_cells || elem x modified))
    elem-inputs x = ground (
      arith,
      elem-insert_all x formula_cells (insert_all t.volatile_cells modified),
      elem-insert_all x t.volatile_cells modified,
    )

    -- The first round finds what the modified cells affect.
    elem-first_round :
        (x : AbsRange) → elem x (first_round R turns t modified).1 ≡ affects affected x modified
    unfolding first_round
    elem-first_round x = let (d, n) = elem_round turns affected x modified [] in ground (arith, n)

    initial-Dirty :
        (x : AbsRange)
        → elem x initial ≡ true
        → (elem x formula_cells ≡ true) ⊎ (elem x t.volatile_cells ≡ true) ⊎ Dirty affected inputs x
    initial-Dirty x h = elim (Bool-cases (elem x formula_cells)) [
      | inl f ↦ inl f
      | inr no_f ↦ elim (Bool-cases (elem x t.volatile_cells)) [
        | inl v ↦ inr (inl v)
        | inr no_v ↦
            let first : affects affected x modified ≡ true =
              ground (
                arith,
                h,
                elem-initial R turns t modified formula_cells us x,
                elem-first_round x,
              ) in
            let (u, at, m) = affects-elem affected x modified first in
            inr (inr (from_seed u (ground (arith, at, elem-inputs u)) m))
      ]
    ]

    Dirty-inputs : {x : AbsRange} → Dirty affected initial x → Dirty affected inputs x
    Dirty-inputs (from_seed u at m) = elim (initial-Dirty u at) [
      | inl f ↦ from_seed u (ground (arith, f, elem-inputs u)) m
      | inr (inl v) ↦ from_seed u (ground (arith, v, elem-inputs u)) m
      | inr (inr d) ↦ onward u d m
    ]
    Dirty-inputs (onward u d m) = onward u (Dirty-inputs d) m

    in_initial :
        (x : AbsRange)
        → (elem x formula_cells ≡ true)
          ⊎ (elem x t.volatile_cells ≡ true)
          ⊎ (affects affected x modified ≡ true)
        → elem x initial ≡ true
    in_initial x h =
        ground (arith, h, elem-initial R turns t modified formula_cells us x, elem-first_round x)

    Dirty-initial :
        {x : AbsRange}
        → Dirty affected inputs x
        → (elem x initial ≡ true) ⊎ Dirty affected initial x
    Dirty-initial {x} (from_seed u at m) = elim (Bool-cases (elem u modified)) [
      | inl given ↦ inl (in_initial x (inr (inr (elem-affects affected x u modified given m))))
      | inr other ↦ inr (from_seed u (in_initial u (ground (arith, at, other, elem-inputs u))) m)
    ]
    Dirty-initial (onward u d m) = elim (Dirty-initial d) [
      | inl i ↦ inr (from_seed u i m)
      | inr r ↦ inr (onward u r m)
    ]

    -- With two rounds more than there are sources on record, `query_and_sort_dirty_cells` returns a list with no range
    -- twice. It has exactly the formula cells that were given, the volatile cells, and the ranges that a change of one
    -- of these or of a modified cell affects, at once or through a chain of other affected ranges. Where a change of
    -- `u` affects `r` and `u` is on the list, `u` stands in front of `r`, unless a change of `r` makes `u` dirty in
    -- turn.
    pub query_and_sort_dirty_cells_lem :
        (fuel : ℕ)
        → IsUniverse R t us
        → length us + 2 ≤ fuel
        → (sorted : List AbsRange) × (query_and_sort_dirty_cells R turns fuel t modified
              formula_cells
            ≡ some sorted)
          × (distinct sorted ≡ true)
          × ((x : AbsRange)
              → (elem x sorted ≡ true) ↔ (
                  (elem x formula_cells ≡ true)
                  ⊎ (elem x t.volatile_cells ≡ true)
                  ⊎ Dirty affected
                      (insert_all formula_cells (insert_all t.volatile_cells modified))
                      x))
          × ((u r : AbsRange)
              → elem u sorted ≡ true
              → elem r (affected u) ≡ true
              → (before u r sorted ≡ true) ⊎ Leads affected r u)
    query_and_sort_dirty_cells_lem fuel within room =
        let (sorted, runs, once, same, ordered) =
          sorts_from_first_round R turns t modified formula_cells us fuel within room in
        (
          sorted,
          runs,
          once,
          (λ x. (
            (λ m. elim ((same x).0 m) [
              | inl i ↦ initial-Dirty x i
              | inr d ↦ inr (inr (Dirty-inputs d))
            ]),
            (λ h. (same x).1 (elim h [
              | inl f ↦ inl (in_initial x (inl f))
              | inr (inl v) ↦ inl (in_initial x (inr (inl v)))
              | inr (inr d) ↦ Dirty-initial d
            ])),
          )),
          ordered,
        )
