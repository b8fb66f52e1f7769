-- ===== src/DirtyCellTracker/Sort/Loop.antt =====
-- `query_and_sort_dirty_cells` from its first round on: the ranges it starts its loop from, and their order.
use ixion.Prelude.{
  ℕ, ◌+◌, ◌≤◌, true, ◌||◌, List, [], some, ◌≡◌, ◌↔◌, ◌⊎◌, inl, inr, refl, sym, ◌∙◌, arith, elem,
  distinct, length, Eq,
}
use ixion.Address.Defs.{AbsRange}
use ixion.Address.Order.{range_eq, range_ord}
use ixion.UnorderedSet.{insert_all, elem-insert_all, insert_all-distinct, IterationOrder}
use ixion.DepthFirstSearch.Defs.{get_precedent_cells, find}
use ixion.DepthFirstSearch.Graph.{Edge, Reach, here, step, before}
use ixion.DepthFirstSearch.Run.{run-sorts}
use ixion.DirtyCellTracker.Rtree.{RangeSet, Rtree}
use ixion.DirtyCellTracker.Defs.{
  Tracker, get_affected_cell_ranges, first_round, initial_dirty_cells, query_and_sort_dirty_cells,
}
use ixion.DirtyCellTracker.Closure.Marks.{elem_round}
use ixion.DirtyCellTracker.Closure.Progress.{Dirty, Progress, Progress-end}
use ixion.DirtyCellTracker.Closure.Recorded.{Recorded, close_related_lem}
use ixion.DirtyCellTracker.Closure.Related.{mark_all-distinct}
use ixion.DirtyCellTracker.Query.{IsUniverse, affected_in_universe, missing-le, rounds-le}

-- A change of the first range makes the other dirty, through a chain of affected ranges.
pub data Leads {ℓ} {V : Type ℓ} ⦃e : Eq V⦄ (affected : V → List V) (from : V) : V → Type ℓ where
  arrived : Leads affected from from
  onto :
      (u : V) {w : V} → Leads affected from u → elem w (affected u) ≡ true → Leads affected from w

module _ {ℓ} {V : Type ℓ} ⦃e : Eq V⦄ (affected : V → List V) where
  prepend : (u v : V) {w : V} → elem v (affected u) ≡ true → Leads affected v w → Leads affected u w
  prepend u v edge arrived = onto u arrived edge
  prepend u v edge (onto x p edge') = onto x (prepend u v edge p) edge'

  -- A walk from a range to its dependents is such a chain, read backwards.
  Leads-of_Reach :
      (rels : List (V × List V))
      → ((u r : V) → elem u (get_precedent_cells r rels) ≡ true → elem r (affected u) ≡ true)
      → {u w : V} → Reach rels u w
      → Leads affected w u
  Leads-of_Reach rels back here = arrived
  Leads-of_Reach rels back (step {v} {w} p edge) =
      prepend w v (back w v edge) (Leads-of_Reach rels back p)

module _ (R : Rtree) (turns : IterationOrder AbsRange range_eq) where
  module _ (t : Tracker R) (modified formula_cells us : RangeSet) where
    abbrev affected : AbsRange → RangeSet
    affected = get_affected_cell_ranges R t

    abbrev initial : RangeSet
    initial = initial_dirty_cells R turns t modified formula_cells

    abbrev first_dirty : RangeSet
    first_dirty = (first_round R turns t modified).0

    pub elem-initial :
        (x : AbsRange)
        → elem x initial ≡ (
            elem x formula_cells
            || (elem x t.volatile_cells || elem x (first_round R turns t modified).1))
    unfolding initial_dirty_cells
    elem-initial x = ground (
      arith,
      elem-insert_all x formula_cells
          (insert_all t.volatile_cells (first_round R turns t modified).1),
      elem-insert_all x t.volatile_cells (first_round R turns t modified).1,
    )

    pub first_round_same :
        (x : AbsRange)
        → elem x (first_round R turns t modified).0 ≡ elem x (first_round R turns t modified).1
    unfolding first_round
    first_round_same x =
        let (d, n) = elem_round turns affected x modified [] in ground (arith, d, n)

    start : Recorded turns affected initial first_dirty initial first_dirty []
    start = record {
      progress = record {
        sound = λ x m. inl m;
        cur_sound = λ x m. inl m;
        complete = λ u m. inl (in_initial u m);
        grows = λ x m. m;
      };
      no_twice = first_distinct;
      recorded = λ u r m edge. inl (in_initial u m);
      related = λ u r m. absurd (no_relation u r m);
      waiting = λ u m. inl m;
    }
      where
        in_initial :
            (u : AbsRange)
            → (elem u initial ≡ true) ⊎ (elem u first_dirty ≡ true)
            → elem u initial ≡ true
        in_initial u (inl m) = m
        in_initial u (inr m) = ground (arith, m, elem-initial u, first_round_same u)

        no_relation : (u r : AbsRange) → elem u (get_precedent_cells r []) ≡ true → ⊥
        no_relation u r = unfold get_precedent_cells find in λ m. cc m

        first_distinct : distinct first_dirty ≡ true
        first_distinct =
            unfold first_round in mark_all-distinct turns affected (turns.order modified) [] [] refl

    -- With two rounds more than there are sources on record, `query_and_sort_dirty_cells` returns a list
    -- with no range twice, which has exactly the ranges that its loop starts from and what those make
    -- dirty. Where a change of `u` affects `r` and both are on the list, `u` stands in front of `r`, unless
    -- a change of `r` makes `u` dirty in turn.
    pub sorts_from_first_round :
        (fuel : ℕ)
        → IsUniverse R t us
        → length us + 2 ≤ fuel
        → (sorted : List AbsRange) × (query_and_sort_dirty_cells R turns fuel t modified
              formula_cells
            ≡ some sorted)
          × (distinct sorted ≡ true)
          × ((x : AbsRange)
              → (elem x sorted ≡ true) ↔ ((elem x initial ≡ true) ⊎ Dirty affected initial x))
          × ((u r : AbsRange)
              → elem u sorted ≡ true
              → elem r (affected u) ≡ true
              → (before u r sorted ≡ true) ⊎ Leads affected r u)
    unfolding query_and_sort_dirty_cells
    sorts_from_first_round fuel within room =
        let (dirty, rels, closes, rec) =
          close_related_lem turns affected us initial first_dirty
            (affected_in_universe R t us within) fuel initial first_dirty []
            (omega (arith, missing-le us first_dirty, rounds-le initial)) start in
        let cells = turns.order (insert_all formula_cells (insert_all t.volatile_cells dirty)) in
        let members = in_cells dirty (λ x m. rec.progress.grows x m) in
        let exact = Progress-end affected initial first_dirty dirty rec.progress in
        let unique = turns.distinct_order _ (
          insert_all-distinct formula_cells _
            (insert_all-distinct t.volatile_cells dirty rec.no_twice)) in
        let closed = λ (u v : AbsRange) (m : elem u cells ≡ true) (edge : Edge rels u v).
          (members v).1 (rec.related v u edge).1 in
        let (sorted, runs, once, same, ordered) = run-sorts cells rels unique closed in
        (
          sorted,
          rw (closes, query_and_sort_dirty_cells) runs,
          once,
          (λ x. (
            (λ m. elim ((members x).0 (sym (same x) ∙ m)) [
              | inl i ↦ inl i
              | inr d ↦ elim ((exact x).0 d) [
                | inl f ↦ inl (ground (arith, f, elem-initial x, first_round_same x))
                | inr w ↦ inr w
              ]
            ]),
            (λ h.
                same x
                ∙ (members x).1 (elim h [ inl i ↦ inl i | inr w ↦ inr ((exact x).1 (inr w)) ])),
          )),
          (λ u r m edge.
              let at = (members u).0 (sym (same u) ∙ m) in
              let behind : elem u (get_precedent_cells r rels) ≡ true =
                elim (rec.recorded u r at edge) [ inl waits ↦ absurd (cc) | inr k ↦ k ] in
              let r_in = (members r).1 (inr (made_dirty dirty rec.progress u r at edge)) in
              elim (ordered r u r_in behind) [
                | inl b ↦ inl b
                | inr w ↦ inr (Leads-of_Reach affected rels (λ x y k. (rec.related x y k).0) w)
              ]),
        )
      where
        in_cells :
            (dirty : RangeSet)
            → ((x : AbsRange) → elem x first_dirty ≡ true → elem x dirty ≡ true)
            → (x : AbsRange)
            → (elem x (turns.order (insert_all formula_cells (insert_all t.volatile_cells dirty)))
                ≡ true)
              ↔ ((elem x initial ≡ true) ⊎ (elem x dirty ≡ true))
        in_cells dirty grows x =
            let cells_x =
              turns.elem_order x (insert_all formula_cells (insert_all t.volatile_cells dirty))
              ∙ elem-insert_all x formula_cells (insert_all t.volatile_cells dirty) in
            let volatile_x = elem-insert_all x t.volatile_cells dirty in
            (
              (λ m. ground (arith, m, cells_x, volatile_x, elem-initial x)),
              (λ m.
                  ground
                    (arith, m, cells_x, volatile_x, elem-initial x, first_round_same x, grows x)),
            )

        made_dirty :
            (dirty : RangeSet)
            → Progress affected initial first_dirty [] dirty
            → (u r : AbsRange) → (elem u initial ≡ true) ⊎ (elem u dirty ≡ true)
            → elem r (affected u) ≡ true
            → elem r dirty ≡ true
        made_dirty dirty p u r at edge = elim (p.complete u at) [
          | inl waits ↦ absurd (cc)
          | inr all ↦ all r edge
        ]
