-- ===== src/DirtyCellTracker/Closure/Defs.antt =====
-- The loops of the two queries, over any map from a range to the ranges that its change affects.
use ixion.Prelude.{ℕ, zero, suc, List, [], ◌∷◌, Option, none, some, Eq, elem, Ord, if◌then◌else◌}
use ixion.DepthFirstSearch.Defs.{insert_relation}
use ixion.UnorderedSet.{insert, IterationOrder}

module _ {ℓ} {V : Type ℓ} ⦃e : Eq V⦄ (turns : IterationOrder V e) (affected : V → List V) where
  -- The innermost loop of `query_dirty_cells`: the dirty set, and the set for the next round.
  unfoldable pub mark : List V → List V → List V → List V × List V
  mark [] dirty next = (dirty, next)
  mark (r ∷ rs) dirty next = mark rs (insert r dirty) (if elem r dirty then next else insert r next)

  -- One round of the `while` loop.
  unfoldable pub mark_all : List V → List V → List V → List V × List V
  mark_all [] dirty next = (dirty, next)
  mark_all (c ∷ cs) dirty next =
      let marked = mark (turns.order (affected c)) dirty next in mark_all cs marked.0 marked.1

  -- The `while` loop; a round costs a unit of fuel, and `none` means that it ran out.
  unfoldable pub close : ℕ → List V → List V → Option (List V)
  close zero cur dirty = none
  close (suc fuel) [] dirty = some dirty
  close (suc fuel) (c ∷ cs) dirty =
      let marked = mark_all (turns.order (c ∷ cs)) dirty [] in close fuel marked.1 marked.0

  -- The innermost loop of `query_and_sort_dirty_cells`, which also records that `r` depends on `mc`.
  unfoldable pub mark_related :
      ⦃o : Ord V⦄
      → V
      → List V
      → List V
      → List V
      → List (V × List V)
      → List V × List V × List (V × List V)
  mark_related mc [] dirty next rels = (dirty, next, rels)
  mark_related mc (r ∷ rs) dirty next rels =
      mark_related mc rs (insert r dirty) (if elem r dirty then next else insert r next)
        (insert_relation r mc rels)

  unfoldable pub mark_all_related :
      ⦃o : Ord V⦄
      → List V
      → List V
      → List V
      → List (V × List V)
      → List V × List V × List (V × List V)
  mark_all_related [] dirty next rels = (dirty, next, rels)
  mark_all_related (c ∷ cs) dirty next rels =
      let marked = mark_related c (turns.order (affected c)) dirty next rels in
      mark_all_related cs marked.0 marked.1 marked.2

  unfoldable pub close_related :
      ⦃o : Ord V⦄ → ℕ → List V → List V → List (V × List V) → Option (List V × List (V × List V))
  close_related zero cur dirty rels = none
  close_related (suc fuel) [] dirty rels = some (dirty, rels)
  close_related (suc fuel) (c ∷ cs) dirty rels =
      let marked = mark_all_related (turns.order (c ∷ cs)) dirty [] rels in
      close_related fuel marked.1 marked.0 marked.2
