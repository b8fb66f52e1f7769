-- ===== src/DirtyCellTracker/Closure/Related.antt =====
-- The `while` loop of `query_and_sort_dirty_cells`: it marks what the other query marks, and records the
-- dependents of all that it looks at.
use ixion.Prelude.{
  true, ◌&&◌, ◌||◌, List, [], ◌∷◌, ◌≡◌, refl, inl, inr, arith, Eq, Ord, elem, distinct, ap, ap₂,
  if◌then◌else◌, Bool-cases,
}
use ixion.StdSet
use ixion.UnorderedSet.{insert, insert-distinct, IterationOrder}
use ixion.DepthFirstSearch.Defs.{insert_relation, get_precedent_cells, find}
use ixion.DirtyCellTracker.Closure.Defs.{mark, mark_all, mark_related, mark_all_related}

module _ {ℓ} {V : Type ℓ} ⦃e : Eq V⦄ ⦃o : Ord V⦄ where
  -- What a new relation adds to the sets.
  elem-get_precedent_cells :
      (u v p d : V) (rels : List (V × List V))
      → elem v (get_precedent_cells u (insert_relation p d rels))
        ≡ (e.beq u p && e.beq v d || elem v (get_precedent_cells u rels))
  unfolding get_precedent_cells insert_relation find
  elem-get_precedent_cells u v p d [] = ground (arith, StdSet.elem-insert v d [])
  elem-get_precedent_cells u v p d ((q, ds) ∷ rels) = ground (
    arith,
    elem-get_precedent_cells u v p d rels,
    StdSet.elem-insert v d ds,
    e.beq_iff u p,
    e.beq_iff p q,
    e.beq_iff u q,
  )

module _ {ℓ} {V : Type ℓ} ⦃e : Eq V⦄ ⦃o : Ord V⦄ (turns : IterationOrder V e)
    (affected : V → List V) where
  mark_related_marks :
      (c : V) (rs dirty next : List V) (rels : List (V × List V))
      → ((mark_related turns affected c rs dirty next rels).0
          ≡ (mark turns affected rs dirty next).0)
        × ((mark_related turns affected c rs dirty next rels).1
            ≡ (mark turns affected rs dirty next).1)
  unfolding mark_related mark
  mark_related_marks c [] dirty next rels = (refl, refl)
  mark_related_marks c (r ∷ rs) dirty next rels =
      mark_related_marks c rs (insert r dirty) (if elem r dirty then next else insert r next)
        (insert_relation r c rels)

  pub mark_all_related_marks :
      (cs dirty next : List V) (rels : List (V × List V))
      → ((mark_all_related turns affected cs dirty next rels).0
          ≡ (mark_all turns affected cs dirty next).0)
        × ((mark_all_related turns affected cs dirty next rels).1
            ≡ (mark_all turns affected cs dirty next).1)
  unfolding mark_all_related mark_all
  mark_all_related_marks [] dirty next rels = (refl, refl)
  mark_all_related_marks (c ∷ cs) dirty next rels =
      let (d, n) = mark_related_marks c (turns.order (affected c)) dirty next rels in
      let marked = mark_related turns affected c (turns.order (affected c)) dirty next rels in
      let (d', n') = mark_all_related_marks cs marked.0 marked.1 marked.2 in
      (
        rw d' (ap₂ (λ a b. (mark_all turns affected cs a b).0) d n),
        rw n' (ap₂ (λ a b. (mark_all turns affected cs a b).1) d n),
      )

  mark-distinct :
      (rs dirty next : List V)
      → distinct dirty ≡ true
      → distinct (mark turns affected rs dirty next).0 ≡ true
  unfolding mark
  mark-distinct [] dirty next h = h
  mark-distinct (r ∷ rs) dirty next h =
      mark-distinct rs (insert r dirty) (if elem r dirty then next else insert r next)
        (insert-distinct r dirty h)

  pub mark_all-distinct :
      (cs dirty next : List V)
      → distinct dirty ≡ true
      → distinct (mark_all turns affected cs dirty next).0 ≡ true
  unfolding mark_all
  mark_all-distinct [] dirty next h = h
  mark_all-distinct (c ∷ cs) dirty next h =
      mark_all-distinct cs _ _ (mark-distinct (turns.order (affected c)) dirty next h)

  elem-mark_related :
      (u v c : V) (rs dirty next : List V) (rels : List (V × List V))
      → elem v (get_precedent_cells u (mark_related turns affected c rs dirty next rels).2)
        ≡ (e.beq v c && elem u rs || elem v (get_precedent_cells u rels))
  unfolding mark_related
  elem-mark_related u v c [] dirty next rels = ground arith
  elem-mark_related u v c (r ∷ rs) dirty next rels = ground (
    arith,
    elem-mark_related u v c rs (insert r dirty) (if elem r dirty then next else insert r next)
        (insert_relation r c rels),
    elem-get_precedent_cells u v r c rels,
  )

  pub elem-mark_all_related :
      (u v : V) (cs dirty next : List V) (rels : List (V × List V))
      → elem v (get_precedent_cells u (mark_all_related turns affected cs dirty next rels).2)
        ≡ (elem v cs && elem u (affected v) || elem v (get_precedent_cells u rels))
  unfolding mark_all_related
  elem-mark_all_related u v [] dirty next rels = ground arith
  elem-mark_all_related u v (c ∷ cs) dirty next rels =
      let marked = mark_related turns affected c (turns.order (affected c)) dirty next rels in
      let later = elem-mark_all_related u v cs marked.0 marked.1 marked.2 in
      let now = elem-mark_related u v c (turns.order (affected c)) dirty next rels in
      elim (Bool-cases (e.beq v c)) [
        | inl same ↦
            let q = ap (λ x. elem u (affected x)) ((e.beq_iff v c).0 same) in
            ground (arith, later, now, turns.elem_order u (affected c), q)
        | inr other ↦ ground (arith, later, now)
      ]
