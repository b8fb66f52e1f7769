-- ===== src/DirtyCellTracker/Closure/Recorded.antt =====
-- The invariant of the loop of `query_and_sort_dirty_cells`, and its end.
use ixion.Prelude.{
  ℕ, zero, suc, ◌+◌, ◌≤◌, true, not, ◌&&◌, ◌||◌, List, [], ◌∷◌, ◌≡◌, refl, ◌⊎◌, inl, inr, some,
  arith, Eq, Ord, elem, distinct, ap, ◌∙◌, Bool-cases,
}
use ixion.UnorderedSet.{IterationOrder}
use ixion.DepthFirstSearch.Defs.{get_precedent_cells}
use ixion.DirtyCellTracker.Closure.Defs.{mark_all_related, close_related}
use ixion.DirtyCellTracker.Closure.Marks.{affects, elem_round}
use ixion.Prelude.Missing.{missing}
use ixion.DirtyCellTracker.Closure.Progress.{Progress, Progress-round}
use ixion.DirtyCellTracker.Closure.Close.{rounds, round_shrinks}
use ixion.DirtyCellTracker.Closure.Related.{
  elem-mark_all_related, mark_all_related_marks, mark_all-distinct,
}

module _ {ℓ} {V : Type ℓ} ⦃e : Eq V⦄ ⦃o : Ord V⦄ (turns : IterationOrder V e)
    (affected : V → List V) where
  -- The invariant of the loop: that of the other query, and what the relations hold.
  pub record Recorded (seeds base cur dirty : List V) (rels : List (V × List V)) : Type ℓ where
    pub progress : Progress affected seeds base cur dirty
    pub no_twice : distinct dirty ≡ true
    -- All that was looked at is behind what it affects.
    pub recorded :
        (u r : V)
        → (elem u seeds ≡ true) ⊎ (elem u dirty ≡ true)
        → elem r (affected u) ≡ true
        → (elem u cur ≡ true) ⊎ (elem u (get_precedent_cells r rels) ≡ true)
    -- And nothing else is.
    pub related :
        (u r : V)
        → elem u (get_precedent_cells r rels) ≡ true
        → (elem r (affected u) ≡ true) × ((elem u seeds ≡ true) ⊎ (elem u dirty ≡ true))
    pub waiting : (u : V) → elem u cur ≡ true → (elem u seeds ≡ true) ⊎ (elem u dirty ≡ true)

  abbrev pub round_of : List V → List V → List (V × List V) → List V × List V × List (V × List V)
  round_of cur dirty rels = mark_all_related turns affected (turns.order cur) dirty [] rels

  pub marks_dirty :
      (x : V) (cur dirty : List V) (rels : List (V × List V))
      → (elem x (round_of cur dirty rels).0 ≡ (affects affected x cur || elem x dirty))
        × (elem x (round_of cur dirty rels).1 ≡ (affects affected x cur && not (elem x dirty)))
  marks_dirty x cur dirty rels =
      let (d, n) = mark_all_related_marks turns affected (turns.order cur) dirty [] rels in
      rw (d, n) (elem_round turns affected x cur dirty)

  marks_relations :
      (u r : V) (cur dirty : List V) (rels : List (V × List V))
      → elem u (get_precedent_cells r (round_of cur dirty rels).2)
        ≡ (elem u cur && elem r (affected u) || elem u (get_precedent_cells r rels))
  marks_relations u r cur dirty rels =
      elem-mark_all_related turns affected r u (turns.order cur) dirty [] rels
      ∙ ap (λ b. b && elem r (affected u) || elem u (get_precedent_cells r rels))
          (turns.elem_order u cur)

  pub Recorded-round :
      (seeds base cur dirty : List V) (rels : List (V × List V))
      → Recorded seeds base cur dirty rels
      → let marked = round_of cur dirty rels in Recorded seeds base marked.1 marked.0 marked.2
  Recorded-round seeds base cur dirty rels h = record {
    progress =
        Progress-round affected seeds base cur dirty marked.0 marked.1
          (λ x. (marks_dirty x cur dirty rels).0) (λ x. (marks_dirty x cur dirty rels).1)
          h.progress;
    no_twice =
        rw ((mark_all_related_marks turns affected (turns.order cur) dirty [] rels).0)
          (mark_all-distinct turns affected (turns.order cur) dirty [] h.no_twice);
    recorded = λ u r m edge. elim m [
      | inl s ↦ behind u r (h.recorded u r (inl s) edge) edge
      | inr d ↦ elim (Bool-cases (elem u dirty)) [
        | inl old ↦ behind u r (h.recorded u r (inr old) edge) edge
        | inr new ↦ inl (ground (arith, marks_dirty u cur dirty rels))
      ]
    ];
    related = λ u r m. elim (Bool-cases (elem u (get_precedent_cells r rels))) [
      | inl old ↦ let (edge, seen) = h.related u r old in (edge, grown u seen)
      | inr new ↦
          let now : (elem u cur ≡ true) × (elem r (affected u) ≡ true) =
            ground (arith, marks_relations u r cur dirty rels) in
          (now.1, grown u (h.waiting u now.0))
    ];
    waiting = λ u m. inr (ground (arith, marks_dirty u cur dirty rels));
  }
    where
      marked : List V × List V × List (V × List V)
      marked = round_of cur dirty rels

      behind :
          (u r : V)
          → (elem u cur ≡ true) ⊎ (elem u (get_precedent_cells r rels) ≡ true)
          → elem r (affected u) ≡ true
          → (elem u (round_of cur dirty rels).1 ≡ true)
            ⊎ (elem u (get_precedent_cells r (round_of cur dirty rels).2) ≡ true)
      behind u r k edge = inr (ground (arith, k, marks_relations u r cur dirty rels))

      grown :
          (u : V)
          → (elem u seeds ≡ true) ⊎ (elem u dirty ≡ true)
          → (elem u seeds ≡ true) ⊎ (elem u (round_of cur dirty rels).0 ≡ true)
      grown u (inl s) = inl s
      grown u (inr d) = inr (ground (arith, marks_dirty u cur dirty rels))

  -- The loop ends with what the seeds make dirty, each range once, and with exactly the relations from
  -- what a range affects back to that range.
  pub close_related_lem :
      (us seeds base : List V)
      → ((x c : V) → elem x (affected c) ≡ true → elem x us ≡ true)
      → (fuel : ℕ) (cur dirty : List V) (rels : List (V × List V))
      → missing us dirty + rounds cur ≤ fuel
      → Recorded seeds base cur dirty rels
      → (d : List V) × (r : List (V × List V)) × (close_related turns affected fuel cur dirty rels
          ≡ some (d, r))
        × Recorded seeds base [] d r
  unfolding close_related
  close_related_lem us seeds base within zero [] dirty rels room h = absurd (omega arith)
  close_related_lem us seeds base within zero (c ∷ cs) dirty rels room h = absurd (omega arith)
  close_related_lem us seeds base within (suc fuel) [] dirty rels room h = (dirty, rels, refl, h)
  close_related_lem us seeds base within (suc fuel) (c ∷ cs) dirty rels room h =
      let marked = round_of (c ∷ cs) dirty rels in
      close_related_lem us seeds base within fuel marked.1 marked.0 marked.2
        (omega (
          arith,
          round_shrinks affected us (c ∷ cs) dirty marked.0 marked.1 within
              (λ x. (marks_dirty x (c ∷ cs) dirty rels).0)
              (λ x. (marks_dirty x (c ∷ cs) dirty rels).1),
        ))
        (Recorded-round seeds base (c ∷ cs) dirty rels h)
