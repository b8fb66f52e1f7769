-- ===== src/DirtyCellTracker/Closure/Close.antt =====
-- The `while` loop of `query_dirty_cells` ends with the ranges that the seeds make dirty.
use ixion.Prelude.{
  ℕ, zero, suc, ◌+◌, ◌<◌, ◌≤◌, true, false, not, ◌&&◌, ◌||◌, List, [], ◌∷◌, ◌≡◌, refl, ◌↔◌, ◌⊎◌,
  some, arith, Eq, elem,
}
use ixion.UnorderedSet.{IterationOrder}
use ixion.DirtyCellTracker.Closure.Defs.{mark_all, close}
use ixion.DirtyCellTracker.Closure.Marks.{affects, affects-elem, elem_round}
use ixion.Prelude.Missing.{missing, missing_mono, missing_strict}
use ixion.DirtyCellTracker.Closure.Progress.{Dirty, Progress, Progress-round, Progress-end}

-- A round is still to come where ranges wait for it.
abbrev pub rounds {ℓ} : {V : Type ℓ} → List V → ℕ
rounds [] = 1
rounds (c ∷ cs) = 2

-- A round that leaves ranges for the next one has made some range of the universe dirty.
pub round_shrinks {ℓ} :
    {V : Type ℓ} ⦃e : Eq V⦄ (affected : V → List V) (us cur dirty dirty' next : List V)
    → ((x c : V) → elem x (affected c) ≡ true → elem x us ≡ true)
    → ((x : V) → elem x dirty' ≡ (affects affected x cur || elem x dirty))
    → ((x : V) → elem x next ≡ (affects affected x cur && not (elem x dirty)))
    → missing us dirty' + rounds next < missing us dirty + 2
round_shrinks affected us cur dirty dirty' [] within d n =
    omega (arith, missing_mono us dirty dirty' (λ x m. ground (arith, d x)))
round_shrinks ⦃e⦄ affected us cur dirty dirty' (x ∷ xs) within d n =
    let new : (affects affected x cur ≡ true) × (elem x dirty ≡ false) =
      ground (arith, n x, e.beq_iff x x) in
    let (c, _, m) = affects-elem affected x cur new.0 in
    omega (
      arith,
      missing_strict us dirty dirty' x (λ y m. ground (arith, d y)) (within x c m) new.1
          (ground (arith, d x)),
    )

module _ {ℓ} {V : Type ℓ} ⦃e : Eq V⦄ (turns : IterationOrder V e) (affected : V → List V) where
  pub close_lem :
      (us seeds base : List V)
      → ((x c : V) → elem x (affected c) ≡ true → elem x us ≡ true)
      → (fuel : ℕ) (cur dirty : List V) → missing us dirty + rounds cur ≤ fuel
      → Progress affected seeds base cur dirty
      → (r : List V) × (close turns affected fuel cur dirty ≡ some r)
        × ((x : V) → (elem x r ≡ true) ↔ ((elem x base ≡ true) ⊎ Dirty affected seeds x))
  unfolding close
  close_lem us seeds base within zero [] dirty room p = absurd (omega arith)
  close_lem us seeds base within zero (c ∷ cs) dirty room p = absurd (omega arith)
  close_lem us seeds base within (suc fuel) [] dirty room p =
      (dirty, refl, Progress-end affected seeds base dirty p)
  close_lem us seeds base within (suc fuel) (c ∷ cs) dirty room p =
      let marked = mark_all turns affected (turns.order (c ∷ cs)) dirty [] in
      close_lem us seeds base within fuel marked.1 marked.0
        (omega (arith, round_shrinks affected us (c ∷ cs) dirty marked.0 marked.1 within d n))
        (Progress-round affected seeds base (c ∷ cs) dirty marked.0 marked.1 d n p)
    where
      d :
          (x : V)
          → elem x (mark_all turns affected (turns.order (c ∷ cs)) dirty []).0
            ≡ (affects affected x (c ∷ cs) || elem x dirty)
      d x = (elem_round turns affected x (c ∷ cs) dirty).0

      n :
          (x : V)
          → elem x (mark_all turns affected (turns.order (c ∷ cs)) dirty []).1
            ≡ (affects affected x (c ∷ cs) && not (elem x dirty))
      n x = (elem_round turns affected x (c ∷ cs) dirty).1
