-- ===== src/DirtyCellTracker/Closure/Marks.antt =====
-- What the inner loops of the queries mark.
use ixion.Prelude.{
  Bool, true, false, not, ◌&&◌, ◌||◌, List, [], ◌∷◌, ◌≡◌, refl, inl, inr, arith, Eq, elem, Bool-eq,
  sym, ◌∙◌, if◌then◌else◌, Bool-cases,
}
use ixion.UnorderedSet.{insert, elem-insert, IterationOrder}
use ixion.DirtyCellTracker.Closure.Defs.{mark, mark_all}

module _ {ℓ} {V : Type ℓ} ⦃e : Eq V⦄ (affected : V → List V) where
  -- Some range of the list affects `x`.
  abbrev pub affects : V → List V → Bool
  affects x [] = false
  affects x (c ∷ cs) = elem x (affected c) || affects x cs

  -- An affected range is affected by some element.
  pub affects-elem :
      (x : V) (cs : List V)
      → affects x cs ≡ true
      → (c : V) × (elem c cs ≡ true) × (elem x (affected c) ≡ true)
  affects-elem x [] h = absurd (cc)
  affects-elem x (c ∷ cs) h = elim (Bool-cases (elem x (affected c))) [
    | inl m ↦ (c, ground (arith, e.beq_iff c c), m)
    | inr n ↦ let (d, at, m) = affects-elem x cs (ground arith) in (d, ground arith, m)
  ]

  pub elem-affects :
      (x c : V) (cs : List V) → elem c cs ≡ true → elem x (affected c) ≡ true → affects x cs ≡ true
  elem-affects x c [] h m = absurd (cc)
  elem-affects x c (d ∷ cs) h m = elim (Bool-cases (e.beq c d)) [
    | inl same ↦ let there = rw ((e.beq_iff c d).0 same) at m in ground arith
    | inr other ↦ ground (arith, elem-affects x c cs)
  ]

module _ {ℓ} {V : Type ℓ} ⦃e : Eq V⦄ (turns : IterationOrder V e) (affected : V → List V) where
  elem-mark :
      (x : V) (rs dirty next : List V)
      → (elem x (mark turns affected rs dirty next).0 ≡ (elem x rs || elem x dirty))
        × (elem x (mark turns affected rs dirty next).1
            ≡ (elem x rs && not (elem x dirty) || elem x next))
  unfolding mark
  elem-mark x [] dirty next = (refl, refl)
  elem-mark x (r ∷ rs) dirty next =
      let (d, n) = elem-mark x rs (insert r dirty) (if elem r dirty then next else insert r next) in
      (
        ground (arith, d, elem-insert x r dirty),
        ground (arith, n, elem-insert x r dirty, elem-insert x r next, e.beq_iff x r),
      )

  pub elem-mark_all :
      (x : V) (cs dirty next : List V)
      → (elem x (mark_all turns affected cs dirty next).0 ≡ (affects affected x cs || elem x dirty))
        × (elem x (mark_all turns affected cs dirty next).1
            ≡ (affects affected x cs && not (elem x dirty) || elem x next))
  unfolding mark_all
  elem-mark_all x [] dirty next = (refl, refl)
  elem-mark_all x (c ∷ cs) dirty next =
      let marked = mark turns affected (turns.order (affected c)) dirty next in
      let (d, n) = elem-mark_all x cs marked.0 marked.1 in
      let (d', n') = elem-mark x (turns.order (affected c)) dirty next in
      let same = turns.elem_order x (affected c) in
      (ground (arith, d, d', same), ground (arith, n, n', d', same))

  pub affects-order :
      (x : V) (cs : List V) → affects affected x (turns.order cs) ≡ affects affected x cs
  affects-order x cs =
      Bool-eq _ _
        (λ h.
          let (c, at, m) = affects-elem affected x (turns.order cs) h in
          elem-affects affected x c cs (sym (turns.elem_order c cs) ∙ at) m)
        (λ h.
          let (c, at, m) = affects-elem affected x cs h in
          elem-affects affected x c (turns.order cs) (turns.elem_order c cs ∙ at) m)

  -- What one round marks, in whichever order it meets the current ranges.
  pub elem_round :
      (x : V) (cur dirty : List V)
      → let marked = mark_all turns affected (turns.order cur) dirty [] in
        (elem x marked.0 ≡ (affects affected x cur || elem x dirty))
        × (elem x marked.1 ≡ (affects affected x cur && not (elem x dirty)))
  elem_round x cur dirty =
      let (d, n) = elem-mark_all x (turns.order cur) dirty [] in
      let same = affects-order x cur in (ground (arith, d, same), ground (arith, n, same))
