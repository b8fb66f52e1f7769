-- ===== src/DirtyCellTracker/Remove.antt =====
-- What `remove` does to the record of a tracker.
use ixion.Prelude.{
  ℕ, true, not, ◌&&◌, List, [], ◌∷◌, some, ◌≡◌, inl, inr, refl, ap, ◌∙◌, arith, get_elem?, elem,
  distinct, if◌then◌else◌, Bool-cases, Option-cases, ◌==◌,
}
use ixion.Address.Defs.{AbsRange}
use ixion.Address.Order.{range_eq, range_ord}
use ixion.UnorderedSet.{erase, elem-erase, erase-distinct}
use ixion.DirtyCellTracker.Rtree.{Extent, RangeSet, Rtree, eq_extent}
use ixion.DirtyCellTracker.Defs.{is_empty, remove_on_sheet}
use ixion.DirtyCellTracker.Record.{
  or_empty, found, found_in, listeners, tracks, written, listeners-at, found-assign, found-erase,
  eq_extent_iff,
}

module _ (R : Rtree) where
  open R use {Tree, search_match, assign, erase_tree, match_assign, match_erase}

  -- No set of listeners holds a source twice.
  abbrev pub IsWellFormed : List Tree → Type 0
  IsWellFormed g = (n : ℕ) (x : Extent) → distinct (listeners R g n x) ≡ true

  listeners-remove_on_sheet :
      (src : AbsRange) (x : Extent) (k : ℕ) (g : List Tree) (n : ℕ) (y : Extent)
      → listeners R (remove_on_sheet R src x k g) n y
        ≡ (if k == n && eq_extent x y then erase src (listeners R g k x) else listeners R g n y)
  unfolding remove_on_sheet erase
  listeners-remove_on_sheet src x k g n y = elim (Option-cases (get_elem? g k)) [
    | inl no_tree ↦ rw (no_tree, remove_on_sheet) (unchanged (ap (λ o. found_in R o x) no_tree))
    | inr (t, at) ↦ elim (Option-cases (search_match t x)) [
      | inl no_set ↦
          rw (at, remove_on_sheet, no_set)
            (unchanged (listeners-at R g k x at ∙ ap (or_empty R) no_set))
      | inr (l, set_at) ↦
          rw (at, remove_on_sheet, set_at) (written R g k n x y t _ _ at (λ z. left z t l set_at))
    ]
  ]
    where
      unchanged :
          listeners R g k x ≡ []
          → listeners R g n y ≡ (if k == n && eq_extent x y then [] else listeners R g n y)
      unchanged q = elim (Bool-cases (k == n && eq_extent x y)) [
        | inl there ↦
            let same_k : k ≡ n = ground arith in
            let same_x : x ≡ y = (eq_extent_iff R x y).0 (ground arith) in
            rw there (rw (← same_k, ← same_x) q)
        | inr elsewhere ↦ rw elsewhere
      ]

      emptied : (s : RangeSet) → is_empty s ≡ true → s ≡ []
      emptied [] h = refl
      emptied (r ∷ s) h = cc

      left :
          (z : Extent) (t : Tree) (l : RangeSet)
          → search_match t x ≡ some l
          → found R
              (if is_empty (erase src l)
                then erase_tree (assign t x (erase src l)) x
                else assign t x (erase src l))
              z
            ≡ (if eq_extent x z then erase src l else found R t z)
      left z t l q = elim (Bool-cases (is_empty (erase src l))) [
        | inl nothing ↦
            let gone = emptied (erase src l) nothing in
            let at_x : search_match (assign t x (erase src l)) x ≡ some (erase src l) =
              match_assign t x x l (erase src l) q ∙ rw ((eq_extent_iff R x x).1 refl) in
            rw nothing (
              ground (
                arith,
                found-erase R (assign t x (erase src l)) x z (erase src l) at_x,
                found-assign R t x z l (erase src l) q,
                gone,
              ))
        | inr some_left ↦ rw some_left (found-assign R t x z l (erase src l) q)
      ]

  pub tracks-remove_on_sheet :
      (src : AbsRange) (x : Extent) (k : ℕ) (g : List Tree) (r : AbsRange) (n : ℕ) (y : Extent)
      → IsWellFormed g
      → tracks R (remove_on_sheet R src x k g) r n y
        ≡ (not (k == n && (eq_extent x y && range_eq.beq r src)) && tracks R g r n y)
  tracks-remove_on_sheet src x k g r n y once =
      ap (elem r) (listeners-remove_on_sheet src x k g n y)
      ∙ ground (arith, elem-erase r src (listeners R g k x) (once k x), eq_extent_iff R x y)

  pub remove_on_sheet-IsWellFormed :
      (src : AbsRange) (x : Extent) (k : ℕ) (g : List Tree)
      → IsWellFormed g
      → IsWellFormed (remove_on_sheet R src x k g)
  remove_on_sheet-IsWellFormed src x k g once n y =
      ap (λ s. distinct s) (listeners-remove_on_sheet src x k g n y)
      ∙ ground (arith, once k x, once n y, erase-distinct src (listeners R g k x))
