-- ===== src/DirtyCellTracker/Record.antt =====
-- What a tracker has on record: which source listens to which box of which sheet. `add` and `remove`
-- change that record as their names say, and a change is known to affect what listens to it.
use ixion.Prelude.{
  ℕ, zero, suc, Bool, true, ◌&&◌, ◌||◌, List, [], ◌∷◌, Option, none, some, ◌≡◌, ◌↔◌, inl, inr, refl,
  sym, ap, ◌∙◌, arith, get_elem?, set, elem, if◌then◌else◌, Bool-cases, Option-cases, ◌==◌,
}
use ixion.Address.Defs.{AbsRange}
use ixion.Address.Order.{range_eq, range_ord}
use ixion.UnorderedSet.{insert, elem-insert}
use ixion.DirtyCellTracker.Rtree.{Extent, RangeSet, Rtree, eq_extent}
use ixion.DirtyCellTracker.Defs.{resize, add_on_sheet}

module _ (R : Rtree) where
  open R use {
    Tree, empty_tree, search_match, search_overlap, insert_tree, assign, erase_tree, match_empty,
    match_insert, match_assign, match_erase, overlap_sound, overlap_complete,
  }

  abbrev pub or_empty : Option RangeSet → RangeSet
  or_empty none = []
  or_empty (some s) = s

  -- The set at a box of a tree.
  abbrev pub found : Tree → Extent → RangeSet
  found t x = or_empty (search_match t x)

  abbrev pub found_in : Option Tree → Extent → RangeSet
  found_in none x = []
  found_in (some t) x = found t x

  -- The listeners of a box on a sheet.
  abbrev pub listeners : List Tree → ℕ → Extent → RangeSet
  listeners g n x = found_in (get_elem? g n) x

  -- `src` listens to the box `x` of sheet `n`.
  abbrev pub tracks : List Tree → AbsRange → ℕ → Extent → Bool
  tracks g src n x = elem src (listeners g n x)

  listeners-resize :
      (k : ℕ) (g : List Tree) (n : ℕ) (x : Extent) → listeners (resize R k g) n x ≡ listeners g n x
  unfolding resize
  listeners-resize zero [] zero x = rw (match_empty x)
  listeners-resize zero [] (suc n) x = refl
  listeners-resize zero (t ∷ g) n x = refl
  listeners-resize (suc k) [] zero x = rw (match_empty x)
  listeners-resize (suc k) [] (suc n) x = listeners-resize k [] n x
  listeners-resize (suc k) (t ∷ g) zero x = refl
  listeners-resize (suc k) (t ∷ g) (suc n) x = listeners-resize k g n x

  get_elem?-resize : (k : ℕ) (g : List Tree) → (t : Tree) × (get_elem? (resize R k g) k ≡ some t)
  unfolding resize
  get_elem?-resize zero [] = (empty_tree, refl)
  get_elem?-resize zero (t ∷ g) = (t, refl)
  get_elem?-resize (suc k) [] = get_elem?-resize k []
  get_elem?-resize (suc k) (t ∷ g) = get_elem?-resize k g

  get_elem?-set :
      (g : List Tree) (k n : ℕ) (t old : Tree)
      → get_elem? g k ≡ some old
      → get_elem? (set g k t) n ≡ (if k == n then some t else get_elem? g n)
  get_elem?-set [] k n t old h = absurd (cc)
  get_elem?-set (u ∷ g) zero zero t old h = ground arith
  get_elem?-set (u ∷ g) zero (suc n) t old h = ground arith
  get_elem?-set (u ∷ g) (suc k) zero t old h = ground arith
  get_elem?-set (u ∷ g) (suc k) (suc n) t old h = ground (arith, get_elem?-set g k n t old h)

  pub eq_extent_iff : (x y : Extent) → (eq_extent x y ≡ true) ↔ (x ≡ y)
  unfolding eq_extent
  eq_extent_iff x y = ground arith

  listeners-set :
      (g : List Tree) (k n : ℕ) (t : Tree) (x : Extent) {old : Tree}
      → get_elem? g k ≡ some old
      → listeners (set g k t) n x ≡ (if k == n then found t x else listeners g n x)
  listeners-set g k n t x {old} h = elim (Bool-cases (k == n)) [
    | inl same ↦ rw (get_elem?-set g k n t old h, same)
    | inr other ↦ rw (get_elem?-set g k n t old h, other)
  ]

  found-insert :
      (t : Tree) (x y : Extent) (s : RangeSet)
      → search_match t x ≡ none
      → found (insert_tree t x s) y ≡ (if eq_extent x y then s else found t y)
  found-insert t x y s h = elim (Bool-cases (eq_extent x y)) [
    | inl same ↦ rw (match_insert t x y s h, same)
    | inr other ↦ rw (match_insert t x y s h, other)
  ]

  pub found-assign :
      (t : Tree) (x y : Extent) (old s : RangeSet)
      → search_match t x ≡ some old
      → found (assign t x s) y ≡ (if eq_extent x y then s else found t y)
  found-assign t x y old s h = elim (Bool-cases (eq_extent x y)) [
    | inl same ↦ rw (match_assign t x y old s h, same)
    | inr other ↦ rw (match_assign t x y old s h, other)
  ]

  pub found-erase :
      (t : Tree) (x y : Extent) (old : RangeSet)
      → search_match t x ≡ some old
      → found (erase_tree t x) y ≡ (if eq_extent x y then [] else found t y)
  found-erase t x y old h = elim (Bool-cases (eq_extent x y)) [
    | inl same ↦ rw (match_erase t x y old h, same)
    | inr other ↦ rw (match_erase t x y old h, other)
  ]

  pub listeners-at :
      (g : List Tree) (n : ℕ) (x : Extent) {t : Tree}
      → get_elem? g n ≡ some t
      → listeners g n x ≡ found t x
  listeners-at g n x h = ap (λ o. found_in o x) h

  -- A write of `s` at box `x` of sheet `k`, seen from any box of any sheet.
  pub written :
      (g : List Tree) (k n : ℕ) (x y : Extent) (t t' : Tree) (s : RangeSet)
      → get_elem? g k ≡ some t
      → ((z : Extent) → found t' z ≡ (if eq_extent x z then s else found t z))
      → listeners (set g k t') n y ≡ (if k == n && eq_extent x y then s else listeners g n y)
  written g k n x y t t' s at h = elim (Bool-cases (k == n)) [
    | inl same ↦
        let q : k ≡ n = ground arith in
        rw (listeners-set g k n t' y at, same, h y, ← q, listeners-at g k y at)
    | inr other ↦ rw (listeners-set g k n t' y at, other)
  ]

  pub listeners-add_on_sheet :
      (src : AbsRange) (x : Extent) (k : ℕ) (g : List Tree) (n : ℕ) (y : Extent)
      → listeners (add_on_sheet R src x k g) n y
        ≡ (if k == n && eq_extent x y then insert src (listeners g k x) else listeners g n y)
  unfolding add_on_sheet
  listeners-add_on_sheet src x k g n y =
      let (t, at) = get_elem?-resize k g in
      let same = listeners-resize k g n y in
      let before_x = sym (listeners-at (resize R k g) k x at) ∙ listeners-resize k g k x in
      elim (Option-cases (search_match t x)) [
        | inl new ↦
            let none_yet : listeners g k x ≡ [] = sym before_x ∙ ap or_empty new in
            rw (at, add_on_sheet, new, none_yet, ← same)
              (written (resize R k g) k n x y t _ _ at (λ z. found-insert t x z _ new))
        | inr (l, old) ↦
            let those : listeners g k x ≡ l = sym before_x ∙ ap or_empty old in
            rw (at, add_on_sheet, old, those, ← same)
              (written (resize R k g) k n x y t _ _ at (λ z. found-assign t x z l _ old))
      ]

  -- `add` on one sheet puts one source on record, at one box.
  pub tracks-add_on_sheet :
      (src : AbsRange) (x : Extent) (k : ℕ) (g : List Tree) (r : AbsRange) (n : ℕ) (y : Extent)
      → tracks (add_on_sheet R src x k g) r n y
        ≡ (k == n && (eq_extent x y && range_eq.beq r src) || tracks g r n y)
  tracks-add_on_sheet src x k g r n y =
      ap (elem r) (listeners-add_on_sheet src x k g n y)
      ∙ ground (arith, elem-insert r src (listeners g k x), eq_extent_iff x y)
