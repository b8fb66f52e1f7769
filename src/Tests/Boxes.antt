-- ===== src/Tests/Boxes.antt =====
-- A list of boxes with their sets, as an R-tree: the laws that the tracker relies on can hold.
use ixion.Prelude.{
  true, false, List, [], ◌∷◌, Option, none, some, ◌≡◌, refl, arith, elem, ◌∙◌, if◌then◌else◌,
  Bool-cases, inl, inr,
}
use ixion.Address.Defs.{AbsRange}
use ixion.Address.Order.{range_eq}
use ixion.DirtyCellTracker.Rtree.{Extent, RangeSet, Rtree, eq_extent, overlaps, elem_any}

abbrev pub Boxes : Type 0
Boxes = List (Extent × RangeSet)

unfoldable pub look_up : Boxes → Extent → Option RangeSet
look_up [] x = none
look_up ((y, s) ∷ t) x = if eq_extent y x then some s else look_up t x

pub write : Boxes → Extent → RangeSet → Boxes
write [] x s = []
write ((y, old) ∷ t) x s = if eq_extent y x then (y, s) ∷ t else (y, old) ∷ write t x s

pub drop_box : Boxes → Extent → Boxes
drop_box [] x = []
drop_box ((y, s) ∷ t) x = if eq_extent y x then drop_box t x else (y, s) ∷ drop_box t x

-- The sets of `full` at those boxes of the first list that share a point with `x`.
unfoldable pub scan : Boxes → Boxes → Extent → List RangeSet
scan full [] x = []
scan full ((y, s) ∷ t) x =
    if overlaps y x
    then elim (look_up full y) [ none ↦ scan full t x | some l ↦ l ∷ scan full t x ]
    else scan full t x

same_extent : (x y : Extent) → eq_extent x y ≡ true → x ≡ y
unfolding eq_extent
same_extent x y h = ground arith

eq_extent_refl : (x : Extent) → eq_extent x x ≡ true
unfolding eq_extent
eq_extent_refl x = ground arith

eq_extent_comm : (x y : Extent) → eq_extent x y ≡ eq_extent y x
unfolding eq_extent
eq_extent_comm x y = ground arith

pub look_up-write :
    (t : Boxes) (x y : Extent) (old s : RangeSet)
    → look_up t x ≡ some old
    → look_up (write t x s) y ≡ (if eq_extent x y then some s else look_up t y)
unfolding look_up write
look_up-write [] x y old s h = absurd (cc)
look_up-write ((z, l) ∷ t) x y old s h = elim (Bool-cases (eq_extent z x)) [
  | inl same ↦ rw (same_extent z x same, eq_extent_refl x) (ground arith)
  | inr other ↦ later other (look_up-write t x y old s (rw other at h))
]
  where
    later :
        eq_extent z x ≡ false
        → look_up (write t x s) y ≡ (if eq_extent x y then some s else look_up t y)
        → look_up (write ((z, l) ∷ t) x s) y
          ≡ (if eq_extent x y then some s else look_up ((z, l) ∷ t) y)
    later other q = elim (Bool-cases (eq_extent z y)) [
      | inl same ↦
          let apart : eq_extent x y ≡ false =
            rw (← same_extent z y same) (eq_extent_comm x z ∙ other) in
          rw (other, write, look_up, same, apart)
      | inr apart ↦ rw (other, write, look_up, apart) q
    ]

pub look_up-drop_box :
    (t : Boxes) (x y : Extent)
    → look_up (drop_box t x) y ≡ (if eq_extent x y then none else look_up t y)
unfolding look_up drop_box
look_up-drop_box [] x y = ground arith
look_up-drop_box ((z, l) ∷ t) x y = elim (Bool-cases (eq_extent z x)) [
  | inl p ↦ elim (Bool-cases (eq_extent z y)) [
    | inl q ↦
        let same : eq_extent x y ≡ true = rw (← same_extent z x p) q in
        rw (p, same) (look_up-drop_box t x y ∙ rw same)
    | inr q ↦ rw (p, q) (look_up-drop_box t x y)
  ]
  | inr p ↦ elim (Bool-cases (eq_extent z y)) [
    | inl q ↦
        let apart : eq_extent x y ≡ false = rw (← same_extent z y q) (eq_extent_comm x z ∙ p) in
        rw (p, q, apart)
    | inr q ↦ rw (p, q) (look_up-drop_box t x y)
  ]
]

pub scan_sound :
    (full t : Boxes) (x : Extent) (r : AbsRange)
    → elem_any r (scan full t x) ≡ true
    → (y : Extent) × (s : RangeSet) × (look_up full y ≡ some s)
      × (overlaps y x ≡ true)
      × (elem r s ≡ true)
unfolding scan
scan_sound full [] x r h = absurd (cc)
scan_sound full ((y, l) ∷ t) x r h = elim (Bool-cases (overlaps y x)) [
  | inl near ↦ at (look_up full y) refl near (scan_sound full t x r) (rw near at h)
  | inr far ↦ scan_sound full t x r (rw far at h)
]
  where
    Found : Type 0
    Found =
        (y : Extent) × (s : RangeSet) × (look_up full y ≡ some s)
        × (overlaps y x ≡ true)
        × (elem r s ≡ true)

    at :
        (o : Option RangeSet)
        → look_up full y ≡ o
        → overlaps y x ≡ true
        → (elem_any r (scan full t x) ≡ true → Found)
        → elem_any r (elim o [ none ↦ scan full t x | some l ↦ l ∷ scan full t x ]) ≡ true
        → Found
    at none q near later h = later h
    at (some s) q near later h = elim (Bool-cases (elem r s)) [
      | inl m ↦ (y, s, q, near, m)
      | inr m ↦ later (ground arith)
    ]

pub scan_complete :
    (full t : Boxes) (x y : Extent) (r : AbsRange) (s l : RangeSet)
    → look_up t y ≡ some l
    → look_up full y ≡ some s
    → overlaps y x ≡ true
    → elem r s ≡ true
    → elem_any r (scan full t x) ≡ true
unfolding scan look_up
scan_complete full [] x y r s l h f near m = absurd (cc)
scan_complete full ((z, k) ∷ t) x y r s l h f near m = elim (Bool-cases (eq_extent z y)) [
  | inl same ↦ rw (same_extent z y same, near, f) (ground arith)
  | inr other ↦ ground (arith, scan_complete full t x y r s l (rw other at h) f near m)
]

pub look_up-nil : (x : Extent) → look_up [] x ≡ none
unfolding look_up
look_up-nil x = refl

pub look_up-cons :
    (t : Boxes) (x y : Extent) (s : RangeSet)
    → look_up t x ≡ none
    → look_up ((x, s) ∷ t) y ≡ (if eq_extent x y then some s else look_up t y)
unfolding look_up
look_up-cons t x y s h = refl

abbrev pub boxes : Rtree
boxes = record {
  Tree = Boxes;
  empty_tree = [];
  search_match = look_up;
  search_overlap = λ t x. scan t t x;
  insert_tree = λ t x s. (x, s) ∷ t;
  assign = write;
  erase_tree = drop_box;
  match_empty = look_up-nil;
  match_insert = look_up-cons;
  match_assign = look_up-write;
  match_erase = λ t x y old h. look_up-drop_box t x y;
  overlap_sound = λ t x r h. scan_sound t t x r h;
  overlap_complete = λ t x y r s h near m. scan_complete t t x y r s s h h near m;
}
