-- ===== src/DirtyCellTracker/Sheets.antt =====
-- The loops of `add` and `remove` over the sheets of the destination, and what the two operations do.
use ixion.Prelude.{
  ℕ, zero, suc, ◌+◌, Bool, false, not, ◌&&◌, ◌||◌, List, none, some, ◌≡◌, ◌⊎◌, inl, inr, refl, ap,
  ◌∙◌, arith, distinct, Bool-cases, ltb, leb,
}
use ixion.Address.Defs.{AbsRange}
use ixion.Address.Order.{range_eq}
use ixion.UnorderedSet.{insert-distinct}
use ixion.DirtyCellTracker.Rtree.{Extent, Rtree, eq_extent}
use ixion.DirtyCellTracker.Defs.{
  extent_of, Tracker, add_on_sheet, remove_on_sheet, for_sheets, is_trackable, first_sheet,
  sheet_count, add, remove,
}
use ixion.DirtyCellTracker.Record.{listeners, tracks, tracks-add_on_sheet, listeners-add_on_sheet}
use ixion.DirtyCellTracker.Remove.{
  IsWellFormed, tracks-remove_on_sheet, remove_on_sheet-IsWellFormed,
}

-- The sheets that the loop goes through.
abbrev in_sheets : ℕ → ℕ → ℕ → Bool
in_sheets k sheet n = leb sheet n && ltb n (sheet + k)

-- `dest` lies on sheet `n` with the box `x`.
abbrev pub is_at : AbsRange → ℕ → Extent → Bool
is_at dest n x = in_sheets (sheet_count dest) (first_sheet dest) n && eq_extent (extent_of dest) x

module _ (R : Rtree) where
  open R use {Tree}

  add_on_sheet-IsWellFormed :
      (src : AbsRange) (x : Extent) (k : ℕ) (g : List Tree)
      → IsWellFormed R g
      → IsWellFormed R (add_on_sheet R src x k g)
  add_on_sheet-IsWellFormed src x k g once n y =
      ap (λ s. distinct s) (listeners-add_on_sheet R src x k g n y)
      ∙ ground (arith, once k x, once n y, insert-distinct src (listeners R g k x))

  add_sheets :
      (src : AbsRange) (x : Extent) (k sheet : ℕ) (g : List Tree)
      → IsWellFormed R g
      → IsWellFormed R (for_sheets R (add_on_sheet R src x) k sheet g)
        × ((r : AbsRange) (n : ℕ) (y : Extent)
            → tracks R (for_sheets R (add_on_sheet R src x) k sheet g) r n y
              ≡ (in_sheets k sheet n && (eq_extent x y && range_eq.beq r src) || tracks R g r n y))
  unfolding for_sheets
  add_sheets src x zero sheet g once = (once, λ r n y. ground arith)
  add_sheets src x (suc k) sheet g once =
      let (once', rest) =
        add_sheets src x k (suc sheet) (add_on_sheet R src x sheet g)
          (add_on_sheet-IsWellFormed src x sheet g once) in
      (once', λ r n y. ground (arith, rest r n y, tracks-add_on_sheet R src x sheet g r n y))

  remove_sheets :
      (src : AbsRange) (x : Extent) (k sheet : ℕ) (g : List Tree)
      → IsWellFormed R g
      → IsWellFormed R (for_sheets R (remove_on_sheet R src x) k sheet g)
        × ((r : AbsRange) (n : ℕ) (y : Extent)
            → tracks R (for_sheets R (remove_on_sheet R src x) k sheet g) r n y ≡ (
                not (in_sheets k sheet n && (eq_extent x y && range_eq.beq r src))
                && tracks R g r n y))
  unfolding for_sheets
  remove_sheets src x zero sheet g once = (once, λ r n y. ground arith)
  remove_sheets src x (suc k) sheet g once =
      let (once', rest) =
        remove_sheets src x k (suc sheet) (remove_on_sheet R src x sheet g)
          (remove_on_sheet-IsWellFormed R src x sheet g once) in
      (
        once',
        λ r n y. ground (arith, rest r n y, tracks-remove_on_sheet R src x sheet g r n y once),
      )

  -- `add` throws exactly where its guards fail. Otherwise it puts the source on record at the box of
  -- the destination, on each sheet of the destination, changes no other entry and no volatile cell, and
  -- keeps the sets of listeners free of repetitions.
  pub add-tracks :
      (t : Tracker R) (src dest : AbsRange)
      → IsWellFormed R t.grids
      → (is_trackable src dest ≡ false) × (add R t src dest ≡ none)
        ⊎ ((t' : Tracker R) × (add R t src dest ≡ some t')
            × IsWellFormed R t'.grids
            × (t'.volatile_cells ≡ t.volatile_cells)
            × ((r : AbsRange) (n : ℕ) (x : Extent)
                → tracks R t'.grids r n x
                  ≡ (is_at dest n x && range_eq.beq r src || tracks R t.grids r n x)))
  unfolding add
  add-tracks t src dest once = elim (Bool-cases (is_trackable src dest)) [
    | inl good ↦
        let (once', recorded) =
          add_sheets src (extent_of dest) (sheet_count dest) (first_sheet dest) t.grids once in
        inr (
          record t {
            grids =
                for_sheets R (add_on_sheet R src (extent_of dest)) (sheet_count dest)
                  (first_sheet dest) t.grids;
          },
          rw good,
          once',
          refl,
          λ r n x. ground (arith, recorded r n x),
        )
    | inr bad ↦ inl (bad, rw bad)
  ]

  -- `remove` throws exactly where its guards fail. Otherwise it takes the source off the record at the
  -- box of the destination, on each sheet of the destination, and changes no other entry and no
  -- volatile cell; the sets of listeners stay free of repetitions.
  pub remove-tracks :
      (t : Tracker R) (src dest : AbsRange)
      → IsWellFormed R t.grids
      → (is_trackable src dest ≡ false) × (remove R t src dest ≡ none)
        ⊎ ((t' : Tracker R) × (remove R t src dest ≡ some t')
            × IsWellFormed R t'.grids
            × (t'.volatile_cells ≡ t.volatile_cells)
            × ((r : AbsRange) (n : ℕ) (x : Extent)
                → tracks R t'.grids r n x
                  ≡ (not (is_at dest n x && range_eq.beq r src) && tracks R t.grids r n x)))
  unfolding remove
  remove-tracks t src dest once = elim (Bool-cases (is_trackable src dest)) [
    | inl good ↦
        let (once', recorded) =
          remove_sheets src (extent_of dest) (sheet_count dest) (first_sheet dest) t.grids once in
        inr (
          record t {
            grids =
                for_sheets R (remove_on_sheet R src (extent_of dest)) (sheet_count dest)
                  (first_sheet dest) t.grids;
          },
          rw good,
          once',
          refl,
          λ r n x. ground (arith, recorded r n x),
        )
    | inr bad ↦ inl (bad, rw bad)
  ]
