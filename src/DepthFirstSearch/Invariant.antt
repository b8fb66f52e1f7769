-- ===== src/DepthFirstSearch/Invariant.antt =====
-- The invariant of the search, and how one state follows another.
use ixion.Prelude.{
  ℕ, ◌≤◌, ◌<◌, ◌≡◌, ◌⊎◌, inl, inr, true, List, some, arith, Eq, elem, distinct, get_elem?,
}
use ixion.DepthFirstSearch.Defs.{white, gray, black, Search, Outcome, ok}
use ixion.DepthFirstSearch.Graph.{Edge, Reach, before}
use ixion.DepthFirstSearch.Colors.{color_at, nodes, whites}

module _ {ℓ} {V : Type ℓ} ⦃e : Eq V⦄ (cells : List V) (rels : List (V × List V)) where
  -- What holds of every state of the search: the black cells are those of the result, in which every
  -- cell stands behind those that it depends on, unless they depend on it.
  pub record Inv (s : Search V) : Type ℓ where
    pub same_nodes : nodes s.values ≡ cells
    pub black_sorted :
        (i : ℕ) {v : V}
        → get_elem? cells i ≡ some v
        → color_at s.values i ≡ some black
        → elem v s.sorted ≡ true
    pub sorted_black :
        (i : ℕ) {v : V}
        → get_elem? cells i ≡ some v
        → elem v s.sorted ≡ true
        → color_at s.values i ≡ some black
    pub listed : (v : V) → elem v s.sorted ≡ true → elem v cells ≡ true
    pub once : distinct s.sorted ≡ true
    pub ordered :
        (u v : V)
        → elem u s.sorted ≡ true
        → Edge rels u v
        → (before v u s.sorted ≡ true) ⊎ Reach rels v u

  -- How a later state relates to an earlier one at the same depth of the recursion.
  pub record Later (s t : Search V) : Type 0 where
    pub grays : (i : ℕ) → color_at t.values i ≡ some gray → color_at s.values i ≡ some gray
    pub grays_kept : (i : ℕ) → color_at s.values i ≡ some gray → color_at t.values i ≡ some gray
    pub blacks_kept : (i : ℕ) → color_at s.values i ≡ some black → color_at t.values i ≡ some black
    pub room : whites t.values ≤ whites s.values

  pub Later-refl : (s : Search V) → Later s s
  Later-refl s = record {
    grays = λ i h. h;
    grays_kept = λ i h. h;
    blacks_kept = λ i h. h;
    room = omega arith;
  }

  pub Later-trans : {s t u : Search V} → Later s t → Later t u → Later s u
  Later-trans p q = record {
    grays = λ i h. p.grays i (q.grays i h);
    grays_kept = λ i h. q.grays_kept i (p.grays_kept i h);
    blacks_kept = λ i h. q.blacks_kept i (p.blacks_kept i h);
    room = omega arith;
  }

  -- The gray cells are those whose call of `visit` has not returned: they lead to the cell at hand.
  abbrev pub GrayReach : Search V → V → Type ℓ
  GrayReach s u =
      (j : ℕ) (w : V)
      → get_elem? cells j ≡ some w
      → color_at s.values j ≡ some gray
      → Reach rels w u

  -- What a call that visits a white cell promises, on states with fewer than `n` white cells.
  abbrev pub Visits : (ℕ → Search V → Outcome V) → ℕ → Type ℓ
  Visits go n =
      (i : ℕ) (s : Search V) (v : V)
      → Inv s
      → get_elem? cells i ≡ some v
      → color_at s.values i ≡ some white
      → whites s.values < n
      → GrayReach s v
      → (t : Search V) × (go i s ≡ ok t) × Inv t × Later s t × (color_at t.values i ≡ some black)

  -- A dependent is done with: black, or gray and so part of a cycle.
  abbrev pub IsSettled : Search V → V → Type ℓ
  IsSettled t d =
      (j : ℕ)
      → get_elem? cells j ≡ some d
      → (color_at t.values j ≡ some black) ⊎ (color_at t.values j ≡ some gray)

  pub IsSettled-Later : {s t : Search V} (d : V) → Later s t → IsSettled s d → IsSettled t d
  IsSettled-Later d p h j q = elim (h j q) [
    | inl b ↦ inl (p.blacks_kept j b)
    | inr g ↦ inr (p.grays_kept j g)
  ]
