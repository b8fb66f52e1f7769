-- ===== src/DepthFirstSearch/Graph.antt =====
-- The relation that the depth-first search walks along, and positions in its result.
use ixion.Prelude.{
  Bool, true, false, not, ◌&&◌, ◌||◌, List, [], ◌∷◌, ◌++◌, ◌≡◌, arith, Eq, elem, elem-append,
}
use ixion.DepthFirstSearch.Defs.{get_precedent_cells}

module _ {ℓ} {V : Type ℓ} ⦃e : Eq V⦄ where
  -- `v` is in the set that the relations keep for `u`.
  abbrev pub Edge : List (V × List V) → V → V → Type 0
  Edge rels u v = elem v (get_precedent_cells u rels) ≡ true

  -- A walk along such edges.
  pub data Reach (rels : List (V × List V)) (u : V) : V → Type ℓ where
    here : Reach rels u u
    step : {v w : V} → Reach rels u v → Edge rels v w → Reach rels u w

  -- `v` stands in the list in front of the first `u`.
  abbrev pub before : V → V → List V → Bool
  before v u [] = false
  before v u (x ∷ xs) = not (e.beq u x) && (e.beq v x && elem u xs || before v u xs)

  pub before-concat :
      (v u w : V) (xs : List V) → before v u xs ≡ true → before v u (xs ++ w ∷ []) ≡ true
  before-concat v u w [] h = absurd (cc)
  before-concat v u w (x ∷ xs) h = ground (arith, before-concat v u w xs, elem-append u xs (w ∷ []))

  pub before-concat_self :
      (v u : V) (xs : List V)
      → elem v xs ≡ true
      → elem u xs ≡ false
      → before v u (xs ++ u ∷ []) ≡ true
  before-concat_self v u [] h k = absurd (cc)
  before-concat_self v u (x ∷ xs) h k =
      ground
        (arith, before-concat_self v u xs, elem-append u xs (u ∷ []), e.beq_iff u u, e.beq_iff u x)
