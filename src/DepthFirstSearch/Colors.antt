-- ===== src/DepthFirstSearch/Colors.antt =====
-- What the assignments of `visit` do to the colours and the nodes of the vector of values.
use ixion.Prelude.{
  ℕ, zero, suc, ◌≤◌, ◌≡◌, refl, ap, ◌≢◌, List, [], ◌∷◌, Option, none, some, arith, get_elem?,
}
use ixion.DepthFirstSearch.Defs.{Color, white, gray, black, NodeData, modify}

module _ {ℓ} {V : Type ℓ} where
  -- The colour at an index.
  abbrev pub color_at : List (NodeData V) → ℕ → Option Color
  color_at [] i = none
  color_at (n ∷ ns) zero = some n.color
  color_at (n ∷ ns) (suc i) = color_at ns i

  abbrev pub nodes : List (NodeData V) → List V
  nodes [] = []
  nodes (n ∷ ns) = n.node ∷ nodes ns

  abbrev pub whites : List (NodeData V) → ℕ
  whites [] = 0
  whites (n ∷ ns) = elim n.color [ white ↦ suc (whites ns) | gray ↦ whites ns | black ↦ whites ns ]

  -- A change that keeps the node and leaves colour `c`.
  abbrev pub Paints : (NodeData V → NodeData V) → Color → Type ℓ
  Paints g c = ((n : NodeData V) → (g n).node ≡ n.node) × ((n : NodeData V) → (g n).color ≡ c)

  pub nodes-modify :
      (ns : List (NodeData V)) (i : ℕ) (g : NodeData V → NodeData V) {c : Color}
      → Paints g c
      → nodes (modify ns i g) ≡ nodes ns
  nodes-modify [] i g p = refl
  nodes-modify (n ∷ ns) zero g p = ground (arith, p.0 n)
  nodes-modify (n ∷ ns) (suc i) g p = ground (arith, nodes-modify ns i g p)

  pub color_at-modify_self :
      (ns : List (NodeData V)) (i : ℕ) (g : NodeData V → NodeData V) {c d : Color}
      → Paints g c
      → color_at ns i ≡ some d
      → color_at (modify ns i g) i ≡ some c
  color_at-modify_self [] i g p h = absurd (cc)
  color_at-modify_self (n ∷ ns) zero g p h = ground (arith, p.1 n)
  color_at-modify_self (n ∷ ns) (suc i) g p h = color_at-modify_self ns i g p h

  pub color_at-modify_ne :
      (ns : List (NodeData V)) (i j : ℕ) (g : NodeData V → NodeData V)
      → i ≢ j
      → color_at (modify ns i g) j ≡ color_at ns j
  color_at-modify_ne [] i j g h = refl
  color_at-modify_ne (n ∷ ns) zero zero g h = absurd (h refl)
  color_at-modify_ne (n ∷ ns) zero (suc j) g h = refl
  color_at-modify_ne (n ∷ ns) (suc i) zero g h = refl
  color_at-modify_ne (n ∷ ns) (suc i) (suc j) g h = color_at-modify_ne ns i j g (λ q. h (ap suc q))

  pub whites-modify_gray :
      (ns : List (NodeData V)) (i : ℕ) (g : NodeData V → NodeData V)
      → Paints g gray
      → color_at ns i ≡ some white
      → suc (whites (modify ns i g)) ≡ whites ns
  whites-modify_gray [] i g p h = absurd (cc)
  whites-modify_gray (n ∷ ns) zero g p h = ground (arith, p.1 n)
  whites-modify_gray (n ∷ ns) (suc i) g p h = ground (arith, whites-modify_gray ns i g p)

  pub whites-modify_black :
      (ns : List (NodeData V)) (i : ℕ) (g : NodeData V → NodeData V)
      → Paints g black
      → whites (modify ns i g) ≤ whites ns
  whites-modify_black [] i g p = omega arith
  whites-modify_black (n ∷ ns) zero g p = ground (arith, p.1 n)
  whites-modify_black (n ∷ ns) (suc i) g p = ground (arith, whites-modify_black ns i g p)

  -- A read through `operator[]` sees the node and the colour.
  pub get_elem?-some :
      (ns : List (NodeData V)) (i : ℕ) {v : V} {c : Color}
      → get_elem? (nodes ns) i ≡ some v
      → color_at ns i ≡ some c
      → (n : NodeData V) × (get_elem? ns i ≡ some n) × (n.node ≡ v) × (n.color ≡ c)
  get_elem?-some [] i h k = absurd (cc)
  get_elem?-some (n ∷ ns) zero h k = (n, refl, cc, cc)
  get_elem?-some (n ∷ ns) (suc i) h k = get_elem?-some ns i h k

  pub color_at_of_node :
      (ns : List (NodeData V)) (i : ℕ) {v : V}
      → get_elem? (nodes ns) i ≡ some v
      → (c : Color) × (color_at ns i ≡ some c)
  color_at_of_node [] i h = absurd (cc)
  color_at_of_node (n ∷ ns) zero h = (n.color, refl)
  color_at_of_node (n ∷ ns) (suc i) h = color_at_of_node ns i h
