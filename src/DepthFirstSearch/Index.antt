-- ===== src/DepthFirstSearch/Index.antt =====
-- The index of a value, `get_cell_index`.
use ixion.Prelude.{
  ℕ, zero, suc, ◌≡◌, refl, ap, inl, inr, true, List, [], ◌∷◌, some, arith, Eq, elem, distinct,
  get_elem?, Bool-cases, Option-cases,
}
use ixion.DepthFirstSearch.Defs.{get_cell_index}

module _ {ℓ} {V : Type ℓ} ⦃e : Eq V⦄ where
  pub get_elem?-get_cell_index :
      (d : V) (cells : List V) {j : ℕ}
      → get_cell_index d cells ≡ some j
      → get_elem? cells j ≡ some d
  unfolding get_cell_index
  get_elem?-get_cell_index d [] h = absurd (cc)
  get_elem?-get_cell_index d (c ∷ cells) h = elim (Bool-cases (e.beq d c)) [
    | inl same ↦ ground (arith, e.beq_iff d c)
    | inr other ↦ elim (Option-cases (get_cell_index d cells)) [
      | inl q ↦ ground arith
      | inr (i, q) ↦ ground (arith, get_elem?-get_cell_index d cells q)
    ]
  ]

  -- A value of the list has an index.
  pub get_cell_index_total :
      (d : V) (cells : List V) → elem d cells ≡ true → (j : ℕ) × (get_cell_index d cells ≡ some j)
  unfolding get_cell_index
  get_cell_index_total d [] h = absurd (cc)
  get_cell_index_total d (c ∷ cells) h = elim (Bool-cases (e.beq d c)) [
    | inl same ↦ (0, rw same)
    | inr other ↦ let (j, q) = get_cell_index_total d cells (ground arith) in (suc j, rw (other, q))
  ]

  pub elem-get_elem? :
      (cells : List V) (i : ℕ) {v : V} → get_elem? cells i ≡ some v → elem v cells ≡ true
  elem-get_elem? [] i h = absurd (cc)
  elem-get_elem? (c ∷ cells) zero {v} h = ground (arith, e.beq_iff v c)
  elem-get_elem? (c ∷ cells) (suc i) {v} h = ground (arith, elem-get_elem? cells i h)

  -- Where no value stands twice, an index is known by its value.
  pub get_elem?-injective :
      (cells : List V) (i j : ℕ) {v : V}
      → distinct cells ≡ true
      → get_elem? cells i ≡ some v
      → get_elem? cells j ≡ some v
      → i ≡ j
  get_elem?-injective [] i j u h k = absurd (cc)
  get_elem?-injective (c ∷ cells) zero zero u h k = refl
  get_elem?-injective (c ∷ cells) zero (suc j) {v} u h k =
      ground (arith, elem-get_elem? cells j k, e.beq_iff v c)
  get_elem?-injective (c ∷ cells) (suc i) zero {v} u h k =
      ground (arith, elem-get_elem? cells i h, e.beq_iff v c)
  get_elem?-injective (c ∷ cells) (suc i) (suc j) u h k =
      ap suc (get_elem?-injective cells i j (ground arith) h k)
