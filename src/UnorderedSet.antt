-- ===== src/UnorderedSet.antt =====
-- `std::unordered_set`: a list with no value twice. The order in which a loop meets the elements is not
-- specified; it is a parameter, `IterationOrder`, of which only the elements are known.
use ixion.Prelude.{
  true, not, ◌&&◌, ◌||◌, List, [], ◌∷◌, ◌≡◌, refl, arith, Eq, elem, distinct, if◌then◌else◌,
}

module _ {ℓ} {A : Type ℓ} ⦃e : Eq A⦄ where
  -- `insert`, or `emplace`, which leaves a set that has the value as it is.
  unfoldable pub insert : A → List A → List A
  insert a s = if elem a s then s else a ∷ s

  -- `insert(first, last)`.
  unfoldable pub insert_all : List A → List A → List A
  insert_all [] s = s
  insert_all (a ∷ vs) s = insert_all vs (insert a s)

  -- `erase` by value.
  unfoldable pub erase : A → List A → List A
  erase a [] = []
  erase a (x ∷ xs) = if e.beq a x then xs else x ∷ erase a xs

  pub elem-insert : (b a : A) (s : List A) → elem b (insert a s) ≡ (e.beq b a || elem b s)
  unfolding insert
  elem-insert b a s = ground (arith, e.beq_iff b a)

  pub elem-insert_all : (b : A) (vs s : List A) → elem b (insert_all vs s) ≡ (elem b vs || elem b s)
  unfolding insert_all
  elem-insert_all b [] s = refl
  elem-insert_all b (a ∷ vs) s =
      ground (arith, elem-insert_all b vs (insert a s), elem-insert b a s)

  pub insert-distinct : (a : A) (s : List A) → distinct s ≡ true → distinct (insert a s) ≡ true
  unfolding insert
  insert-distinct a s h = ground arith

  pub insert_all-distinct : (vs s : List A) → distinct s ≡ true → distinct (insert_all vs s) ≡ true
  unfolding insert_all
  insert_all-distinct [] s h = h
  insert_all-distinct (a ∷ vs) s h = insert_all-distinct vs (insert a s) (insert-distinct a s h)

  pub elem-erase :
      (b a : A) (s : List A)
      → distinct s ≡ true
      → elem b (erase a s) ≡ (not (e.beq b a) && elem b s)
  unfolding erase
  elem-erase b a [] h = ground arith
  elem-erase b a (x ∷ xs) h =
      ground (arith, elem-erase b a xs, e.beq_iff a x, e.beq_iff b a, e.beq_iff b x)

  pub erase-distinct : (a : A) (s : List A) → distinct s ≡ true → distinct (erase a s) ≡ true
  unfolding erase
  erase-distinct a [] h = refl
  erase-distinct a (x ∷ xs) h = ground (arith, erase-distinct a xs, elem-erase x a xs)

-- The order of a loop over a set.
pub record IterationOrder {ℓ} (A : Type ℓ) (e : Eq A) : Type ℓ where
  pub order : List A → List A
  pub elem_order : (a : A) (s : List A) → elem ⦃e = e⦄ a (order s) ≡ elem ⦃e = e⦄ a s
  pub distinct_order : (s : List A) → distinct ⦃e = e⦄ s ≡ true → distinct ⦃e = e⦄ (order s) ≡ true
