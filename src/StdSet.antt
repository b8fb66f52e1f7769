-- ===== src/StdSet.antt =====
-- `std::set`: a list in ascending order of `operator<`, with no value twice.
use ixion.Prelude.{
  Bool, true, false, ◌&&◌, ◌||◌, List, [], ◌∷◌, ◌≡◌, refl, arith, Eq, Ord, elem, distinct,
  if◌then◌else◌,
}

module _ {ℓ} {A : Type ℓ} ⦃e : Eq A⦄ ⦃o : Ord A⦄ where
  -- `insert`, which leaves a set that has the value as it is.
  unfoldable pub insert : A → List A → List A
  insert a [] = a ∷ []
  insert a (x ∷ xs) = if o.lt a x then a ∷ x ∷ xs else if e.beq a x then x ∷ xs else x ∷ insert a xs

  abbrev pub all_above : A → List A → Bool
  all_above a [] = true
  all_above a (x ∷ xs) = o.lt a x && all_above a xs

  -- The order that the elements of a set are kept in.
  abbrev pub is_sorted : List A → Bool
  is_sorted [] = true
  is_sorted (x ∷ xs) = all_above x xs && is_sorted xs

  pub elem-insert : (b a : A) (s : List A) → elem b (insert a s) ≡ (e.beq b a || elem b s)
  unfolding insert
  elem-insert b a [] = refl
  elem-insert b a (x ∷ xs) =
      ground (arith, elem-insert b a xs, e.beq_iff a x, e.beq_iff b a, e.beq_iff b x)

  all_above_trans :
      (a b : A) (s : List A) → o.lt a b ≡ true → all_above b s ≡ true → all_above a s ≡ true
  all_above_trans a b [] h k = refl
  all_above_trans a b (x ∷ xs) h k = ground (arith, all_above_trans a b xs, o.lt_trans a b x)

  all_above-insert :
      (x a : A) (s : List A)
      → o.lt x a ≡ true
      → all_above x s ≡ true
      → all_above x (insert a s) ≡ true
  unfolding insert
  all_above-insert x a [] h k = ground arith
  all_above-insert x a (y ∷ s) h k = ground (arith, all_above-insert x a s)

  -- The invariant of a set is kept.
  pub insert-is_sorted : (a : A) (s : List A) → is_sorted s ≡ true → is_sorted (insert a s) ≡ true
  unfolding insert
  insert-is_sorted a [] h = refl
  insert-is_sorted a (x ∷ xs) h = ground (
    arith,
    insert-is_sorted a xs,
    all_above-insert x a xs,
    all_above_trans a x xs,
    o.lt_total a x,
    e.beq_iff a x,
  )

  not_elem-all_above : (a : A) (s : List A) → all_above a s ≡ true → elem a s ≡ false
  not_elem-all_above a [] h = refl
  not_elem-all_above a (x ∷ xs) h =
      ground (arith, not_elem-all_above a xs, e.beq_iff a x, o.lt_irrefl a)

  -- So the invariant leaves no value twice.
  pub distinct_of_sorted : (s : List A) → is_sorted s ≡ true → distinct s ≡ true
  distinct_of_sorted [] h = refl
  distinct_of_sorted (x ∷ xs) h = ground (arith, distinct_of_sorted xs, not_elem-all_above x xs)
