-- ===== src/Prelude/Member.antt =====
-- Membership in a list as a Boolean test, over a type with an equality test.
use mathlib.Core.Path.{◌≡◌, refl}
use mathlib.Core.Logic.{◌↔◌}
use mathlib.Core.Bool.{Bool, true, false, not, ◌&&◌, ◌||◌}
use mathlib.Core.List.{List, [], ◌∷◌, ◌++◌}
use native.Mathlib.Omega.{arith}

-- `operator==` of a type, deciding equality.
pub record Eq {ℓ} (A : Type ℓ) : Type ℓ where
  pub beq : A → A → Bool
  pub beq_iff : (a b : A) → (beq a b ≡ true) ↔ (a ≡ b)

-- `operator<` of a type: a strict total order.
pub record Ord {ℓ} (A : Type ℓ) : Type ℓ where
  pub lt : A → A → Bool
  pub lt_irrefl : (a : A) → lt a a ≡ false
  pub lt_trans : (a b c : A) → lt a b ≡ true → lt b c ≡ true → lt a c ≡ true
  pub lt_total : (a b : A) → lt a b ≡ false → lt b a ≡ false → a ≡ b

module _ {ℓ} {A : Type ℓ} ⦃e : Eq A⦄ where
  abbrev pub elem : A → List A → Bool
  elem a [] = false
  elem a (x ∷ xs) = e.beq a x || elem a xs

  -- No value stands in the list twice.
  abbrev pub distinct : List A → Bool
  distinct [] = true
  distinct (x ∷ xs) = not (elem x xs) && distinct xs

  pub elem-append : (a : A) (xs ys : List A) → elem a (xs ++ ys) ≡ (elem a xs || elem a ys)
  elem-append a [] ys = refl
  elem-append a (x ∷ xs) ys = ground (arith, elem-append a xs ys)

  pub beq_refl : (a : A) → e.beq a a ≡ true
  beq_refl a = (e.beq_iff a a).1 refl

  pub elem-concat_self : (a : A) (xs : List A) → elem a (xs ++ a ∷ []) ≡ true
  elem-concat_self a xs = ground (arith, elem-append a xs (a ∷ []), beq_refl a)

  -- Appending a value that is not there keeps a list free of repetitions.
  pub distinct-concat :
      (a : A) (xs : List A)
      → distinct xs ≡ true
      → elem a xs ≡ false
      → distinct (xs ++ a ∷ []) ≡ true
  distinct-concat a [] d h = refl
  distinct-concat a (x ∷ xs) d h =
      ground (arith, distinct-concat a xs, elem-append x xs (a ∷ []), e.beq_iff x a, e.beq_iff a x)
