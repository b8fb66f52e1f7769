-- ===== src/Prelude/Missing.antt =====
-- The measure of a loop that collects elements of a known universe: those that are missing.
use ixion.Prelude.{
  ℕ, suc, ◌<◌, ◌≤◌, true, false, List, [], ◌∷◌, ◌≡◌, inl, inr, arith, Eq, elem, ap, length,
  if◌then◌else◌, Bool-cases,
}

module _ {ℓ} {V : Type ℓ} ⦃e : Eq V⦄ where
  -- The elements of the universe that are not in the set yet.
  abbrev pub missing : List V → List V → ℕ
  missing [] dirty = 0
  missing (u ∷ us) dirty = if elem u dirty then missing us dirty else suc (missing us dirty)

  pub missing_mono :
      (us d d' : List V)
      → ((x : V) → elem x d ≡ true → elem x d' ≡ true)
      → missing us d' ≤ missing us d
  missing_mono [] d d' h = omega arith
  missing_mono (u ∷ us) d d' h = ground (arith, missing_mono us d d' h, h u)

  pub missing_strict :
      (us d d' : List V) (x : V)
      → ((y : V) → elem y d ≡ true → elem y d' ≡ true)
      → elem x us ≡ true
      → elem x d ≡ false
      → elem x d' ≡ true
      → missing us d' < missing us d
  missing_strict [] d d' x h m a b = absurd (cc)
  missing_strict (u ∷ us) d d' x h m a b = elim (Bool-cases (e.beq x u)) [
    | inl same ↦
        let q = (e.beq_iff x u).0 same in
        ground (arith, missing_mono us d d' h, h u, ap (λ y. elem y d) q, ap (λ y. elem y d') q)
    | inr other ↦ ground (arith, missing_strict us d d' x h, h u)
  ]

  pub missing-length : (us d : List V) → missing us d ≤ length us
  missing-length [] d = omega arith
  missing-length (u ∷ us) d = ground (arith, missing-length us d)
