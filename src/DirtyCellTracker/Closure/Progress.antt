-- ===== src/DirtyCellTracker/Closure/Progress.antt =====
-- The invariant of the loops: what is dirty, and what waits for its round.
use ixion.Prelude.{
  true, false, not, ◌&&◌, ◌||◌, List, [], ◌≡◌, ◌↔◌, ◌⊎◌, inl, inr, arith, Eq, elem, Bool-cases,
}
use ixion.DirtyCellTracker.Closure.Marks.{affects, affects-elem, elem-affects}

module _ {ℓ} {V : Type ℓ} ⦃e : Eq V⦄ (affected : V → List V) where
  -- What a change of the seeds makes dirty: what they affect, and what that affects affected in turn.
  pub data Dirty (seeds : List V) : V → Type ℓ where
    from_seed : (u : V) {r : V} → elem u seeds ≡ true → elem r (affected u) ≡ true → Dirty seeds r
    onward : (u : V) {r : V} → Dirty seeds u → elem r (affected u) ≡ true → Dirty seeds r

  -- The state of a loop between two rounds: `cur` still has to be looked at.
  pub record Progress (seeds base cur dirty : List V) : Type ℓ where
    pub sound : (x : V) → elem x dirty ≡ true → (elem x base ≡ true) ⊎ Dirty seeds x
    pub cur_sound : (x : V) → elem x cur ≡ true → (elem x seeds ≡ true) ⊎ Dirty seeds x
    pub complete :
        (u : V)
        → (elem u seeds ≡ true) ⊎ (elem u dirty ≡ true)
        → (elem u cur ≡ true) ⊎ ((r : V) → elem r (affected u) ≡ true → elem r dirty ≡ true)
    pub grows : (x : V) → elem x base ≡ true → elem x dirty ≡ true

  -- One round, which adds what the current ranges affect.
  pub Progress-round :
      (seeds base cur dirty dirty' next : List V)
      → ((x : V) → elem x dirty' ≡ (affects affected x cur || elem x dirty))
      → ((x : V) → elem x next ≡ (affects affected x cur && not (elem x dirty)))
      → Progress seeds base cur dirty
      → Progress seeds base next dirty'
  Progress-round seeds base cur dirty dirty' next d n p = record {
    sound = λ x m. elim (Bool-cases (elem x dirty)) [
      | inl old ↦ p.sound x old
      | inr new ↦ inr (spread x (ground (arith, d x)))
    ];
    cur_sound = λ x m. inr (spread x (ground (arith, n x)));
    complete = λ u m. elim (Bool-cases (elem u next)) [
      | inl waits ↦ inl waits
      | inr rests ↦ inr (λ r edge. looked_at u r m rests edge)
    ];
    grows = λ x m. ground (arith, d x, p.grows x);
  }
    where
      spread : (x : V) → affects affected x cur ≡ true → Dirty seeds x
      spread x h =
          let (c, at, m) = affects-elem affected x cur h in
          elim (p.cur_sound c at) [ inl s ↦ from_seed c s m | inr r ↦ onward c r m ]

      through :
          (u r : V)
          → (elem u seeds ≡ true) ⊎ (elem u dirty ≡ true)
          → elem r (affected u) ≡ true
          → elem r dirty' ≡ true
      through u r m edge = elim (p.complete u m) [
        | inl now ↦ let spread_r = elem-affects affected r u cur now edge in ground (arith, d r)
        | inr done ↦ let old = done r edge in ground (arith, d r)
      ]

      looked_at :
          (u r : V)
          → (elem u seeds ≡ true) ⊎ (elem u dirty' ≡ true)
          → elem u next ≡ false
          → elem r (affected u) ≡ true
          → elem r dirty' ≡ true
      looked_at u r (inl s) rests edge = through u r (inl s) edge
      looked_at u r (inr m) rests edge = through u r (inr (ground (arith, d u, n u))) edge

  -- At the end, with nothing left to look at.
  pub Progress-end :
      (seeds base dirty : List V)
      → Progress seeds base [] dirty
      → (x : V) → (elem x dirty ≡ true) ↔ ((elem x base ≡ true) ⊎ Dirty seeds x)
  Progress-end seeds base dirty p x =
      (p.sound x, λ h. elim h [ inl b ↦ p.grows x b | inr r ↦ all x r ])
    where
      edge_in :
          (u r : V)
          → (elem u seeds ≡ true) ⊎ (elem u dirty ≡ true)
          → elem r (affected u) ≡ true
          → elem r dirty ≡ true
      edge_in u r m edge = elim (p.complete u m) [ inl now ↦ absurd (cc) | inr done ↦ done r edge ]

      all : (y : V) → Dirty seeds y → elem y dirty ≡ true
      all y (from_seed u s edge) = edge_in u y (inl s) edge
      all y (onward u r edge) = edge_in u y (inr (all u r)) edge
