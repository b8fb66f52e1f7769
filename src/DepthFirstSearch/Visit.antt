-- ===== src/DepthFirstSearch/Visit.antt =====
-- One call of `visit`: it ends, blackens its cell, and leaves a result in which every cell stands
-- behind the cells that it depends on, but for cycles.
use ixion.Prelude.{
  ℕ, zero, suc, ◌<◌, ◌≡◌, refl, sym, ap, ◌∙◌, ◌≢◌, inl, inr, true, List, [], ◌∷◌, some, arith, Eq,
  elem, distinct, get_elem?, Bool-cases, beq_refl, ℕ_discrete,
}
use ixion.DepthFirstSearch.Defs.{
  Color, white, gray, black, NodeData, Search, Outcome, ok, enter, get_cell_index,
  get_precedent_cells, explore, explore_all, visit,
}
use ixion.DepthFirstSearch.Graph.{Edge, here, step}
use ixion.DepthFirstSearch.Colors.{color_at, whites, get_elem?-some, color_at_of_node}
use ixion.DepthFirstSearch.Index.{
  get_elem?-get_cell_index, get_cell_index_total, elem-get_elem?, get_elem?-injective,
}
use ixion.DepthFirstSearch.Assign.{enter_lem, enter-Inv, leave_lem}
use ixion.DepthFirstSearch.Invariant.{
  Inv, Later, Later-refl, Later-trans, GrayReach, Visits, IsSettled, IsSettled-Later,
}

module _ {ℓ} {V : Type ℓ} ⦃e : Eq V⦄ (cells : List V) (rels : List (V × List V)) where
  module _ (unique : distinct cells ≡ true) where
    explore_lem :
        (go : ℕ → Search V → Outcome V) (n : ℕ) (u d : V) (s : Search V)
        → Visits cells rels go n
        → elem d cells ≡ true
        → Edge rels u d
        → Inv cells rels s
        → whites s.values < n
        → GrayReach cells rels s u
        → (t : Search V) × (explore cells rels go d s ≡ ok t)
          × Inv cells rels t
          × Later cells rels s t
          × IsSettled cells rels t d
    unfolding explore
    explore_lem go n u d s visits here_d edge inv room grays =
        let (j, q) = get_cell_index_total d cells here_d in
        let at_j = get_elem?-get_cell_index d cells q in
        let (c, color) = color_at_of_node s.values j {v = d} (rw inv.same_nodes at_j) in
        let (m, read, _, painted) =
          get_elem?-some s.values j {v = d} (rw inv.same_nodes at_j) color in
        by_color c j q at_j color m read painted
      where
        by_color :
            (c : Color) (j : ℕ)
            → get_cell_index d cells ≡ some j
            → get_elem? cells j ≡ some d
            → color_at s.values j ≡ some c
            → (m : NodeData V) → get_elem? s.values j ≡ some m
            → m.color ≡ c
            → (t : Search V) × (explore cells rels go d s ≡ ok t)
              × Inv cells rels t
              × Later cells rels s t
              × IsSettled cells rels t d
        by_color white j q at_j color m read painted =
            let (t, runs, inv', later, done) =
              visits j s d inv at_j color room
                (λ k w at_k gray_k. step (grays k w at_k gray_k) edge) in
            (
              t,
              rw (q, explore, read, painted) runs,
              inv',
              later,
              λ k at_k. rw (get_elem?-injective cells k j unique at_k at_j) (inl done),
            )
        by_color gray j q at_j color m read painted = (
          s,
          rw (q, explore, read, painted),
          inv,
          Later-refl cells rels s,
          λ k at_k. rw (get_elem?-injective cells k j unique at_k at_j) (inr color),
        )
        by_color black j q at_j color m read painted = (
          s,
          rw (q, explore, read, painted),
          inv,
          Later-refl cells rels s,
          λ k at_k. rw (get_elem?-injective cells k j unique at_k at_j) (inl color),
        )

    explore_all_lem :
        (go : ℕ → Search V → Outcome V) (n : ℕ) (u : V) (ds : List V) (s : Search V)
        → Visits cells rels go n
        → ((d : V) → elem d ds ≡ true → (elem d cells ≡ true) × Edge rels u d)
        → Inv cells rels s
        → whites s.values < n
        → GrayReach cells rels s u
        → (t : Search V) × (explore_all cells rels go ds s ≡ ok t)
          × Inv cells rels t
          × Later cells rels s t
          × ((d : V) → elem d ds ≡ true → IsSettled cells rels t d)
    unfolding explore_all
    explore_all_lem go n u [] s visits edges inv room grays =
        (s, refl, inv, Later-refl cells rels s, λ d h. absurd (cc))
    explore_all_lem go n u (d ∷ ds) s visits edges inv room grays =
        let (listed, edge) = edges d (ground (arith, beq_refl d)) in
        let (t, runs, inv_t, later_t, settled) =
          explore_lem go n u d s visits listed edge inv room grays in
        let (w, runs', inv_w, later_w, rest) =
          explore_all_lem go n u ds t visits (λ x h. edges x (ground arith)) inv_t
            (omega (arith, later_t.room)) (λ j x at_j g. grays j x at_j (later_t.grays j g)) in
        (
          w,
          rw (runs, runs'),
          inv_w,
          Later-trans cells rels later_t later_w,
          λ x h. elim (Bool-cases (e.beq x d)) [
            | inl same ↦ rw ((e.beq_iff x d).0 same) (IsSettled-Later cells rels d later_w settled)
            | inr other ↦ rest x (ground arith)
          ],
        )

    -- With more fuel than there are white cells, `visit` does what its callers rely on.
    pub visit-Visits :
        ((u v : V) → elem u cells ≡ true → Edge rels u v → elem v cells ≡ true)
        → (fuel : ℕ) → Visits cells rels (visit cells rels fuel) fuel
    unfolding visit
    visit-Visits closed zero i s v inv at_i color room grays = absurd (omega arith)
    visit-Visits closed (suc fuel) i s v inv at_i color room grays =
        let (n, read, same, _) = get_elem?-some s.values i {v = v} (rw inv.same_nodes at_i) color in
        let (t, runs, inv_t, later, settled) =
          explore_all_lem (visit cells rels fuel) fuel v (get_precedent_cells v rels) (enter i s)
            (visit-Visits closed fuel) edges (enter-Inv cells rels unique i s inv at_i color)
            (omega (arith, entered.2)) grays_entered in
        let (w, leaves, inv_w, black_i, others, fewer) =
          leave_lem cells rels unique i t v inv_t at_i (later.grays_kept i entered.0)
            (λ d edge. ((edges d edge).0, settled d edge))
            (λ j x at_j g. grays_entered j x at_j (later.grays j g)) in
        (
          w,
          rw (read, visit, same, runs) leaves,
          inv_w,
          record {
            grays = λ j g. elim (ℕ_discrete i j) [
              | yes q ↦ absurd (cc (black_i, g, ap (color_at w.values) q))
              | no q ↦ sym (entered.1 j q) ∙ later.grays j (sym (others j q) ∙ g)
            ];
            grays_kept = λ j g. elim (ℕ_discrete i j) [
              | yes q ↦ absurd (cc (color, g, ap (color_at s.values) q))
              | no q ↦ others j q ∙ later.grays_kept j (entered.1 j q ∙ g)
            ];
            blacks_kept = λ j b. elim (ℕ_discrete i j) [
              | yes q ↦ rw (sym q) black_i
              | no q ↦ others j q ∙ later.blacks_kept j (entered.1 j q ∙ b)
            ];
            room = omega (arith, entered.2, later.room);
          },
          black_i,
        )
      where
        entered :
            (color_at (enter i s).values i ≡ some gray)
            × ((j : ℕ) → i ≢ j → color_at (enter i s).values j ≡ color_at s.values j)
            × (suc (whites (enter i s).values) ≡ whites s.values)
        entered = enter_lem i s color

        edges :
            (d : V)
            → elem d (get_precedent_cells v rels) ≡ true
            → (elem d cells ≡ true) × Edge rels v d
        edges d h = (closed v d (elem-get_elem? cells i at_i) h, h)

        grays_entered : GrayReach cells rels (enter i s) v
        grays_entered j x at_j g = elim (ℕ_discrete i j) [
          | yes q ↦ let same : x ≡ v = cc (at_i, at_j, ap (get_elem? cells) q) in rw same here
          | no q ↦ grays j x at_j (sym (entered.1 j q) ∙ g)
        ]
