-- ===== src/DepthFirstSearch/Assign.antt =====
-- The assignments of `visit` before and behind its loop keep the invariant.
use ixion.Prelude.{
  ℕ, suc, ◌+◌, ◌≤◌, ◌≡◌, refl, sym, ap, ◌∙◌, ◌≢◌, ◌⊎◌, inl, inr, true, false, List, [], ◌∷◌, ◌++◌,
  some, arith, Eq, elem, distinct, get_elem?, Bool-cases, elem-append, distinct-concat,
  elem-concat_self, ℕ_discrete,
}
use ixion.DepthFirstSearch.Defs.{white, gray, black, Search, ok, modify, enter, leave}
use ixion.DepthFirstSearch.Graph.{Edge, Reach, before, before-concat, before-concat_self}
use ixion.DepthFirstSearch.Colors.{
  color_at, whites, nodes-modify, color_at-modify_self, color_at-modify_ne, whites-modify_gray,
  whites-modify_black, get_elem?-some,
}
use ixion.DepthFirstSearch.Index.{
  get_elem?-get_cell_index, get_cell_index_total, elem-get_elem?, get_elem?-injective,
}
use ixion.DepthFirstSearch.Invariant.{Inv, GrayReach, IsSettled}

-- What `enter` does to the colours.
pub enter_lem {ℓ} :
    {V : Type ℓ} (i : ℕ) (s : Search V)
    → color_at s.values i ≡ some white
    → (color_at (enter i s).values i ≡ some gray)
      × ((j : ℕ) → i ≢ j → color_at (enter i s).values j ≡ color_at s.values j)
      × (suc (whites (enter i s).values) ≡ whites s.values)
unfolding enter
enter_lem i s color = (
  color_at-modify_self s.values i _ ((λ n. refl), (λ n. refl)) color,
  (λ j q. color_at-modify_ne s.values i j _ q),
  whites-modify_gray s.values i _ ((λ n. refl), (λ n. refl)) color,
)

module _ {ℓ} {V : Type ℓ} ⦃e : Eq V⦄ (cells : List V) (rels : List (V × List V)) where
  module _ (unique : distinct cells ≡ true) where
    -- `enter` greys one white cell, and the result is as it was.
    pub enter-Inv :
        (i : ℕ) (s : Search V) {v : V}
        → Inv cells rels s
        → get_elem? cells i ≡ some v
        → color_at s.values i ≡ some white
        → Inv cells rels (enter i s)
    unfolding enter
    enter-Inv i s inv at_i color = record {
      same_nodes = nodes-modify s.values i _ {c = gray} ((λ n. refl), (λ n. refl)) ∙ inv.same_nodes;
      black_sorted = λ j at_j b. elim (ℕ_discrete i j) [
        | yes q ↦ absurd (cc (gray_i, b, ap (color_at (enter i s).values) q))
        | no q ↦ inv.black_sorted j at_j (sym (color_at-modify_ne s.values i j _ q) ∙ b)
      ];
      sorted_black = λ j at_j m. elim (ℕ_discrete i j) [
        | yes q ↦ absurd (cc (inv.sorted_black j at_j m, color, ap (color_at s.values) q))
        | no q ↦ color_at-modify_ne s.values i j _ q ∙ inv.sorted_black j at_j m
      ];
      listed = inv.listed;
      once = inv.once;
      ordered = inv.ordered;
    }
      where
        gray_i : color_at (enter i s).values i ≡ some gray
        gray_i = (enter_lem i s color).0

    -- `leave` puts a grey cell behind all that it depends on, but for cycles.
    pub leave_lem :
        (i : ℕ) (s : Search V) (v : V)
        → Inv cells rels s
        → get_elem? cells i ≡ some v
        → color_at s.values i ≡ some gray
        → ((d : V) → Edge rels v d → (elem d cells ≡ true) × IsSettled cells rels s d)
        → GrayReach cells rels s v
        → (t : Search V) × (leave i s ≡ ok t)
          × Inv cells rels t
          × (color_at t.values i ≡ some black)
          × ((j : ℕ) → i ≢ j → color_at t.values j ≡ color_at s.values j)
          × (whites t.values ≤ whites s.values)
    unfolding leave
    leave_lem i s v inv at_i color settled grays =
        let (n, read, same, _) = get_elem?-some s.values i {v = v} (rw inv.same_nodes at_i) color in
        (
          t,
          rw (read, leave, same),
          inv_t,
          black_i,
          others,
          whites-modify_black s.values i _ ((λ n. refl), (λ n. refl)),
        )
      where
        t : Search V
        t = record {
          values =
              modify s.values i (λ m. record m { color = black; time_finished = s.time_stamp + 1 });
          time_stamp = s.time_stamp + 1;
          sorted = s.sorted ++ v ∷ [];
        }

        black_i : color_at t.values i ≡ some black
        black_i = color_at-modify_self s.values i _ ((λ n. refl), (λ n. refl)) color

        others : (j : ℕ) → i ≢ j → color_at t.values j ≡ color_at s.values j
        others j q = color_at-modify_ne s.values i j _ q

        not_sorted : elem v s.sorted ≡ false
        not_sorted = elim (Bool-cases (elem v s.sorted)) [
          | inl m ↦ absurd (cc (inv.sorted_black i at_i m, color))
          | inr m ↦ m
        ]

        ordered_v : (d : V) → Edge rels v d → (before d v t.sorted ≡ true) ⊎ Reach rels d v
        ordered_v d edge =
            let (listed, done) = settled d edge in
            let (j, q) = get_cell_index_total d cells listed in
            let at_j = get_elem?-get_cell_index d cells q in
            elim (done j at_j) [
              | inl b ↦ inl (before-concat_self d v s.sorted (inv.black_sorted j at_j b) not_sorted)
              | inr g ↦ inr (grays j d at_j g)
            ]

        inv_t : Inv cells rels t
        inv_t = record {
          same_nodes =
              nodes-modify s.values i _ {c = black} ((λ n. refl), (λ n. refl)) ∙ inv.same_nodes;
          black_sorted = λ j {v = w} at_j b. elim (ℕ_discrete i j) [
            | yes q ↦
                let same : w ≡ v = cc (at_i, at_j, ap (get_elem? cells) q) in
                rw same (elem-concat_self v s.sorted)
            | no q ↦ ground (
              arith,
              elem-append w s.sorted (v ∷ []),
              inv.black_sorted j at_j (sym (others j q) ∙ b),
            )
          ];
          sorted_black = λ j {v = w} at_j m. elim (ℕ_discrete i j) [
            | yes q ↦ rw (sym q) black_i
            | no q ↦
                others j q
                ∙ inv.sorted_black j at_j (
                    old w m
                      (λ same. q (get_elem?-injective cells i j unique at_i (rw (sym same) at_j))))
          ];
          listed = λ w m. elim (Bool-cases (e.beq w v)) [
            | inl same ↦ rw ((e.beq_iff w v).0 same) (elem-get_elem? cells i at_i)
            | inr other ↦ inv.listed w (ground (arith, elem-append w s.sorted (v ∷ [])))
          ];
          once = distinct-concat v s.sorted inv.once not_sorted;
          ordered = λ u d m edge. elim (Bool-cases (e.beq u v)) [
            | inl same ↦ let q = (e.beq_iff u v).0 same in rw q (ordered_v d (rw q at edge))
            | inr other ↦
                elim (inv.ordered u d (ground (arith, elem-append u s.sorted (v ∷ []))) edge) [
                  | inl b ↦ inl (before-concat d u v s.sorted b)
                  | inr r ↦ inr r
                ]
          ];
        }
          where
            old : (w : V) → elem w t.sorted ≡ true → w ≢ v → elem w s.sorted ≡ true
            old w m ne = ground (arith, elem-append w s.sorted (v ∷ []), e.beq_iff w v)
