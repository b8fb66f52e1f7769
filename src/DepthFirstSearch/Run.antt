-- ===== src/DepthFirstSearch/Run.antt =====
-- The whole run of the search: it ends, and sorts its cells.
use ixion.Prelude.{
  ℕ, zero, suc, ◌+◌, ◌≤◌, ◌<◌, ◌≡◌, refl, ap, ◌≢◌, ◌⊎◌, true, List, [], ◌∷◌, some, arith, Eq, elem,
  distinct, get_elem?, length, map, Bool-eq, ℕ_discrete, add-one,
}
use ixion.DepthFirstSearch.Defs.{
  Color, white, gray, black, NodeData, Search, ok, visit, visit_all, init, run,
}
use ixion.DepthFirstSearch.Graph.{Edge, Reach, before}
use ixion.DepthFirstSearch.Colors.{color_at, nodes, whites, get_elem?-some, color_at_of_node}
use ixion.DepthFirstSearch.Index.{get_elem?-get_cell_index, get_cell_index_total}
use ixion.DepthFirstSearch.Invariant.{Inv}
use ixion.DepthFirstSearch.Visit.{visit-Visits}

module _ {ℓ} {V : Type ℓ} where
  abbrev fresh : List V → List (NodeData V)
  fresh = map (λ v. record { color = white; node = v; time_visited = 0; time_finished = 0 })

  nodes-fresh : (cells : List V) → nodes (fresh cells) ≡ cells
  nodes-fresh [] = refl
  nodes-fresh (c ∷ cells) = ap (◌∷◌ c) (nodes-fresh cells)

  fresh_white : (cells : List V) (i : ℕ) {c : Color} → color_at (fresh cells) i ≡ some c → c ≡ white
  fresh_white [] i h = absurd (cc)
  fresh_white (c ∷ cells) zero h = cc
  fresh_white (c ∷ cells) (suc i) h = fresh_white cells i h

  whites-fresh : (cells : List V) → whites (fresh cells) ≡ length cells
  whites-fresh [] = refl
  whites-fresh (c ∷ cells) = ap suc (whites-fresh cells)

  get_elem?-lt : (xs : List V) (i : ℕ) → i < length xs → (v : V) × (get_elem? xs i ≡ some v)
  get_elem?-lt [] i h = absurd (omega arith)
  get_elem?-lt (x ∷ xs) zero h = (x, refl)
  get_elem?-lt (x ∷ xs) (suc i) h = get_elem?-lt xs i (omega arith)

  lt-length_of_get : (xs : List V) (i : ℕ) {v : V} → get_elem? xs i ≡ some v → i < length xs
  lt-length_of_get [] i h = absurd (cc)
  lt-length_of_get (x ∷ xs) zero h = omega arith
  lt-length_of_get (x ∷ xs) (suc i) h = omega (arith, lt-length_of_get xs i h)

module _ {ℓ} {V : Type ℓ} ⦃e : Eq V⦄ (cells : List V) (rels : List (V × List V)) where
  -- What holds between two rounds of the loop of `run`, before index `i`.
  record Between (i : ℕ) (s : Search V) : Type ℓ where
    inv : Inv cells rels s
    no_gray : (j : ℕ) → color_at s.values j ≢ some gray
    done : (j : ℕ) → j < i → color_at s.values j ≡ some black
    room : whites s.values ≤ length cells

  module _ (unique : distinct cells ≡ true)
      (closed : (u v : V) → elem u cells ≡ true → Edge rels u v → elem v cells ≡ true) where
    abbrev fuel : ℕ
    fuel = suc (length cells)

    round :
        (i : ℕ) (s : Search V) (v : V)
        → get_elem? cells i ≡ some v
        → color_at s.values i ≡ some white
        → Between i s
        → (t : Search V) × (visit cells rels fuel i s ≡ ok t) × Between (suc i) t
    round i s v at_i color h =
        let (t, runs, inv', later, black_i) =
          visit-Visits cells rels unique closed fuel i s v h.inv at_i color (omega (arith, h.room))
            (λ j w at_j g. absurd (h.no_gray j g)) in
        (
          t,
          runs,
          record {
            inv = inv';
            no_gray = λ j g. h.no_gray j (later.grays j g);
            done = λ j lt. elim (ℕ_discrete j i) [
              | yes q ↦ rw q black_i
              | no q ↦ later.blacks_kept j (h.done j (omega arith))
            ];
            room = omega (arith, later.room, h.room);
          },
        )

    skip :
        (i : ℕ) (s : Search V) → color_at s.values i ≡ some black → Between i s → Between (suc i) s
    skip i s color h = record {
      inv = h.inv;
      no_gray = h.no_gray;
      done = λ j lt. elim (ℕ_discrete j i) [ yes q ↦ rw q color | no q ↦ h.done j (omega arith) ];
      room = h.room;
    }

    loop :
        (k i : ℕ) (s : Search V)
        → i + k ≡ length cells
        → Between i s
        → (t : Search V) × (visit_all cells rels fuel k i s ≡ ok t) × Between (length cells) t
    unfolding visit_all
    loop zero i s q h = let same : i ≡ length cells = omega arith in (s, refl, rw (← same) h)
    loop (suc k) i s q h =
        let (v, at_i) = get_elem?-lt cells i (omega arith) in
        let (c, color) = color_at_of_node s.values i {v = v} (rw h.inv.same_nodes at_i) in
        let (n, read, _, painted) =
          get_elem?-some s.values i {v = v} (rw h.inv.same_nodes at_i) color in
        by_color c v at_i color n read painted (loop k (i + 1))
      where
        by_color :
            (c : Color) (v : V)
            → get_elem? cells i ≡ some v
            → color_at s.values i ≡ some c
            → (n : NodeData V) → get_elem? s.values i ≡ some n
            → n.color ≡ c
            → ((t : Search V)
                → i + 1 + k ≡ length cells
                → Between (i + 1) t
                → (w : Search V) × (visit_all cells rels fuel k (i + 1) t ≡ ok w)
                  × Between (length cells) w)
            → (w : Search V) × (visit_all cells rels fuel (suc k) i s ≡ ok w)
              × Between (length cells) w
        by_color white v at_i color n read painted more =
            let (t, runs, between) = round i s v at_i color h in
            let (w, runs', end) = more t (omega arith) (rw add-one between) in
            (w, rw (read, visit_all, painted, runs) runs', end)
        by_color gray v at_i color n read painted more = absurd (h.no_gray i color)
        by_color black v at_i color n read painted more =
            let (w, runs', end) = more s (omega arith) (rw add-one (skip i s color h)) in
            (w, rw (read, visit_all, painted) runs', end)

    start : Between 0 (init cells rels)
    unfolding init
    start = record {
      inv = record {
        same_nodes = nodes-fresh cells;
        black_sorted = λ i at_i b. absurd (cc (fresh_white cells i b));
        sorted_black = λ i at_i m. absurd (cc);
        listed = λ v m. absurd (cc);
        once = refl;
        ordered = λ u v m edge. absurd (cc);
      };
      no_gray = λ j g. cc (fresh_white cells j g);
      done = λ j lt. absurd (omega arith);
      room = omega (arith, whites-fresh cells);
    }

    -- Over cells with no value twice, whose dependents are all among them, the search ends with
    -- every cell once, and with no other value. A dependent of a cell stands in front of it, unless
    -- the dependent leads back to the cell.
    pub run-sorts :
        (r : List V) × (run cells rels ≡ some r)
        × (distinct r ≡ true)
        × ((v : V) → elem v r ≡ elem v cells)
        × ((u v : V) → elem u cells ≡ true → Edge rels u v → (before v u r ≡ true) ⊎ Reach rels v u)
    unfolding run
    run-sorts =
        let (t, runs, end) = loop (length cells) 0 (init cells rels) (omega arith) start in
        let all = λ (v : V) (m : elem v cells ≡ true).
          let (j, q) = get_cell_index_total v cells m in
          let at_j = get_elem?-get_cell_index v cells q in
          end.inv.black_sorted j at_j (end.done j (lt-length_of_get cells j at_j)) in
        (
          t.sorted,
          rw (runs, run),
          end.inv.once,
          (λ v. Bool-eq _ _ (end.inv.listed v) (all v)),
          (λ u v m edge. end.inv.ordered u v (all u m) edge),
        )
