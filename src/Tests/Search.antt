-- ===== src/Tests/Search.antt =====
-- An instance of the theorem on the depth-first search.
use ixion.Prelude.{
  ℕ, true, List, [], ◌∷◌, some, ◌≡◌, ◌⊎◌, refl, arith, elem, distinct, Eq, ◌==◌, ==_iff,
}
use ixion.DepthFirstSearch.Defs.{run, get_precedent_cells, find}
use ixion.DepthFirstSearch.Graph.{Edge, Reach, before}
use ixion.DepthFirstSearch.Run.{run-sorts}

instance abbrev number_eq : Eq ℕ
number_eq = record { beq = ◌==◌; beq_iff = ==_iff }

-- 1 depends on 2, 2 on 3 and 3 on 2.
abbrev relations : List (ℕ × List ℕ)
relations = (1, 2 ∷ []) ∷ (2, 3 ∷ []) ∷ (3, 2 ∷ []) ∷ []

abbrev numbers : List ℕ
numbers = 1 ∷ 2 ∷ 3 ∷ []

numbers_closed : (u v : ℕ) → elem u numbers ≡ true → Edge relations u v → elem v numbers ≡ true
unfolding get_precedent_cells find
numbers_closed u v m edge = ground arith

run-sorts_example :
    (r : List ℕ) × (run numbers relations ≡ some r)
    × (distinct r ≡ true)
    × ((v : ℕ) → elem v r ≡ elem v numbers)
    × ((u v : ℕ)
        → elem u numbers ≡ true
        → Edge relations u v
        → (before v u r ≡ true) ⊎ Reach relations v u)
run-sorts_example = run-sorts numbers relations refl numbers_closed
