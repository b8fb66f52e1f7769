-- ===== src/DepthFirstSearch/Defs.antt =====
-- `depth_first_search` of src/include/depth_first_search.hpp, over a value type with `==`.
-- The hash map from a value to its index holds the first index of each value, so a look-up in it is
-- `get_cell_index`. A `std::map` of sets is an association list, of which only `find` is used.
use ixion.Prelude.{
  ℕ, zero, suc, ◌+◌, List, [], ◌∷◌, ◌++◌, Option, none, some, Eq, Ord, get_elem?, length, map,
  if◌then◌else◌,
}
use ixion.StdSet.{insert}

-- `cell_color_type`
pub data Color : Type 0 where
  white gray black : Color

-- `node_data`
pub record NodeData {ℓ} (V : Type ℓ) : Type ℓ where
  pub color : Color
  pub node : V
  pub time_visited : ℕ
  pub time_finished : ℕ

-- The state that `visit` changes; `sorted` is the vector that the handler appends to.
pub record Search {ℓ} (V : Type ℓ) : Type ℓ where
  pub values : List (NodeData V)
  pub time_stamp : ℕ
  pub sorted : List V

-- A run that returned, or threw `dfs_error` in a state. `stuck` has no counterpart in the program: an
-- index out of range, or fuel that ran out.
pub data Outcome {ℓ} (V : Type ℓ) : Type ℓ where
  ok : Search V → Outcome V
  dfs_error : Search V → Outcome V
  stuck : Outcome V

module _ {ℓ} {A : Type ℓ} where
  -- A write through `operator[]`.
  abbrev pub modify : List A → ℕ → (A → A) → List A
  modify [] i g = []
  modify (x ∷ xs) zero g = g x ∷ xs
  modify (x ∷ xs) (suc i) g = x ∷ modify xs i g

module _ {ℓ} {V : Type ℓ} where
  abbrev pub bind : Outcome V → (Search V → Outcome V) → Outcome V
  bind (ok s) f = f s
  bind (dfs_error s) f = dfs_error s
  bind stuck f = stuck

module _ {ℓ} {V : Type ℓ} ⦃e : Eq V⦄ where
  -- `m_precedent_map.find`
  unfoldable pub find : V → List (V × List V) → Option (List V)
  find p [] = none
  find p ((q, ds) ∷ m) = if e.beq p q then some ds else find p m

  -- `get_cell_index`, by the map that the constructor fills; `none` is where it throws.
  unfoldable pub get_cell_index : V → List V → Option ℕ
  get_cell_index p [] = none
  get_cell_index p (c ∷ cells) =
      if e.beq p c
      then some 0
      else elim (get_cell_index p cells) [ none ↦ none | some i ↦ some (suc i) ]

  -- `get_precedent_cells`: a null pointer and an empty set are both left by the loop at once.
  unfoldable pub get_precedent_cells : V → List (V × List V) → List V
  get_precedent_cells p rels = elim (find p rels) [ none ↦ [] | some ds ↦ ds ]

-- The assignments of `visit` before its loop.
unfoldable pub enter {ℓ} : {V : Type ℓ} → ℕ → Search V → Search V
enter i s = record s {
  values = modify s.values i (λ n. record n { color = gray; time_visited = s.time_stamp + 1 });
  time_stamp = s.time_stamp + 1;
}

-- Those behind it, and the call of the handler.
unfoldable pub leave {ℓ} : {V : Type ℓ} → ℕ → Search V → Outcome V
leave i s = elim (get_elem? s.values i) [
  | none ↦ stuck
  | some n ↦ ok (record {
    values = modify s.values i (λ m. record m { color = black; time_finished = s.time_stamp + 1 });
    time_stamp = s.time_stamp + 1;
    sorted = s.sorted ++ n.node ∷ [];
  })
]

module _ {ℓ} {V : Type ℓ} ⦃e : Eq V⦄ (cells : List V) (rels : List (V × List V)) where
  -- The body of the loop over the dependents, `visit` being the recursive call.
  unfoldable pub explore : (ℕ → Search V → Outcome V) → V → Search V → Outcome V
  explore go d s = elim (get_cell_index d cells) [
    | none ↦ dfs_error s
    | some j ↦ elim (get_elem? s.values j) [
      | none ↦ stuck
      | some n ↦ elim n.color [ white ↦ go j s | gray ↦ ok s | black ↦ ok s ]
    ]
  ]

  unfoldable pub explore_all : (ℕ → Search V → Outcome V) → List V → Search V → Outcome V
  explore_all go [] s = ok s
  explore_all go (d ∷ ds) s = bind (explore go d s) (explore_all go ds)

  -- `visit`; each level of the recursion costs a unit of fuel.
  unfoldable pub visit : ℕ → ℕ → Search V → Outcome V
  visit zero i s = stuck
  visit (suc fuel) i s = elim (get_elem? s.values i) [
    | none ↦ stuck
    | some n ↦
        bind (explore_all (visit fuel) (get_precedent_cells n.node rels) (enter i s)) (leave i)
  ]

  -- The loop of `run` from index `i`, with `k` indices left.
  unfoldable pub visit_all : ℕ → ℕ → ℕ → Search V → Outcome V
  visit_all fuel zero i s = ok s
  visit_all fuel (suc k) i s = elim (get_elem? s.values i) [
    | none ↦ stuck
    | some n ↦ elim n.color [
      | white ↦ bind (visit fuel i s) (visit_all fuel k (i + 1))
      | gray ↦ visit_all fuel k (i + 1) s
      | black ↦ visit_all fuel k (i + 1) s
    ]
  ]

  -- `init`, for cells with no value twice.
  unfoldable pub init : Search V
  init = record {
    values =
        map (λ v. record { color = white; node = v; time_visited = 0; time_finished = 0 }) cells;
    time_stamp = 0;
    sorted = [];
  }

  -- `run`, which catches `dfs_error`: the handler has then seen the values sorted so far.
  unfoldable pub run : Option (List V)
  run = elim (visit_all (suc (length cells)) (length cells) 0 init) [
    | ok s ↦ some s.sorted
    | dfs_error s ↦ some s.sorted
    | stuck ↦ none
  ]

-- `relations::insert`: the value `dep` goes into the set that stands behind `pre`.
module _ {ℓ} {V : Type ℓ} ⦃e : Eq V⦄ ⦃o : Ord V⦄ where
  unfoldable pub insert_relation : V → V → List (V × List V) → List (V × List V)
  insert_relation pre dep [] = (pre, insert dep []) ∷ []
  insert_relation pre dep ((q, ds) ∷ m) =
      if e.beq pre q then (q, insert dep ds) ∷ m else (q, ds) ∷ insert_relation pre dep m
