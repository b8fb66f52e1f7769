-- ===== src/FormulaInterpreter/Values/Stack/Takes.antt =====
-- The pops that the operators take their values by, against the interface of the interpreter, which takes the top and
-- then converts it.
use ixion.Prelude.{List, [], ◌∷◌, ◌≡◌, refl, ◌⊎◌, inl, inr}
use ixion.FormulaLexer.Token.{invalid_value_type}
use ixion.FormulaInterpreter.Operations.{
  Run, ran, threw, Thrown, follow, pop, formula_error, formula_stack_error,
}
use ixion.FormulaInterpreter.Values.Defs.{
  StackValue, boolean, error, value, string, single_ref, range_ref, matrix,
}
use ixion.FormulaInterpreter.Values.Cells.{Numbers, View, get_numeric_value}
use ixion.FormulaInterpreter.Values.Stack.Defs.{
  Resolved, resolved_matrix, resolved_numeric, resolved_string, text_of_bool, leaving, numeric_of,
  pop_value, string_of_cell, pop_string, pop_range_value, maybe_pop_matrix, pop_matrix_or_numeric,
  pop_matrix_or_string,
}

leaving-follow {ℓ κ μ} :
    {A : Type ℓ} {B : Type κ} {C : Type μ} (r : Run A) (f : A → B) (ws : C)
    → follow (leaving r ws) (λ (a, rest). ran (f a, rest)) ≡ leaving (follow r (λ a. ran (f a))) ws
unfolding follow
leaving-follow (ran a) f ws = refl
leaving-follow (threw e) f ws = refl

Run-cases {ℓ} : {A : Type ℓ} (r : Run A) → ((a : A) × (r ≡ ran a)) ⊎ ((e : Thrown) × (r ≡ threw e))
Run-cases (ran a) = inl (a, refl)
Run-cases (threw e) = inr (e, refl)

module _ {ℓ} {Double Matrix : Type ℓ} (num : Numbers Double) (view : View Double Matrix) where
  abbrev pub as_matrix_or_numeric : StackValue Double Matrix → Run (Resolved Double Matrix)
  as_matrix_or_numeric (boolean b) = ran (resolved_numeric (num.of_bool b))
  as_matrix_or_numeric (error e) = threw (formula_error invalid_value_type)
  as_matrix_or_numeric (value a) = ran (resolved_numeric a)
  as_matrix_or_numeric (string s) = ran (resolved_numeric num.zero)
  as_matrix_or_numeric (single_ref a) =
      follow (get_numeric_value num view (view.cells a)) (λ x. ran (resolved_numeric x))
  as_matrix_or_numeric (range_ref r) =
      follow (view.get_range_value r) (λ m. ran (resolved_matrix m))
  as_matrix_or_numeric (matrix m) = ran (resolved_matrix m)

  abbrev pub as_matrix_or_string : StackValue Double Matrix → Run (Resolved Double Matrix)
  as_matrix_or_string (boolean b) = ran (resolved_string (text_of_bool b))
  as_matrix_or_string (error e) = threw formula_stack_error
  as_matrix_or_string (value a) = ran (resolved_string (view.text_of a))
  as_matrix_or_string (string s) = ran (resolved_string s)
  as_matrix_or_string (single_ref a) =
      follow (string_of_cell num view (view.cells a)) (λ s. ran (resolved_string s))
  as_matrix_or_string (range_ref r) = follow (view.get_range_value r) (λ m. ran (resolved_matrix m))
  as_matrix_or_string (matrix m) = ran (resolved_matrix m)

  pop_matrix_or_numeric_lem :
      (vs : List (StackValue Double Matrix))
      → pop_matrix_or_numeric num view vs
        ≡ follow (pop vs) (λ (v, ws). leaving (as_matrix_or_numeric v) ws)
  unfolding pop_matrix_or_numeric maybe_pop_matrix pop_range_value pop_value numeric_of pop follow
  pop_matrix_or_numeric_lem [] = refl
  pop_matrix_or_numeric_lem (boolean b ∷ vs) = refl
  pop_matrix_or_numeric_lem (error e ∷ vs) = refl
  pop_matrix_or_numeric_lem (value a ∷ vs) = refl
  pop_matrix_or_numeric_lem (string s ∷ vs) = refl
  pop_matrix_or_numeric_lem (single_ref a ∷ vs) =
      leaving-follow (get_numeric_value num view (view.cells a)) resolved_numeric vs
  pop_matrix_or_numeric_lem (range_ref r ∷ vs) = elim (Run-cases (view.get_range_value r)) [
    | inl (m, at) ↦ rw at refl
    | inr (e, at) ↦ rw at refl
  ]
  pop_matrix_or_numeric_lem (matrix m ∷ vs) = refl

  pop_matrix_or_string_lem :
      (vs : List (StackValue Double Matrix))
      → pop_matrix_or_string num view vs
        ≡ follow (pop vs) (λ (v, ws). leaving (as_matrix_or_string v) ws)
  unfolding pop_matrix_or_string maybe_pop_matrix pop_range_value pop_string pop follow
  pop_matrix_or_string_lem [] = refl
  pop_matrix_or_string_lem (boolean b ∷ vs) = refl
  pop_matrix_or_string_lem (error e ∷ vs) = refl
  pop_matrix_or_string_lem (value a ∷ vs) = refl
  pop_matrix_or_string_lem (string s ∷ vs) = refl
  pop_matrix_or_string_lem (single_ref a ∷ vs) =
      leaving-follow (string_of_cell num view (view.cells a)) resolved_string vs
  pop_matrix_or_string_lem (range_ref r ∷ vs) = elim (Run-cases (view.get_range_value r)) [
    | inl (m, at) ↦ rw at refl
    | inr (e, at) ↦ rw at refl
  ]
  pop_matrix_or_string_lem (matrix m ∷ vs) = refl

  -- What is popped as a matrix or a number, and what is popped as a matrix or a string, is the top alone, converted,
  -- and the rest stays: a matrix and the values of a range as a matrix, and any other value as `pop_value` or
  -- `pop_string` does. On an empty stack, or where the conversion throws, the pop throws.
  pub pop_matrix_or_lem :
      (vs : List (StackValue Double Matrix))
      → (pop_matrix_or_numeric num view vs
          ≡ follow (pop vs) (λ (v, ws). leaving (as_matrix_or_numeric v) ws))
        × (pop_matrix_or_string num view vs
            ≡ follow (pop vs) (λ (v, ws). leaving (as_matrix_or_string v) ws))
  pop_matrix_or_lem vs = (pop_matrix_or_numeric_lem vs, pop_matrix_or_string_lem vs)
