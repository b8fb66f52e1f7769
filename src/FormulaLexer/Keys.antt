-- ===== src/FormulaLexer/Keys.antt =====
-- Where the loop of `error` finds no key.
use ixion.Prelude.{
  ℕ, [], ◌∷◌, ◌++◌, none, true, ◌≡◌, ◌≢◌, ◌==◌, inl, inr, refl, arith, Bool-cases, Option-cases,
}
use ixion.FormulaLexer.Token.{
  FormulaError, ref_result_not_available, division_by_zero, invalid_expression, name_not_found,
  no_range_intersection, invalid_value_type, no_value_available, Bytes,
}
use ixion.FormulaLexer.Defs.{error_keys, Node, child, node_value, is_valid_node, error_loop}
use ixion.FormulaLexer.Loops.{error_key, Has}

-- No error value has a text that the bytes begin with.
abbrev pub Unknown : Bytes → Type 0
Unknown s = (e : FormulaError) (left : Bytes) → s ≢ error_key e ++ left

child-Has :
    (c : ℕ) (k : Bytes) (v : FormulaError) (node : Node)
    → Has (c ∷ k) v node
    → Has k v (child c node)
unfolding child
child-Has c k v [] h = h
child-Has c k v (([], w) ∷ node) (inl h) = absurd (cc)
child-Has c k v (([], w) ∷ node) (inr h) = child-Has c k v node h
child-Has c k v ((d ∷ key, w) ∷ node) (inl (p, q)) =
    let same : (c == d) ≡ true = ground (arith, p) in rw same (inl (cc, q))
child-Has c k v ((d ∷ key, w) ∷ node) (inr h) = elim (Bool-cases (c == d)) [
  | inl same ↦ rw same (inr (child-Has c k v node h))
  | inr other ↦ rw other (child-Has c k v node h)
]

Has-IsValid :
    (k : Bytes) (v : FormulaError) (node : Node) → Has k v node → is_valid_node node ≡ true
Has-IsValid k v [] h = absurd h
Has-IsValid k v (x ∷ node) h = refl

node_value-Has : (v : FormulaError) (node : Node) → Has [] v node → node_value node ≢ none
unfolding node_value
node_value-Has v [] h = absurd h
node_value-Has v (([], w) ∷ node) h = cc
node_value-Has v ((d ∷ key, w) ∷ node) (inl h) = absurd (cc)
node_value-Has v ((d ∷ key, w) ∷ node) (inr h) = node_value-Has v node h

error_loop-none :
    (node : Node) (c : ℕ) (k : Bytes) (v : FormulaError) (left : Bytes)
    → Has (c ∷ k) v node
    → error_loop node ((c ∷ k) ++ left) ≢ none
unfolding error_loop
error_loop-none node c [] v left has =
    let below = child-Has c [] v node has in
    elim (Option-cases (node_value (child c node))) [
      | inr (w, found) ↦ rw (Has-IsValid [] v (child c node) below, found) (cc)
      | inl deeper ↦ absurd (node_value-Has v (child c node) below deeper)
    ]
error_loop-none node c (d ∷ k) v left has =
    let below = child-Has c (d ∷ k) v node has in
    let later = error_loop-none (child c node) d k v left below in
    elim (Option-cases (node_value (child c node))) [
      | inr (w, found) ↦ rw (Has-IsValid (d ∷ k) v (child c node) below, found) (cc)
      | inl deeper ↦ rw (Has-IsValid (d ∷ k) v (child c node) below, deeper) later
    ]

Has-error_key : (e : FormulaError) → Has (error_key e) e error_keys
Has-error_key division_by_zero = inl (refl, refl)
Has-error_key no_value_available = inr (inl (refl, refl))
Has-error_key name_not_found = inr (inr (inl (refl, refl)))
Has-error_key no_range_intersection = inr (inr (inr (inl (refl, refl))))
Has-error_key invalid_expression = inr (inr (inr (inr (inl (refl, refl)))))
Has-error_key ref_result_not_available = inr (inr (inr (inr (inr (inl (refl, refl))))))
Has-error_key invalid_value_type = inr (inr (inr (inr (inr (inr (inl (refl, refl)))))))

key_found :
    (k : Bytes) (e : FormulaError) (left : Bytes)
    → Has k e error_keys
    → k ≢ []
    → error_loop error_keys (k ++ left) ≢ none
key_found [] e left has some_char = absurd (some_char refl)
key_found (c ∷ k) e left has some_char = error_loop-none error_keys c k e left has

error_key-ne-nil : (e : FormulaError) → error_key e ≢ []
error_key-ne-nil e = ground arith

-- The loop misses no key.
pub error_loop-Unknown : (s : Bytes) → error_loop error_keys s ≡ none → Unknown s
error_loop-Unknown s h e left q =
    key_found (error_key e) e left (Has-error_key e) (error_key-ne-nil e) (rw q at h)
