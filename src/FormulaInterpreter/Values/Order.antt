-- ===== src/FormulaInterpreter/Values/Order.antt =====
-- The order that the comparisons of `expression` stand on: numbers before strings, strings by their bytes.
use ixion.Prelude.{Bool, true, false, not, [], ◌∷◌, ◌≡◌, refl, ltb, ◌==◌, if◌then◌else◌, arith}
use ixion.FormulaLexer.Token.{Bytes}
use ixion.FormulaParser.Token.{
  Fopcode, fop_equal, fop_not_equal, fop_less, fop_less_equal, fop_greater, fop_greater_equal,
}
use ixion.FormulaInterpreter.Values.Cells.{Numbers}
use ixion.FormulaInterpreter.Values.Defs.{
  StackValue, value, string, Matrices, less_bytes, push_test, compare_values, compare_strings,
  compare_value_to_string, compare_string_to_value, compare,
}
use ixion.StringPool.Defs.{eq_bytes}

pub data Verdict : Type 0 where
  below same above : Verdict

pub data Test : Type 0 where
  equal not_equal less less_equal greater greater_equal : Test

abbrev pub opcode : Test → Fopcode
opcode equal = fop_equal
opcode not_equal = fop_not_equal
opcode less = fop_less
opcode less_equal = fop_less_equal
opcode greater = fop_greater
opcode greater_equal = fop_greater_equal

-- What a test says of two values that stand in an order.
abbrev pub answer : Test → Verdict → Bool
answer equal below = false
answer equal same = true
answer equal above = false
answer not_equal below = true
answer not_equal same = false
answer not_equal above = true
answer less below = true
answer less same = false
answer less above = false
answer less_equal below = true
answer less_equal same = true
answer less_equal above = false
answer greater below = false
answer greater same = false
answer greater above = true
answer greater_equal below = false
answer greater_equal same = true
answer greater_equal above = true

abbrev pub order_bytes : Bytes → Bytes → Verdict
order_bytes [] [] = same
order_bytes [] (d ∷ t) = below
order_bytes (c ∷ s) [] = above
order_bytes (c ∷ s) (d ∷ t) =
    let rest = order_bytes s t in if ltb c d then below else if c == d then rest else above

less_bytes-order_bytes : (s t : Bytes) → less_bytes s t ≡ answer less (order_bytes s t)
unfolding less_bytes
less_bytes-order_bytes [] [] = refl
less_bytes-order_bytes [] (d ∷ t) = refl
less_bytes-order_bytes (c ∷ s) [] = refl
less_bytes-order_bytes (c ∷ s) (d ∷ t) = ground (arith, less_bytes-order_bytes s t)

less_bytes-order_bytes_above : (s t : Bytes) → less_bytes t s ≡ answer greater (order_bytes s t)
unfolding less_bytes
less_bytes-order_bytes_above [] [] = refl
less_bytes-order_bytes_above [] (d ∷ t) = refl
less_bytes-order_bytes_above (c ∷ s) [] = refl
less_bytes-order_bytes_above (c ∷ s) (d ∷ t) = ground (arith, less_bytes-order_bytes_above s t)

eq_bytes-order_bytes : (s t : Bytes) → eq_bytes s t ≡ answer equal (order_bytes s t)
eq_bytes-order_bytes [] [] = refl
eq_bytes-order_bytes [] (d ∷ t) = refl
eq_bytes-order_bytes (c ∷ s) [] = refl
eq_bytes-order_bytes (c ∷ s) (d ∷ t) = ground (arith, eq_bytes-order_bytes s t)

abbrev pub mirror : Verdict → Verdict
mirror below = above
mirror same = same
mirror above = below

-- Numbers that are ordered, as those of floating point are without a NaN.
pub record Ordered {ℓ} {Double : Type ℓ} (num : Numbers Double) (rank : Double → Double → Verdict)
    : Type ℓ where
  pub equal_rank : (a b : Double) → num.equal a b ≡ answer equal (rank a b)
  pub less_rank : (a b : Double) → num.less a b ≡ answer less (rank a b)
  pub less_equal_rank : (a b : Double) → num.less_equal a b ≡ answer less_equal (rank a b)
  pub rank_mirror : (a b : Double) → rank b a ≡ mirror (rank a b)

pub data Scalar {ℓ} (Double : Type ℓ) : Type ℓ where
  number : Double → Scalar Double
  text : Bytes → Scalar Double

abbrev pub stack_value {ℓ} : {Double Matrix : Type ℓ} → Scalar Double → StackValue Double Matrix
stack_value (number a) = value a
stack_value (text s) = string s

abbrev pub order {ℓ} :
    {Double : Type ℓ} → (Double → Double → Verdict) → Scalar Double → Scalar Double → Verdict
order rank (number a) (number b) = rank a b
order rank (number a) (text t) = below
order rank (text s) (number b) = above
order rank (text s) (text t) = order_bytes s t

not_equal_answer : (o : Verdict) → not (answer equal o) ≡ answer not_equal o
not_equal_answer below = refl
not_equal_answer same = refl
not_equal_answer above = refl

less_equal_answer : (o : Verdict) → not (answer greater o) ≡ answer less_equal o
less_equal_answer below = refl
less_equal_answer same = refl
less_equal_answer above = refl

greater_equal_answer : (o : Verdict) → not (answer less o) ≡ answer greater_equal o
greater_equal_answer below = refl
greater_equal_answer same = refl
greater_equal_answer above = refl

less_mirror : (o : Verdict) → answer less (mirror o) ≡ answer greater o
less_mirror below = refl
less_mirror same = refl
less_mirror above = refl

less_equal_mirror : (o : Verdict) → answer less_equal (mirror o) ≡ answer greater_equal o
less_equal_mirror below = refl
less_equal_mirror same = refl
less_equal_mirror above = refl

module _ {ℓ} {Double Matrix : Type ℓ} (num : Numbers Double) where
  compare_strings-order_bytes :
      (t : Test) (s u : Bytes)
      → compare_strings {Matrix = Matrix} num (opcode t) s u
        ≡ push_test num (answer t (order_bytes s u))
  unfolding compare_strings
  compare_strings-order_bytes equal s u = rw (eq_bytes-order_bytes s u) refl
  compare_strings-order_bytes not_equal s u = rw (eq_bytes-order_bytes s u, not_equal_answer) refl
  compare_strings-order_bytes less s u = rw (less_bytes-order_bytes s u) refl
  compare_strings-order_bytes less_equal s u =
      rw (less_bytes-order_bytes_above s u, less_equal_answer) refl
  compare_strings-order_bytes greater s u = rw (less_bytes-order_bytes_above s u) refl
  compare_strings-order_bytes greater_equal s u =
      rw (less_bytes-order_bytes s u, greater_equal_answer) refl

  compare_values-rank :
      {rank : Double → Double → Verdict}
      → Ordered num rank
      → (t : Test) (a b : Double)
      → compare_values {Matrix = Matrix} num (opcode t) a b ≡ push_test num (answer t (rank a b))
  unfolding compare_values
  compare_values-rank o equal a b = rw (o.equal_rank a b) refl
  compare_values-rank o not_equal a b = rw (o.equal_rank a b, not_equal_answer) refl
  compare_values-rank o less a b = rw (o.less_rank a b) refl
  compare_values-rank o less_equal a b = rw (o.less_equal_rank a b) refl
  compare_values-rank o greater a b = rw (o.less_rank b a, o.rank_mirror a b, less_mirror) refl
  compare_values-rank o greater_equal a b =
      rw (o.less_equal_rank b a, o.rank_mirror a b, less_equal_mirror) refl

  -- Where the numbers are ordered, each of the six comparisons of two values that are numbers or strings pushes, as a
  -- number, what that test says of their place in one order: that of the numbers, every number before every string,
  -- and strings by their first difference.
  pub compare-order :
      (mat : Matrices Double Matrix) {rank : Double → Double → Verdict}
      → Ordered num rank
      → (t : Test) (v w : Scalar Double)
      → compare num mat (opcode t) (stack_value v) (stack_value w)
        ≡ push_test num (answer t (order rank v w))
  unfolding compare compare_value_to_string compare_string_to_value
  compare-order mat o t (number a) (number b) = compare_values-rank o t a b
  compare-order mat o equal (number a) (text u) = refl
  compare-order mat o not_equal (number a) (text u) = refl
  compare-order mat o less (number a) (text u) = refl
  compare-order mat o less_equal (number a) (text u) = refl
  compare-order mat o greater (number a) (text u) = refl
  compare-order mat o greater_equal (number a) (text u) = refl
  compare-order mat o equal (text s) (number b) = refl
  compare-order mat o not_equal (text s) (number b) = refl
  compare-order mat o less (text s) (number b) = refl
  compare-order mat o less_equal (text s) (number b) = refl
  compare-order mat o greater (text s) (number b) = refl
  compare-order mat o greater_equal (text s) (number b) = refl
  compare-order mat o t (text s) (text u) = compare_strings-order_bytes t s u
