-- ===== src/FormulaNameResolver/A1/Bounds.antt =====
-- The positions that the parser of the A1 form gives.
use ixion.Prelude.{
  ℕ, zero, suc, ◌+◌, ◌*◌, ◌≤◌, ◌<◌, ◌/◌, ◌-◌, Bool, false, ◌&&◌, [], ◌∷◌, length, ◌≡◌, ◌⊎◌, refl,
  arith, inl, inr, Bool-cases, ltb, leb, ◌==◌, if◌then◌else◌,
}
use ixion.Prelude.Int.{pos}
use ixion.Address.Defs.{Address, rc_max, row_unset, column_unset}
use ixion.FormulaLexer.Token.{Bytes}
use ixion.FormulaNameResolver.A1.Defs.{
  ParseMode, column_mode, row_mode, Parts, Step, continued, failed, colon, overflow, Parsed,
  invalid, undefined, valid_address, range_expected, to_upper, column_digit, add_row, row_digit,
  dollar, a1_step, a1_loop, a1_end, from_one, parse_address_excel_a1,
}

-- A row that a 32-bit integer holds when it is counted from 1.
abbrev pub IsRow : Address → Type 0
IsRow b = (row : ℕ) × (b.row ≡ pos row) × (row < 2147483647)

-- A row without a column, or a column below the bound with a row or without one.
abbrev pub IsA1 : Address → Type 0
IsA1 b =
    ((b.column ≡ column_unset) × IsRow b)
    ⊎ ((column : ℕ) × (b.column ≡ pos column)
        × (column < rc_max / 26 - 26)
        × ((b.row ≡ row_unset) ⊎ IsRow b))

-- What a text of so many characters may be parsed as.
abbrev pub Fits : ℕ → Parsed → Type 0
Fits n invalid = Unit
Fits n undefined = 10 ≤ n
Fits n (valid_address b) = IsA1 b
Fits n (range_expected b rest) = IsA1 b

-- The first number with more digits.
abbrev power : ℕ → ℕ
power zero = 1
power (suc n) = power n * 10

ten_digits : (n : ℕ) → 2147483647 < power n → 10 ≤ n
ten_digits zero h = absurd (omega arith)
ten_digits (suc zero) h = absurd (omega arith)
ten_digits (suc (suc zero)) h = absurd (omega arith)
ten_digits (suc (suc (suc zero))) h = absurd (omega arith)
ten_digits (suc (suc (suc (suc zero)))) h = absurd (omega arith)
ten_digits (suc (suc (suc (suc (suc zero))))) h = absurd (omega arith)
ten_digits (suc (suc (suc (suc (suc (suc zero)))))) h = absurd (omega arith)
ten_digits (suc (suc (suc (suc (suc (suc (suc zero))))))) h = absurd (omega arith)
ten_digits (suc (suc (suc (suc (suc (suc (suc (suc zero)))))))) h = absurd (omega arith)
ten_digits (suc (suc (suc (suc (suc (suc (suc (suc (suc zero))))))))) h = absurd (omega arith)
ten_digits (suc (suc (suc (suc (suc (suc (suc (suc (suc (suc n)))))))))) h = omega arith

-- The parts when so many characters have been read.
abbrev PartsFit : ℕ → Parts → Type 0
PartsFit n a = (a.column ≤ rc_max / 26 - 26) × (a.row ≤ 2147483647) × (a.row < power n)

abbrev StepFits : ℕ → Step → Type 0
StepFits n (continued mode a) = PartsFit n a
StepFits n failed = Unit
StepFits n colon = Unit
StepFits n overflow = 2147483647 < power n

column_digit-StepFits :
    (mode : ParseMode) (a : Parts) (c n : ℕ)
    → PartsFit n a
    → StepFits (suc n) (column_digit mode a c)
unfolding column_digit
column_digit-StepFits row_mode a c n h = tt
column_digit-StepFits column_mode a c n (h, k, l) =
    elim (Bool-cases (
      ltb (rc_max / 26 - 26)
        ((if a.column == 0 then a.column else a.column * 26) + (c - b'A' + 1)))) [
          | inl large ↦ rw (large, column_digit) tt
          | inr small ↦ rw (small, column_digit) (ground arith, k, omega arith)
        ]

add_row-StepFits :
    (a : Parts) (digit n : ℕ) → digit < 10 → PartsFit n a → StepFits (suc n) (add_row a digit)
unfolding add_row
add_row-StepFits a digit n d (h, k, l) =
    let times : (if a.row == 0 then a.row else a.row * 10) ≡ a.row * 10 = ground arith in
    elim (Bool-cases (ltb 2147483647 ((if a.row == 0 then a.row else a.row * 10) + digit))) [
      | inl large ↦ rw (large, add_row) (ground (arith, times))
      | inr small ↦ rw (small, add_row) (h, ground arith, omega (arith, times))
    ]

row_digit-StepFits :
    (mode : ParseMode) (a : Parts) (c n : ℕ)
    → c - b'0' < 10
    → PartsFit n a
    → StepFits (suc n) (row_digit mode a c)
unfolding row_digit
row_digit-StepFits row_mode a c n d h = add_row-StepFits a (c - b'0') n d h
row_digit-StepFits column_mode a c n d h = elim (Bool-cases (c == b'0')) [
  | inl nought ↦ rw (nought, row_digit) tt
  | inr other ↦ rw (other, row_digit) (add_row-StepFits a (c - b'0') n d h)
]

dollar-StepFits :
    (mode : ParseMode) (a : Parts) (n : ℕ) → PartsFit n a → StepFits (suc n) (dollar mode a)
unfolding dollar
dollar-StepFits row_mode a n h = tt
dollar-StepFits column_mode a n (h, k, l) = elim (Bool-cases (a.column == 0)) [
  | inl first ↦ rw (first, dollar) (h, k, omega arith)
  | inr later ↦ rw (later, dollar) (h, k, omega arith)
]

a1_step-StepFits :
    (mode : ParseMode) (a : Parts) (c n : ℕ) → PartsFit n a → StepFits (suc n) (a1_step mode a c)
unfolding a1_step
a1_step-StepFits mode a c n h = elim (Bool-cases (leb b'A' c && leb c b'Z')) [
  | inl letter ↦ rw (letter, a1_step) (column_digit-StepFits mode a c n h)
  | inr other ↦ elim (Bool-cases (leb b'0' c && leb c b'9')) [
    | inl digit ↦
        rw (other, digit, a1_step) (row_digit-StepFits mode a c n (ground (arith, digit)) h)
    | inr sign ↦ elim (Bool-cases (c == b':')) [
      | inl end ↦ rw (other, sign, end, a1_step) tt
      | inr more ↦ elim (Bool-cases (c == b'$')) [
        | inl absolute ↦ rw (other, sign, more, absolute, a1_step) (dollar-StepFits mode a n h)
        | inr unknown ↦ rw (other, sign, more, unknown, a1_step) tt
      ]
    ]
  ]
]

suc_nonzero : (n : ℕ) → (suc n == 0) ≡ false
suc_nonzero n = ground arith

a1_end-Fits :
    (base : Address) (mode : ParseMode) (row column n : ℕ) (abs_row abs_column : Bool)
    (result : Address → Parsed)
    → column ≤ rc_max / 26 - 26
    → row ≤ 2147483647
    → ((b : Address) → IsA1 b → Fits n (result b))
    → Fits n (
        a1_end base mode
          (record { row = row; column = column; abs_row = abs_row; abs_column = abs_column })
          result)
unfolding a1_end from_one
a1_end-Fits base row_mode zero column n abs_row abs_column result h r k = tt
a1_end-Fits base row_mode (suc row) zero n abs_row abs_column result h r k =
    rw (suc_nonzero row, a1_end) (k _ (inl (refl, (row, refl, r))))
a1_end-Fits base row_mode (suc row) (suc column) n abs_row abs_column result h r k =
    rw (suc_nonzero row, a1_end) (k _ (inr (column, refl, h, inr (row, refl, r))))
a1_end-Fits base column_mode row zero n abs_row abs_column result h r k = tt
a1_end-Fits base column_mode row (suc column) n abs_row abs_column result h r k =
    rw (suc_nonzero column, a1_end) (k _ (inr (column, refl, h, inl refl)))

move : (k n : ℕ) → k + suc n ≡ suc k + n
move k n = omega arith

a1_loop-Fits :
    (base : Address) (mode : ParseMode) (a : Parts) (n : ℕ) (s : Bytes)
    → PartsFit n a
    → Fits (length s + n) (a1_loop base mode a s)
unfolding a1_loop
a1_loop-Fits base mode a n [] (h, r, l) =
    a1_end-Fits base mode a.row a.column (0 + n) a.abs_row a.abs_column (λ b. valid_address b) h r
      (λ b p. p)
a1_loop-Fits base mode a n (c ∷ s) (h, r, l) =
    round (a1_step mode a (to_upper c)) (a1_step-StepFits mode a (to_upper c) n (h, r, l))
      (λ m b. a1_loop-Fits base m b (suc n) s)
  where
    round :
        (x : Step)
        → StepFits (suc n) x
        → ((m : ParseMode) (b : Parts)
            → PartsFit (suc n) b
            → Fits (length s + suc n) (a1_loop base m b s))
        → Fits (suc (length s) + n) (elim x [
          | failed ↦ invalid
          | overflow ↦ undefined
          | colon ↦ a1_end base mode a (λ b. range_expected b (c ∷ s))
          | continued mode' a' ↦ a1_loop base mode' a' s
        ])
    round failed q again = tt
    round overflow q again = omega (arith, ten_digits (suc n) q)
    round colon q again =
        a1_end-Fits base mode a.row a.column (suc (length s) + n) a.abs_row a.abs_column
          (λ b. range_expected b (c ∷ s)) h r (λ b p. p)
    round (continued m b) q again = rw (← move (length s) n) (again m b q)

-- An address that is parsed, in front of a colon or whole, has a column below its bound, with a row or for all
-- rows, or it has a row for all columns. It is never for all rows and columns, and its row, counted from 1, is one of
-- the positive 32-bit integers. Digits of a row that overflow need a text of ten characters or more.
pub parse_address_excel_a1-Fits :
    (base : Address) (s : Bytes) → Fits (length s) (parse_address_excel_a1 base s)
unfolding parse_address_excel_a1
parse_address_excel_a1-Fits base s =
    rw (sum (length s)) (a1_loop-Fits _ column_mode _ 0 s (omega arith, omega arith, omega arith))
  where
    sum : (k : ℕ) → k ≡ k + 0
    sum k = omega arith
