-- ===== src/FormulaNameResolver/A1/Digits.antt =====
-- The loop over the letters of a column and over the digits of a row.
use ixion.Prelude.{
  ℕ, zero, suc, ◌+◌, ◌-◌, ◌*◌, ◌/◌, ◌%◌, ◌≤◌, ◌<◌, Bool, ◌∷◌, ◌≡◌, refl, ◌∙◌, arith, ap, inl, inr,
  Bool-cases, ltb,
}
use ixion.Address.Defs.{Address, rc_max}
use ixion.FormulaLexer.Token.{Bytes}
use ixion.FormulaNameResolver.A1.Defs.{
  column_letters, digits, ParseMode, column_mode, row_mode, Parts, continued, to_upper,
  column_digit, add_row, row_digit, a1_step, a1_loop,
}

to_upper-small : (c : ℕ) → c < b'a' → to_upper c ≡ c
to_upper-small c h = ground arith

letter_step :
    (a : Parts) (d : ℕ)
    → d < 26
    → a.column * 26 + d + 1 ≤ rc_max / 26 - 26
    → a1_step column_mode a (to_upper (b'A' + d))
      ≡ continued column_mode (record a { column = a.column * 26 + d + 1 })
unfolding a1_step column_digit
letter_step a d h k = rw (to_upper-small (b'A' + d) (omega arith)) (ground arith)

digit_step :
    (a : Parts) (d : ℕ)
    → d < 10
    → a.row * 10 + d ≤ 2147483647
    → a1_step row_mode a (to_upper (b'0' + d))
      ≡ continued row_mode (record a { row = a.row * 10 + d })
unfolding a1_step row_digit add_row
digit_step a d h k = rw (to_upper-small (b'0' + d) (omega arith)) (ground arith)

pub a1_loop-continued :
    (base : Address) (mode mode' : ParseMode) (a a' : Parts) (c : ℕ) (s : Bytes)
    → a1_step mode a (to_upper c) ≡ continued mode' a'
    → a1_loop base mode a (c ∷ s) ≡ a1_loop base mode' a' s
unfolding a1_loop
a1_loop-continued base mode mode' a a' c s e = rw (e, a1_loop) refl

module _ (base : Address) (abs_row abs_column : Bool) where
  abbrev pub parts : ℕ → ℕ → Parts
  parts row column = record {
    row = row;
    column = column;
    abs_row = abs_row;
    abs_column = abs_column;
  }

  -- The letters of a column make its position, counted from 1.
  pub a1_loop-column_letters :
      (n col : ℕ) (rest : Bytes)
      → col < n
      → col + 1 ≤ rc_max / 26 - 26
      → a1_loop base column_mode (parts 0 0) (column_letters n col rest)
        ≡ a1_loop base column_mode (parts 0 (col + 1)) rest
  unfolding column_letters a1_loop
  a1_loop-column_letters zero col rest h k = absurd (omega arith)
  a1_loop-column_letters (suc n) col rest h k = elim (Bool-cases (ltb col 26)) [
    | inl small ↦
        rw (small, column_letters)
          (a1_loop-continued base column_mode column_mode (parts 0 0) _ (b'A' + col) rest
              (letter_step (parts 0 0) col (ground arith) (omega arith))
            ∙ ap (λ (c : ℕ). a1_loop base column_mode (parts 0 c) rest) (omega arith))
    | inr large ↦
        let big : 26 ≤ col = ground arith in
        let q : ℕ = (col - col % 26) / 26 - 1 in
        rw (large, column_letters)
          (a1_loop-column_letters n q ((b'A' + col % 26) ∷ rest) (omega arith) (omega arith)
            ∙ a1_loop-continued base column_mode column_mode (parts 0 (q + 1)) _ (b'A' + col % 26)
                rest (letter_step (parts 0 (q + 1)) (col % 26) (omega arith) (omega arith))
            ∙ ap (λ (c : ℕ). a1_loop base column_mode (parts 0 c) rest) (omega arith))
  ]

  row_step :
      (mode : ParseMode) (n column : ℕ)
      → n < 10
      → 0 < n
      → a1_step mode (parts 0 column) (to_upper (b'0' + n)) ≡ continued row_mode (parts n column)
  unfolding a1_step row_digit add_row
  row_step column_mode n column h p = rw (to_upper-small (b'0' + n) (omega arith)) (ground arith)
  row_step row_mode n column h p = rw (to_upper-small (b'0' + n) (omega arith)) (ground arith)

  -- The digits of a row make the row, in either mode.
  pub a1_loop-digits :
      (k n column : ℕ) (mode : ParseMode) (rest : Bytes)
      → n < k
      → 0 < n
      → n ≤ 2147483647
      → a1_loop base mode (parts 0 column) (digits k n rest)
        ≡ a1_loop base row_mode (parts n column) rest
  unfolding digits a1_loop
  a1_loop-digits zero n column mode rest h p q = absurd (omega arith)
  a1_loop-digits (suc k) n column mode rest h p q = elim (Bool-cases (ltb n 10)) [
    | inl small ↦
        rw (small, digits)
          (a1_loop-continued base mode row_mode (parts 0 column) (parts n column) (b'0' + n) rest
            (row_step mode n column (ground arith) p))
    | inr large ↦
        rw (large, digits)
          (a1_loop-digits k (n / 10) column mode ((b'0' + n % 10) ∷ rest) (ground arith)
              (ground arith) (omega arith)
            ∙ a1_loop-continued base row_mode row_mode (parts (n / 10) column) _ (b'0' + n % 10)
                rest (digit_step (parts (n / 10) column) (n % 10) (omega arith) (omega arith))
            ∙ ap (λ (r : ℕ). a1_loop base row_mode (parts r column) rest) (omega arith))
  ]
