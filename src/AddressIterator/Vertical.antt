-- ===== src/AddressIterator/Vertical.antt =====
-- The steps of the vertical iterator undo each other.
use ixion.Prelude.{true, false, none, some, ◌≡◌, ◌⊎◌, inl, inr, Bool-cases}
use ixion.Prelude.Int.{pos, ◌+ℤ◌, ◌-ℤ◌, ltb_ℤ, int_laws}
use ixion.Address.Defs.{AbsRange}
use ixion.AddressIterator.Defs.{Node, inc_sheet, dec_sheet, inc_vertical, dec_vertical, cbegin}
use ixion.AddressIterator.States.{
  IsNode, step_back, step_on, lt_of_test, test-step, test-back, squeeze, test_self,
}

-- Below the end, a step of the vertical iterator leads to a state from which a step back returns.
pub dec_vertical-inc_vertical :
    (range : AbsRange) (n : Node)
    → IsNode range n
    → n.end_pos ≡ false
    → (m : Node) × (inc_vertical range n ≡ some m)
      × IsNode range m
      × (dec_vertical range m ≡ some n)
unfolding inc_vertical dec_vertical inc_sheet dec_sheet
dec_vertical-inc_vertical range n ((s0, s1, r0, r1, c0, c1), last) below =
    let a = n.position in
    elim (Bool-cases (ltb_ℤ a.row range.last.row)) [
      | inl row_left ↦
          let lt = lt_of_test a.row range.last.row row_left in
          (
            record { position = record a { row = a.row +ℤ pos 1 }; end_pos = false },
            rw (below, row_left),
            ((s0, s1, omega int_laws, omega int_laws, c0, c1), λ h. absurd (cc)),
            rw (test-step range.first.row a.row r0, step_back, ← below),
          )
      | inr row_end ↦
          let same_row = squeeze a.row range.last.row r1 row_end in
          elim (Bool-cases (ltb_ℤ a.column range.last.column)) [
            | inl column_left ↦
                let lt = lt_of_test a.column range.last.column column_left in
                (
                  record {
                    position = record a { column = a.column +ℤ pos 1; row = range.first.row };
                    end_pos = false;
                  },
                  rw (below, row_end, column_left),
                  (
                    (s0, s1, omega int_laws, omega int_laws, omega int_laws, omega int_laws),
                    λ h. absurd (cc),
                  ),
                  rw (
                    test_self range.first.row,
                    test-step range.first.column a.column c0,
                    step_back,
                    ← same_row,
                    ← below,
                  ),
                )
            | inr column_end ↦
                let same_column = squeeze a.column range.last.column c1 column_end in
                elim (Bool-cases (ltb_ℤ a.sheet range.last.sheet)) [
                  | inl sheet_left ↦
                      let lt = lt_of_test a.sheet range.last.sheet sheet_left in
                      (
                        record {
                          position = record {
                            sheet = a.sheet +ℤ pos 1;
                            row = range.first.row;
                            column = range.first.column;
                          };
                          end_pos = false;
                        },
                        rw (below, row_end, column_end, sheet_left),
                        (
                          (
                            omega int_laws,
                            omega int_laws,
                            omega int_laws,
                            omega int_laws,
                            omega int_laws,
                            omega int_laws,
                          ),
                          λ h. absurd (cc),
                        ),
                        rw (
                          test_self range.first.row,
                          test_self range.first.column,
                          test-step range.first.sheet a.sheet s0,
                          step_back,
                          ← same_row,
                          ← same_column,
                          ← below,
                        ),
                      )
                  | inr sheet_end ↦
                      let same_sheet = squeeze a.sheet range.last.sheet s1 sheet_end in
                      (
                        record { position = a; end_pos = true },
                        rw (below, row_end, column_end, sheet_end),
                        ((s0, s1, r0, r1, c0, c1), λ h. rw (same_sheet, same_row, same_column)),
                        rw (← below),
                      )
                ]
          ]
    ]

-- A step down from the end.
from_end :
    (range : AbsRange) (n : Node)
    → IsNode range n
    → n.end_pos ≡ true
    → (m : Node) × (dec_vertical range n ≡ some m)
      × IsNode range m
      × (inc_vertical range m ≡ some n)
unfolding inc_vertical dec_vertical inc_sheet
from_end range n (inside, last) end = (
  record n { end_pos = false },
  rw end,
  (inside, λ h. absurd (cc)),
  rw (
    last end,
    test_self range.last.row,
    test_self range.last.column,
    test_self range.last.sheet,
    ← end,
    ← last end,
  ),
)

-- A step back of the vertical iterator fails in its first state alone. From any other state it leads to
-- one from which a step returns.
pub inc_vertical-dec_vertical :
    (range : AbsRange) (n : Node)
    → IsNode range n
    → (n ≡ cbegin range) × (dec_vertical range n ≡ none)
      ⊎ ((m : Node) × (dec_vertical range n ≡ some m)
          × IsNode range m
          × (inc_vertical range m ≡ some n))
unfolding inc_vertical dec_vertical inc_sheet dec_sheet cbegin
inc_vertical-dec_vertical range n ((s0, s1, r0, r1, c0, c1), last) =
    let a = n.position in
    elim (Bool-cases n.end_pos) [
      | inl end ↦ inr (from_end range n ((s0, s1, r0, r1, c0, c1), last) end)
      | inr below ↦ elim (Bool-cases (ltb_ℤ range.first.row a.row)) [
        | inl row_left ↦
            let lt = lt_of_test range.first.row a.row row_left in
            inr (
              record { position = record a { row = a.row -ℤ pos 1 }; end_pos = false },
              rw (below, row_left),
              ((s0, s1, omega int_laws, omega int_laws, c0, c1), λ h. absurd (cc)),
              rw (test-back a.row range.last.row r1, step_on, ← below),
            )
        | inr row_end ↦
            let same_row = squeeze range.first.row a.row r0 row_end in
            elim (Bool-cases (ltb_ℤ range.first.column a.column)) [
              | inl column_left ↦
                  let lt = lt_of_test range.first.column a.column column_left in
                  inr (
                    record {
                      position = record a { column = a.column -ℤ pos 1; row = range.last.row };
                      end_pos = false;
                    },
                    rw (below, row_end, column_left),
                    (
                      (s0, s1, omega int_laws, omega int_laws, omega int_laws, omega int_laws),
                      λ h. absurd (cc),
                    ),
                    rw (
                      test_self range.last.row,
                      test-back a.column range.last.column c1,
                      step_on,
                      same_row,
                      ← below,
                    ),
                  )
              | inr column_end ↦
                  let same_column = squeeze range.first.column a.column c0 column_end in
                  elim (Bool-cases (ltb_ℤ range.first.sheet a.sheet)) [
                    | inl sheet_left ↦
                        let lt = lt_of_test range.first.sheet a.sheet sheet_left in
                        inr (
                          record {
                            position = record {
                              sheet = a.sheet -ℤ pos 1;
                              row = range.last.row;
                              column = range.last.column;
                            };
                            end_pos = false;
                          },
                          rw (below, row_end, column_end, sheet_left),
                          (
                            (
                              omega int_laws,
                              omega int_laws,
                              omega int_laws,
                              omega int_laws,
                              omega int_laws,
                              omega int_laws,
                            ),
                            λ h. absurd (cc),
                          ),
                          rw (
                            test_self range.last.row,
                            test_self range.last.column,
                            test-back a.sheet range.last.sheet s1,
                            step_on,
                            same_row,
                            same_column,
                            ← below,
                          ),
                        )
                    | inr sheet_end ↦
                        let same_sheet = squeeze range.first.sheet a.sheet s0 sheet_end in
                        inl (
                          rw (same_sheet, same_row, same_column, ← below),
                          rw (below, row_end, column_end, sheet_end),
                        )
                  ]
            ]
      ]
    ]
