-- ===== src/AddressIterator/Inverse.antt =====
-- The two steps undo each other, in both directions. A horizontal iterator is a vertical one on the
-- range with rows and columns exchanged.
use ixion.Prelude.{false, Option, none, some, ◌≡◌, ◌⊎◌, inl, inr, ap, ◌∙◌, arith}
use ixion.Address.Defs.{AbsAddress, AbsRange}
use ixion.AddressIterator.Defs.{
  Direction, horizontal, vertical, Node, inc_sheet, dec_sheet, inc_vertical, dec_vertical,
  inc_horizontal, dec_horizontal, inc, dec, cbegin,
}
use ixion.AddressIterator.States.{IsNode}
use ixion.AddressIterator.Vertical.{dec_vertical-inc_vertical, inc_vertical-dec_vertical}

abbrev pub transpose : AbsAddress → AbsAddress
transpose a = record { sheet = a.sheet; row = a.column; column = a.row }

abbrev pub transpose_range : AbsRange → AbsRange
transpose_range r = record { first = transpose r.first; last = transpose r.last }

abbrev pub transpose_node : Node → Node
transpose_node n = record { position = transpose n.position; end_pos = n.end_pos }

abbrev pub transpose_result : Option Node → Option Node
transpose_result none = none
transpose_result (some n) = some (transpose_node n)

pub inc_horizontal-transpose :
    (range : AbsRange) (n : Node)
    → inc_horizontal range n
      ≡ transpose_result (inc_vertical (transpose_range range) (transpose_node n))
unfolding inc_horizontal inc_vertical inc_sheet
inc_horizontal-transpose range n = ground arith

pub dec_horizontal-transpose :
    (range : AbsRange) (n : Node)
    → dec_horizontal range n
      ≡ transpose_result (dec_vertical (transpose_range range) (transpose_node n))
unfolding dec_horizontal dec_vertical dec_sheet
dec_horizontal-transpose range n = ground arith

pub transpose-IsNode :
    (range : AbsRange) (n : Node)
    → IsNode range n
    → IsNode (transpose_range range) (transpose_node n)
transpose-IsNode range n ((s0, s1, r0, r1, c0, c1), last) =
    ((s0, s1, c0, c1, r0, r1), λ h. ap transpose (last h))

-- In a state that is not the end, a step forward succeeds, and leads to a state from which a step back
-- returns.
pub dec-inc :
    (dir : Direction) (range : AbsRange) (n : Node)
    → IsNode range n
    → n.end_pos ≡ false
    → (m : Node) × (inc dir range n ≡ some m) × IsNode range m × (dec dir range m ≡ some n)
unfolding inc dec
dec-inc vertical range n h below = dec_vertical-inc_vertical range n h below
dec-inc horizontal range n h below =
    let (m, goes, node, returns) =
      dec_vertical-inc_vertical (transpose_range range) (transpose_node n)
        (transpose-IsNode range n h) below in
    (
      transpose_node m,
      inc_horizontal-transpose range n ∙ ap transpose_result goes,
      transpose-IsNode (transpose_range range) m node,
      dec_horizontal-transpose range (transpose_node m) ∙ ap transpose_result returns,
    )

-- A step back throws in the first state alone. In any other it leads to a state from which a step
-- forward returns.
pub inc-dec :
    (dir : Direction) (range : AbsRange) (n : Node)
    → IsNode range n
    → (n ≡ cbegin range) × (dec dir range n ≡ none)
      ⊎ ((m : Node) × (dec dir range n ≡ some m) × IsNode range m × (inc dir range m ≡ some n))
unfolding inc dec cbegin
inc-dec vertical range n h = inc_vertical-dec_vertical range n h
inc-dec horizontal range n h =
    elim (inc_vertical-dec_vertical (transpose_range range) (transpose_node n)
      (transpose-IsNode range n h)) [
        | inl (first, throws) ↦
            inl (
              ap transpose_node first,
              dec_horizontal-transpose range n ∙ ap transpose_result throws,
            )
        | inr (m, goes, node, returns) ↦ inr (
          transpose_node m,
          dec_horizontal-transpose range n ∙ ap transpose_result goes,
          transpose-IsNode (transpose_range range) m node,
          inc_horizontal-transpose range (transpose_node m) ∙ ap transpose_result returns,
        )
      ]
