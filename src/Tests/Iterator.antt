-- ===== src/Tests/Iterator.antt =====
-- Instances of the theorems on the iterators of a range.
use ixion.Prelude.{true, false, none, some, ◌≡◌, ◌↔◌, ◌⊎◌, refl, arith}
use ixion.Prelude.Int.{pos}
use ixion.Address.Defs.{AbsRange, valid_abs, valid_range}
use ixion.AddressIterator.Defs.{horizontal, vertical, Node, inc, dec, cbegin}
use ixion.AddressIterator.States.{IsNode}
use ixion.AddressIterator.Inverse.{dec-inc, inc-dec}
use ixion.AddressIterator.Visits.{Visits, Visits-iff}

-- Two rows, two columns and two sheets.
abbrev cube : AbsRange
cube = record {
  first = record { sheet = pos 0; row = pos 4; column = pos 1 };
  last = record { sheet = pos 1; row = pos 5; column = pos 2 };
}

-- The last cell of the first sheet.
abbrev at_edge : Node
at_edge = record {
  position = record { sheet = pos 0; row = pos 5; column = pos 2 };
  end_pos = false;
}

at_edge-IsNode : IsNode cube at_edge
at_edge-IsNode = (
  (omega arith, omega arith, omega arith, omega arith, omega arith, omega arith),
  λ h. absurd (cc),
)

cube-valid : valid_range cube ≡ true
unfolding valid_range valid_abs
cube-valid = refl

dec-inc_example :
    (m : Node) × (inc horizontal cube at_edge ≡ some m)
    × IsNode cube m
    × (dec horizontal cube m ≡ some at_edge)
dec-inc_example = dec-inc horizontal cube at_edge at_edge-IsNode refl

inc-dec_example :
    (at_edge ≡ cbegin cube) × (dec vertical cube at_edge ≡ none)
    ⊎ ((m : Node) × (dec vertical cube at_edge ≡ some m)
        × IsNode cube m
        × (inc vertical cube m ≡ some at_edge))
inc-dec_example = inc-dec vertical cube at_edge at_edge-IsNode

Visits-iff_example : Visits horizontal cube at_edge ↔ IsNode cube at_edge
Visits-iff_example = Visits-iff horizontal cube cube-valid at_edge
