-- ===== src/Address/Order.antt =====
-- `operator==` decides equality of addresses and ranges, and `operator<` is a strict total order on
-- them, as the sets and maps that hold them need.
use ixion.Prelude.{
  ◌≡◌, ◌↔◌, ◌∙◌, sym, inl, inr, Bool, true, false, not, ◌&&◌, arith, Eq, Ord, Bool-cases,
  if◌then◌else◌,
}
use ixion.Address.Defs.{
  AbsAddress, Address, AbsRange, eq_abs, lt_abs, lt_address, eq_range, lt_range, ne_bool, lt_bool,
}

pub eq_abs_iff : (a b : AbsAddress) → (eq_abs a b ≡ true) ↔ (a ≡ b)
unfolding eq_abs
eq_abs_iff a b = ground arith

pub lt_abs_irrefl : (a : AbsAddress) → lt_abs a a ≡ false
unfolding lt_abs
lt_abs_irrefl a = ground arith

pub lt_abs_trans : (a b c : AbsAddress) → lt_abs a b ≡ true → lt_abs b c ≡ true → lt_abs a c ≡ true
unfolding lt_abs
lt_abs_trans a b c h k = ground arith

pub lt_abs_total : (a b : AbsAddress) → lt_abs a b ≡ false → lt_abs b a ≡ false → a ≡ b
unfolding lt_abs
lt_abs_total a b h k = ground arith

instance abbrev pub abs_eq : Eq AbsAddress
abs_eq = record { beq = eq_abs; beq_iff = eq_abs_iff }

instance abbrev pub abs_ord : Ord AbsAddress
abs_ord = record {
  lt = lt_abs;
  lt_irrefl = lt_abs_irrefl;
  lt_trans = lt_abs_trans;
  lt_total = lt_abs_total;
}

-- What `lt_address` compares before the positions.
abbrev same_flags : Address → Address → Bool
same_flags a b =
    not (ne_bool a.abs_sheet b.abs_sheet)
    && (not (ne_bool a.abs_row b.abs_row) && not (ne_bool a.abs_column b.abs_column))

lt_flags : Address → Address → Bool
lt_flags a b =
    if ne_bool a.abs_sheet b.abs_sheet
    then lt_bool a.abs_sheet b.abs_sheet
    else if ne_bool a.abs_row b.abs_row
    then lt_bool a.abs_row b.abs_row
    else lt_bool a.abs_column b.abs_column

abbrev position : Address → AbsAddress
position a = record { sheet = a.sheet; row = a.row; column = a.column }

lt_address_lem :
    (a b : Address)
    → lt_address a b ≡ (if same_flags a b then lt_abs (position a) (position b) else lt_flags a b)
unfolding lt_address lt_flags lt_abs
lt_address_lem a b = ground arith

lt_flags_irrefl : (a : Address) → same_flags a a ≡ true
lt_flags_irrefl a = ground arith

lt_flags_trans :
    (a b c : Address)
    → same_flags a b ≡ false
    → same_flags b c ≡ false
    → lt_flags a b ≡ true
    → lt_flags b c ≡ true
    → (same_flags a c ≡ false) × (lt_flags a c ≡ true)
unfolding lt_flags
lt_flags_trans a b c f g h k = ground arith

lt_flags_left :
    (a b c : Address)
    → same_flags a b ≡ true
    → (same_flags a c ≡ same_flags b c) × (lt_flags a c ≡ lt_flags b c)
unfolding lt_flags
lt_flags_left a b c f = ground arith

lt_flags_right :
    (a b c : Address)
    → same_flags b c ≡ true
    → (same_flags a c ≡ same_flags a b) × (lt_flags a c ≡ lt_flags a b)
unfolding lt_flags
lt_flags_right a b c f = ground arith

lt_flags_total :
    (a b : Address) → lt_flags a b ≡ false → lt_flags b a ≡ false → same_flags a b ≡ true
unfolding lt_flags
lt_flags_total a b h k = ground arith

same_flags_comm : (a b : Address) → same_flags a b ≡ same_flags b a
same_flags_comm a b = ground arith

Address-eq : (a b : Address) → same_flags a b ≡ true → position a ≡ position b → a ≡ b
Address-eq a b f p = ground arith

pub lt_address_irrefl : (a : Address) → lt_address a a ≡ false
lt_address_irrefl a = rw (lt_address_lem, lt_flags_irrefl a) (lt_abs_irrefl (position a))

pub lt_address_trans :
    (a b c : Address) → lt_address a b ≡ true → lt_address b c ≡ true → lt_address a c ≡ true
lt_address_trans a b c h k = elim (Bool-cases (same_flags a b)) [
  | inl f ↦ elim (Bool-cases (same_flags b c)) [
    | inl g ↦
        let fg = (lt_flags_left a b c f).0 ∙ g in
        rw (lt_address_lem a c, fg)
          (lt_abs_trans (position a) (position b) (position c) (rw (lt_address_lem a b, f) at h)
            (rw (lt_address_lem b c, g) at k))
    | inr g ↦
        let (same, keep) = lt_flags_left a b c f in
        rw (lt_address_lem a c, same, g, keep) (rw (lt_address_lem b c, g) at k)
  ]
  | inr f ↦ elim (Bool-cases (same_flags b c)) [
    | inl g ↦
        let (same, keep) = lt_flags_right a b c g in
        rw (lt_address_lem a c, same, f, keep) (rw (lt_address_lem a b, f) at h)
    | inr g ↦
        let (differ, less) =
          lt_flags_trans a b c f g (rw (lt_address_lem a b, f) at h)
            (rw (lt_address_lem b c, g) at k) in
        rw (lt_address_lem a c, differ) less
  ]
]

pub lt_address_total : (a b : Address) → lt_address a b ≡ false → lt_address b a ≡ false → a ≡ b
lt_address_total a b h k = elim (Bool-cases (same_flags a b)) [
  | inl f ↦ Address-eq a b f (
      lt_abs_total (position a) (position b) (rw (lt_address_lem a b, f) at h)
        (rw (lt_address_lem b a, sym (same_flags_comm a b) ∙ f) at k))
  | inr f ↦ absurd (
      cc (
        f,
        lt_flags_total a b (rw (lt_address_lem a b, f) at h)
            (rw (lt_address_lem b a, sym (same_flags_comm a b) ∙ f) at k),
      ))
]

pub eq_range_iff : (r s : AbsRange) → (eq_range r s ≡ true) ↔ (r ≡ s)
unfolding eq_range
eq_range_iff r s = ground (arith, eq_abs_iff r.first s.first, eq_abs_iff r.last s.last)

pub lt_range_irrefl : (r : AbsRange) → lt_range r r ≡ false
unfolding lt_range
lt_range_irrefl r = ground (arith, lt_abs_irrefl r.first, lt_abs_irrefl r.last)

pub lt_range_trans :
    (r s t : AbsRange) → lt_range r s ≡ true → lt_range s t ≡ true → lt_range r t ≡ true
unfolding lt_range
lt_range_trans r s t h k = ground (
  arith,
  eq_abs_iff r.first s.first,
  eq_abs_iff s.first t.first,
  eq_abs_iff r.first t.first,
  lt_abs_trans r.first s.first t.first,
  lt_abs_trans r.last s.last t.last,
  lt_abs_irrefl r.first,
)

pub lt_range_total : (r s : AbsRange) → lt_range r s ≡ false → lt_range s r ≡ false → r ≡ s
unfolding lt_range
lt_range_total r s h k = ground (
  arith,
  eq_abs_iff r.first s.first,
  eq_abs_iff s.first r.first,
  lt_abs_total r.first s.first,
  lt_abs_total r.last s.last,
)

instance abbrev pub range_eq : Eq AbsRange
range_eq = record { beq = eq_range; beq_iff = eq_range_iff }

instance abbrev pub range_ord : Ord AbsRange
range_ord = record {
  lt = lt_range;
  lt_irrefl = lt_range_irrefl;
  lt_trans = lt_range_trans;
  lt_total = lt_range_total;
}
