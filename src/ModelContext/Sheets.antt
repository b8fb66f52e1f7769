-- ===== src/ModelContext/Sheets.antt =====
-- The names of the sheets: no two sheets have the same name, and a name leads back to its sheet.
use ixion.Prelude.{
  get_elem?-append, get_elem?-end, ℕ, zero, suc, ◌+◌, ◌≤◌, true, false, List, [], ◌∷◌, ◌++◌, Option,
  none, some, ◌≡◌, ◌≢◌, ◌↔◌, ◌⊎◌, inl, inr, refl, sym, ◌∙◌, ap, arith, length, length-append,
  length-set, get_elem?, set, get_elem?-set_self, get_elem?-set_ne, elem, distinct, distinct-concat,
  leb, ◌==◌, Bool-cases, Option-cases,
}
use ixion.Prelude.Int.{ℤ, pos}
use ixion.FormulaLexer.Token.{Bytes}
use ixion.StringPool.Defs.{eq_bytes, eq_bytes_iff, bytes_eq}
use ixion.ModelContext.Defs.{
  sheet_name_conflict, invalid_argument, ok, err, invalid_sheet, Context, find_name, index_from,
  get_sheet_index, get_sheet_name, set_sheet_name, append_sheet,
}

-- No name stands twice, and there is one for each sheet.
pub record IsContext {ℓ} {Expr : Type ℓ} (c : Context Expr) : Type ℓ where
  pub distinct_names : distinct c.sheet_names ≡ true
  pub one_name_each : length c.sheet_names ≡ length c.sheets

elem-get_elem? : (xs : List Bytes) (i : ℕ) {s : Bytes} → get_elem? xs i ≡ some s → elem s xs ≡ true
elem-get_elem? [] i h = absurd (cc)
elem-get_elem? (x ∷ xs) zero {s} h = ground (arith, eq_bytes_iff s x)
elem-get_elem? (x ∷ xs) (suc i) {s} h = ground (arith, elem-get_elem? xs i {s = s} h)

find_name-eq-none : (s : Bytes) (xs : List Bytes) → find_name s xs ≡ none → elem s xs ≡ false
unfolding find_name
find_name-eq-none s [] h = refl
find_name-eq-none s (x ∷ xs) h =
    ground (arith, find_name-eq-none s xs, eq_bytes_iff x s, eq_bytes_iff s x)

find_name-eq-some :
    (s : Bytes) (xs : List Bytes) {i : ℕ} → find_name s xs ≡ some i → get_elem? xs i ≡ some s
unfolding find_name
find_name-eq-some s [] h = absurd (cc)
find_name-eq-some s (x ∷ xs) {i} h = elim (Bool-cases (eq_bytes x s)) [
  | inl same ↦ let at : 0 ≡ i = cc (rw same at h) in rw (← at) (ap some ((eq_bytes_iff x s).0 same))
  | inr other ↦ elim (Option-cases (find_name s xs)) [
    | inl missing ↦ absurd (cc (rw (other, missing) at h))
    | inr (j, found) ↦
        let at : suc j ≡ i = cc (rw (other, found) at h) in rw (← at) (find_name-eq-some s xs found)
  ]
]

elem-set :
    (xs : List Bytes) (n : ℕ) (s t : Bytes)
    → elem t xs ≡ false
    → s ≢ t
    → elem t (set xs n s) ≡ false
elem-set [] n s t h ne = refl
elem-set (x ∷ xs) zero s t h ne = ground (arith, eq_bytes_iff t s)
elem-set (x ∷ xs) (suc n) s t h ne = ground (arith, elem-set xs n s t)

set-distinct :
    (xs : List Bytes) (n : ℕ) (s : Bytes)
    → distinct xs ≡ true
    → elem s xs ≡ false
    → distinct (set xs n s) ≡ true
set-distinct [] n s h new = refl
set-distinct (x ∷ xs) zero s h new = ground arith
set-distinct (x ∷ xs) (suc n) s h new =
    ground (arith, set-distinct xs n s, elem-set xs n s x, eq_bytes_iff s x)

-- Where a name stands first.
find_name-get_elem? :
    (s : Bytes) (xs : List Bytes) (n : ℕ)
    → distinct xs ≡ true
    → get_elem? xs n ≡ some s
    → find_name s xs ≡ some n
unfolding find_name
find_name-get_elem? s [] n h at = absurd (cc)
find_name-get_elem? s (x ∷ xs) zero h at = ground (arith, eq_bytes_iff x s)
find_name-get_elem? s (x ∷ xs) (suc n) h at =
    ground (arith, find_name-get_elem? s xs n, elem-get_elem? xs n {s = s} at, eq_bytes_iff x s)

index_of : ℕ → Option ℕ → ℤ
index_of k none = invalid_sheet
index_of k (some i) = pos (k + i)

index_of-eq_pos : (o : Option ℕ) (n : ℕ) → index_of 0 o ≡ pos n → o ≡ some n
unfolding index_of
index_of-eq_pos none n h = absurd (cc)
index_of-eq_pos (some i) n h = let same : 0 + i ≡ n = cc in ap some (omega arith)

index_of-some : (n : ℕ) → index_of 0 (some n) ≡ pos n
unfolding index_of
index_of-some n = ap pos (omega arith)

-- The loop finds a name that is not empty where it stands first.
index_from-find_name :
    (k c : ℕ) (s : Bytes) (xs : List Bytes)
    → index_from k (c ∷ s) xs ≡ index_of k (find_name (c ∷ s) xs)
unfolding index_from find_name index_of
index_from-find_name k c s [] = refl
index_from-find_name k c s ([] ∷ xs) = elim (Option-cases (find_name (c ∷ s) xs)) [
  | inl missing ↦ rw (missing, index_from-find_name (suc k) c s xs, missing) refl
  | inr (i, found) ↦ rw (found, index_from-find_name (suc k) c s xs, found) (ap pos (omega arith))
]
index_from-find_name k c s ((d ∷ t) ∷ xs) = elim (Bool-cases (eq_bytes (d ∷ t) (c ∷ s))) [
  | inl same ↦ rw same (ap pos (omega arith))
  | inr other ↦ elim (Option-cases (find_name (c ∷ s) xs)) [
    | inl missing ↦ rw (other, missing, index_from-find_name (suc k) c s xs, missing) refl
    | inr (i, found) ↦
        rw (other, found, index_from-find_name (suc k) c s xs, found) (ap pos (omega arith))
  ]
]

get_sheet_name_iff {ℓ} :
    {Expr : Type ℓ} (c : Context Expr) (i : ℕ) (s : Bytes)
    → (get_sheet_name c (pos i) ≡ ok s) ↔ (get_elem? c.sheet_names i ≡ some s)
unfolding get_sheet_name
get_sheet_name_iff c i s = elim (Option-cases (get_elem? c.sheet_names i)) [
  | inl missing ↦
      (λ h. absurd (cc (rw (missing, get_sheet_name) at h)), λ h. absurd (cc (rw missing at h)))
  | inr (t, found) ↦ (
    λ h. let same : ok t ≡ ok s = rw (found, get_sheet_name) at h in cc (same, found),
    λ h. rw (h, get_sheet_name) refl,
  )
]

module _ {ℓ} {Expr : Type ℓ} (c : Context Expr) (good : IsContext c) where
  -- A sheet is appended unless its name is taken. It gets the next index and its name; the other sheets
  -- keep theirs, and the names stay different.
  pub append_sheet_lem :
      (s : Bytes)
      → (elem s c.sheet_names ≡ true) × (append_sheet c s ≡ err sheet_name_conflict)
        ⊎ ((d : Context Expr) × (append_sheet c s ≡ ok (length c.sheets, d))
            × IsContext d
            × (get_sheet_name d (pos (length c.sheets)) ≡ ok s)
            × ((i : ℕ) (t : Bytes)
                → get_sheet_name c (pos i) ≡ ok t
                → get_sheet_name d (pos i) ≡ ok t))
  unfolding append_sheet get_sheet_name
  append_sheet_lem s = elim (Option-cases (find_name s c.sheet_names)) [
    | inr (i, found) ↦ inl (
      elem-get_elem? c.sheet_names i (find_name-eq-some s c.sheet_names found),
      rw (found, append_sheet) refl,
    )
    | inl new ↦
        let d : Context Expr = record c {
          sheet_names = c.sheet_names ++ s ∷ [];
          sheets = c.sheets ++ [] ∷ [];
        } in
        let named : get_sheet_name d (pos (length c.sheet_names)) ≡ ok s =
          (get_sheet_name_iff d (length c.sheet_names) s).1 (get_elem?-end c.sheet_names s) in
        inr (
          d,
          rw (new, append_sheet) refl,
          record {
            distinct_names =
                distinct-concat s c.sheet_names good.distinct_names
                  (find_name-eq-none s c.sheet_names new);
            one_name_each = omega (
              arith,
              length-append c.sheet_names (s ∷ []),
              length-append c.sheets ([] ∷ []),
              good.one_name_each,
            );
          },
          rw good.one_name_each at named,
          λ i t h.
              (get_sheet_name_iff d i t).1
                (get_elem?-append c.sheet_names i s t ((get_sheet_name_iff c i t).0 h)),
        )
  ]

  -- A sheet is renamed unless its index is not one of a sheet or the name is that of another sheet. Then
  -- it has the name, the other sheets keep theirs, and the names stay different.
  pub set_sheet_name_lem :
      (n : ℕ) (s : Bytes)
      → (length c.sheets ≤ n) × (set_sheet_name c (pos n) s ≡ err invalid_argument)
        ⊎ ((i : ℕ) × (i ≢ n)
            × (get_sheet_name c (pos i) ≡ ok s)
            × (set_sheet_name c (pos n) s ≡ err sheet_name_conflict))
        ⊎ ((d : Context Expr) × (set_sheet_name c (pos n) s ≡ ok d)
            × IsContext d
            × (get_sheet_name d (pos n) ≡ ok s)
            × ((i : ℕ) → i ≢ n → get_sheet_name d (pos i) ≡ get_sheet_name c (pos i)))
  unfolding set_sheet_name get_sheet_name
  set_sheet_name_lem n s = elim (Bool-cases (leb (length c.sheet_names) n)) [
    | inl outside ↦ inl (ground (arith, good.one_name_each), rw outside refl)
    | inr inside ↦ elim (Option-cases (find_name s c.sheet_names)) [
      | inl new ↦
          let d : Context Expr = record c { sheet_names = set c.sheet_names n s } in
          inr (
            inr (
              d,
              rw (inside, new) refl,
              record {
                distinct_names =
                    set-distinct c.sheet_names n s good.distinct_names
                      (find_name-eq-none s c.sheet_names new);
                one_name_each = length-set c.sheet_names n s ∙ good.one_name_each;
              },
              (get_sheet_name_iff d n s).1 (get_elem?-set_self c.sheet_names n s (ground arith)),
              λ i ne.
                  rw
                    (
                      get_elem?-set_ne c.sheet_names {i = n} {j = i} s (λ e. ne (sym e)),
                      get_sheet_name,
                    )
                    refl,
            ))
      | inr (i, found) ↦
          let at_i : get_sheet_name c (pos i) ≡ ok s =
            (get_sheet_name_iff c i s).1 (find_name-eq-some s c.sheet_names found) in
          elim (Bool-cases (i == n)) [
            | inl same ↦
                let same' : i ≡ n = ground arith in
                inr (inr (c, rw (inside, found, same) refl, good, rw same' at at_i, λ i ne. refl))
            | inr other ↦ inr (inl (i, ground arith, at_i, rw (inside, found, other) refl))
          ]
    ]
  ]

  -- The index of a name that is not empty is the index at which the sheet has that name.
  pub get_sheet_index_iff :
      (n x : ℕ) (s : Bytes)
      → (get_sheet_index c (x ∷ s) ≡ pos n) ↔ (get_sheet_name c (pos n) ≡ ok (x ∷ s))
  unfolding get_sheet_index
  get_sheet_index_iff n x s =
      let loop : get_sheet_index c (x ∷ s) ≡ index_of 0 (find_name (x ∷ s) c.sheet_names) =
        index_from-find_name 0 x s c.sheet_names in
      (
        λ h.
            (get_sheet_name_iff c n (x ∷ s)).1
              (find_name-eq-some (x ∷ s) c.sheet_names (index_of-eq_pos _ n (sym loop ∙ h))),
        λ h.
            loop
            ∙ ap (index_of 0) (
                find_name-get_elem? (x ∷ s) c.sheet_names n good.distinct_names
                  ((get_sheet_name_iff c n (x ∷ s)).0 h))
            ∙ index_of-some n,
      )
