-- ===== src/StringPool/Keeps.antt =====
-- A string that was added is found under its identifier, for as long as the pool lives.
use ixion.Prelude.{
  get_elem?-append, get_elem?-end, ℕ, zero, suc, ◌+◌, ◌%◌, ◌^◌, ◌≤◌, ◌<◌, false, List, [], ◌∷◌,
  ◌++◌, none, some, ◌≡◌, refl, sym, ◌∙◌, arith, length, get_elem?, length-append, if◌then◌else◌,
  Option-cases, Bool-cases, inl, inr, ◌⊎◌,
}
use ixion.FormulaLexer.Token.{Bytes}
use ixion.StringPool.Defs.{
  eq_bytes, eq_bytes_iff, empty_string_id, StringPool, find_string, insert_string, append_string,
  add_string, get_string,
}

-- The map and the list agree: the map has the strings of the list, each with a place where it stands, and
-- no identifier of the list is the one of the empty string.
pub record IsPool (p : StringPool) : Type 0 where
  pub listed :
      (s : Bytes) {i : ℕ} → find_string s p.string_map ≡ some i → get_elem? p.strings i ≡ some s
  pub mapped :
      (i : ℕ) {s : Bytes}
      → get_elem? p.strings i ≡ some s
      → (j : ℕ) × (find_string s p.string_map ≡ some j)
  pub small : length p.strings ≤ empty_string_id

get_elem?-old_or_end :
    (xs : List Bytes) (i : ℕ) {s t : Bytes}
    → get_elem? (xs ++ s ∷ []) i ≡ some t
    → (get_elem? xs i ≡ some t) ⊎ (s ≡ t)
get_elem?-old_or_end [] zero h = inr (cc h)
get_elem?-old_or_end [] (suc i) h = absurd (cc)
get_elem?-old_or_end (x ∷ xs) zero h = inl h
get_elem?-old_or_end (x ∷ xs) (suc i) h = get_elem?-old_or_end xs i h

get_elem?-lt : (xs : List Bytes) (i : ℕ) {t : Bytes} → get_elem? xs i ≡ some t → i < length xs
get_elem?-lt [] i h = absurd (cc)
get_elem?-lt (x ∷ xs) zero h = omega arith
get_elem?-lt (x ∷ xs) (suc i) h = omega (arith, get_elem?-lt xs i h)

find_string-insert_string :
    (s t : Bytes) (i : ℕ) (m : List (Bytes × ℕ))
    → find_string s m ≡ none
    → find_string t (insert_string s i m) ≡ (if eq_bytes t s then some i else find_string t m)
unfolding find_string insert_string
find_string-insert_string s t i m h = rw (h, insert_string)

id_small : (n : ℕ) → n < empty_string_id → n % 2 ^ 32 ≡ n
id_small n h = omega arith

-- A string that is pushed stands behind the others, which keep their identifiers.
append_string_lem :
    (p : StringPool) (s : Bytes)
    → IsPool p
    → find_string s p.string_map ≡ none
    → length p.strings < empty_string_id
    → ((append_string p s).0 ≡ length p.strings)
      × (find_string s (append_string p s).1.string_map ≡ some (length p.strings))
      × IsPool (append_string p s).1
unfolding append_string
append_string_lem p s h new room = (
  same,
  own,
  record {
    listed = λ t {i} q. elim (Bool-cases (eq_bytes t s)) [
      | inl e ↦
          let at_end : length p.strings ≡ i = cc (sym (found_in_map t) ∙ q, e) in
          rw (← at_end, (eq_bytes_iff t s).0 e) (get_elem?-end p.strings s)
      | inr other ↦ get_elem?-append p.strings i s t (h.listed t (by_map t other q))
    ];
    mapped = λ i {s = t} q. elim (get_elem?-old_or_end p.strings i {s = s} {t = t} q) [
      | inl old ↦ kept t (h.mapped i old)
      | inr e ↦ (length p.strings, rw (← e) own)
    ];
    small = omega (arith, room, length-append p.strings (s ∷ []));
  },
)
  where
    same : length p.strings % 2 ^ 32 ≡ length p.strings
    same = id_small (length p.strings) room

    found_in_map :
        (t : Bytes)
        → find_string t (insert_string s (length p.strings % 2 ^ 32) p.string_map)
          ≡ (if eq_bytes t s then some (length p.strings) else find_string t p.string_map)
    found_in_map t =
        rw (find_string-insert_string s t (length p.strings % 2 ^ 32) p.string_map new, same)

    own :
        find_string s (insert_string s (length p.strings % 2 ^ 32) p.string_map)
        ≡ some (length p.strings)
    own = found_in_map s ∙ rw ((eq_bytes_iff s s).1 refl)

    by_map :
        (t : Bytes) {i : ℕ}
        → eq_bytes t s ≡ false
        → find_string t (insert_string s (length p.strings % 2 ^ 32) p.string_map) ≡ some i
        → find_string t p.string_map ≡ some i
    by_map t other q = rw other at (sym (found_in_map t) ∙ q)

    kept :
        (t : Bytes)
        → (j : ℕ) × (find_string t p.string_map ≡ some j)
        → (j : ℕ) × (find_string t (insert_string s (length p.strings % 2 ^ 32) p.string_map)
            ≡ some j)
    kept t (j, q) = elim (Bool-cases (eq_bytes t s)) [
      | inl e ↦ (length p.strings, found_in_map t ∙ rw e)
      | inr other ↦ (j, found_in_map t ∙ rw other q)
    ]

later :
    (p : StringPool) (s : Bytes) (i : ℕ) (t : Bytes)
    → get_elem? p.strings i ≡ some t
    → get_elem? (append_string p s).1.strings i ≡ some t
unfolding append_string
later p s i t q = get_elem?-append p.strings i s t q

pushed :
    (p : StringPool) (s : Bytes)
    → length p.strings < empty_string_id
    → get_string (append_string p s).1 (length p.strings) ≡ some s
unfolding append_string get_string
pushed p s room = ground (arith, get_elem?-end p.strings s)

found_string :
    (p : StringPool) (s : Bytes) (i : ℕ)
    → IsPool p
    → find_string s p.string_map ≡ some i
    → get_string p i ≡ some s
unfolding get_string
found_string p s i h known =
    ground (arith, h.listed s known, get_elem?-lt p.strings i (h.listed s known), h.small)

-- A pool with room for a string gives it an identifier under which it is found, keeps its strings under
-- the identifiers they have, and gives the same identifier when the string is added again.
pub add_string_lem :
    (p : StringPool) (s : Bytes)
    → IsPool p
    → length p.strings < empty_string_id
    → IsPool (add_string p s).1
      × (get_string (add_string p s).1 (add_string p s).0 ≡ some s)
      × ((i : ℕ) (t : Bytes) → get_string p i ≡ some t → get_string (add_string p s).1 i ≡ some t)
      × (add_string (add_string p s).1 s ≡ add_string p s)
unfolding add_string get_string
add_string_lem p [] h room = (h, refl, (λ i t q. q), refl)
add_string_lem p (c ∷ s) h room = elim (Option-cases (find_string (c ∷ s) p.string_map)) [
  | inl new ↦
      let (same, own, good) = append_string_lem p (c ∷ s) h new room in
      rw (new, same, own)
        (
          good,
          pushed p (c ∷ s) room,
          (λ i t q. ground (arith, later p (c ∷ s) i t, q)),
          rw new refl,
        )
  | inr (i, known) ↦
      rw known (h, found_string p (c ∷ s) i h known, (λ j t q. q), rw (known, known) refl)
]

pub add_string-length :
    (p : StringPool) (s : Bytes) → length (add_string p s).1.strings ≤ length p.strings + 1
unfolding add_string append_string
add_string-length p [] = omega arith
add_string-length p (c ∷ s) = ground (arith, length-append p.strings ((c ∷ s) ∷ []))
