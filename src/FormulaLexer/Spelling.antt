-- ===== src/FormulaLexer/Spelling.antt =====
-- The tokens of a run spell its input: no character is lost or made up.
use ixion.Prelude.{
  ℕ, zero, suc, Bool, true, false, List, [], ◌∷◌, ◌++◌, ◌≡◌, inl, inr, refl, sym, ap, ◌∙◌, ◌==◌,
  if◌then◌else◌, Option-cases, append_assoc, ==_iff,
}
use ixion.FormulaLexer.Token.{
  Opcode, sep, array_row_sep, FormulaError, Bytes, LexerToken, op, name, string, value, error,
}
use ixion.FormulaLexer.Defs.{
  is_digit, find_op, error_keys, error_loop, numeral_loop, name_loop, string_loop, Lexed, tokens,
  general_error, stuck, Round, pushed, skipped, thrown, lex_name, lex_numeral, lex_error,
  lex_string, lex_other, lex_round, push, tokenize,
}
use ixion.FormulaLexer.Loops.{
  op_char, error_key, find_op-op_char, error_loop-key, Has-error_keys, numeral_loop-append,
  name_loop-append, has_quote, string_loop-append,
}
use ixion.FormulaLexer.Keys.{Unknown, error_loop-Unknown}

module _ {ℓ} {Double : Type ℓ} (to_double : Bytes → Double) (sep_arg : ℕ) where
  -- The texts of a token.
  pub data Spells : LexerToken Double → Bytes → Type ℓ where
    as_op : (oc : Opcode) → Spells (op oc) (op_char sep_arg oc ∷ [])
    as_name : (t : Bytes) → Spells (name t) t
    as_value : (t : Bytes) → Spells (value (to_double t)) t
    as_string : (t : Bytes) → has_quote t ≡ false → Spells (string t) (b'"' ∷ (t ++ b'"' ∷ []))
    as_error : (e : FormulaError) → Spells (error e) (b'#' ∷ error_key e)

  -- The tokens stand for the input: between their texts there are spaces, and the text of a last string
  -- may lack its end quote.
  pub data Spelled : List (LexerToken Double) → Bytes → Type ℓ where
    at_end : Spelled [] []
    space : {ts : List (LexerToken Double)} {s : Bytes} → Spelled ts s → Spelled ts (b' ' ∷ s)
    token :
        {t : LexerToken Double} {ts : List (LexerToken Double)} {w s u : Bytes}
        → Spells t w
        → Spelled ts s
        → u ≡ w ++ s
        → Spelled (t ∷ ts) u
    unclosed : {t : Bytes} → has_quote t ≡ false → Spelled (string t ∷ []) (b'"' ∷ t)

  -- What one round does to the input.
  pub data Reads (s : Bytes) : Round Double → Type ℓ where
    one :
        {t : LexerToken Double} {w left : Bytes}
        → Spells t w
        → s ≡ w ++ left
        → Reads s (pushed t left)
    blank : {left : Bytes} → s ≡ b' ' ∷ left → Reads s (skipped left)
    last : {t : Bytes} → has_quote t ≡ false → s ≡ b'"' ∷ t → Reads s (pushed (string t) [])
    none_left : {rest : Bytes} → s ≡ b'#' ∷ rest → Unknown rest → Reads s thrown

  lex_name-Reads : (s : Bytes) → Reads s (lex_name to_double sep_arg s)
  unfolding lex_name
  lex_name-Reads s = one (as_name (name_loop sep_arg [] s).0) (name_loop-append sep_arg [] s)

  lex_numeral-Reads :
      (c : ℕ) (rest : Bytes) → Reads (c ∷ rest) (lex_numeral to_double sep_arg c rest)
  unfolding lex_numeral
  lex_numeral-Reads c rest = elim (Option-cases (numeral_loop 0 rest)) [
    | inl stops ↦ rw (stops, lex_numeral) (lex_name-Reads (c ∷ rest))
    | inr ((digits, left), goes) ↦
        rw (goes, lex_numeral)
          (one (as_value (c ∷ digits)) (ap (◌∷◌ c) (numeral_loop-append 0 rest goes)))
  ]

  lex_string-Reads : (rest : Bytes) → Reads (b'"' ∷ rest) (lex_string to_double sep_arg rest)
  unfolding lex_string
  lex_string-Reads rest =
      let (clean, spelled) = string_loop-append rest in
      elim spelled [
        | inl q ↦ one (as_string (string_loop rest).0 clean) (
            ap (◌∷◌ b'"')
              (q ∙ sym (append_assoc (string_loop rest).0 (b'"' ∷ []) (string_loop rest).1)))
        | inr (q, r) ↦ rw r (last clean (ap (◌∷◌ b'"') q))
      ]

  lex_error-Reads : (rest : Bytes) → Reads (b'#' ∷ rest) (lex_error to_double sep_arg rest)
  unfolding lex_error
  lex_error-Reads rest = elim (Option-cases (error_loop error_keys rest)) [
    | inl stops ↦ rw (stops, lex_error) (none_left refl (error_loop-Unknown rest stops))
    | inr ((e, left), goes) ↦
        let (k, has, q) = error_loop-key error_keys rest goes in
        rw (goes, lex_error)
          (one (as_error e) (ap (◌∷◌ b'#') (q ∙ ap (λ x. x ++ left) (Has-error_keys k e has))))
  ]

  Reads-if :
      (b : Bool) {s : Bytes} {x y : Round Double}
      → (b ≡ true → Reads s x)
      → Reads s y
      → Reads s (if b then x else y)
  Reads-if true f g = f refl
  Reads-if false f g = g

  -- A test for a character, whose branch sees that character.
  Reads-char :
      (c k : ℕ) (rest : Bytes) {x y : Round Double}
      → Reads (k ∷ rest) x
      → Reads (c ∷ rest) y
      → Reads (c ∷ rest) (if c == k then x else y)
  Reads-char c k rest f g = Reads-if (c == k) (λ h. rw ((==_iff c k).0 h) f) g

  lex_other-Reads : (c : ℕ) (rest : Bytes) → Reads (c ∷ rest) (lex_other to_double sep_arg c rest)
  unfolding lex_other
  lex_other-Reads c rest = Reads-char c b' ' rest (blank refl) (
      Reads-char c b'"' rest (lex_string-Reads rest) (
        Reads-char c b'#' rest (lex_error-Reads rest) (
          Reads-char c sep_arg rest (one (as_op sep) refl)
            (Reads-char c b';' rest (one (as_op array_row_sep) refl) (lex_name-Reads (c ∷ rest))))))

  pub lex_round-Reads :
      (c : ℕ) (rest : Bytes) → Reads (c ∷ rest) (lex_round to_double sep_arg c rest)
  unfolding lex_round
  lex_round-Reads c rest =
      Reads-if (is_digit c) (λ _. lex_numeral-Reads c rest)
        (elim (Option-cases (find_op c)) [
          | inl other ↦ rw other (lex_other-Reads c rest)
          | inr (oc, found) ↦
              rw found (one (as_op oc) (ap (λ x. x ∷ rest) (find_op-op_char sep_arg c oc found)))
        ])

  push-eq-tokens :
      (t : LexerToken Double) (m : Lexed Double) {ts : List (LexerToken Double)}
      → push to_double sep_arg t m ≡ tokens ts
      → (us : List (LexerToken Double)) × (m ≡ tokens us) × (ts ≡ t ∷ us)
  push-eq-tokens t (tokens us) h = (us, refl, cc)
  push-eq-tokens t general_error h = absurd (cc)
  push-eq-tokens t stuck h = absurd (cc)

  tokenize-nil :
      (fuel : ℕ) {ts : List (LexerToken Double)}
      → tokenize to_double sep_arg fuel [] ≡ tokens ts
      → ts ≡ []
  unfolding tokenize
  tokenize-nil zero h = absurd (cc)
  tokenize-nil (suc fuel) h = cc

  spell :
      (fuel : ℕ) (c : ℕ) (rest : Bytes) {r : Round Double} (ts : List (LexerToken Double))
      → ((s : Bytes) (us : List (LexerToken Double))
          → tokenize to_double sep_arg fuel s ≡ tokens us
          → Spelled us s)
      → Reads (c ∷ rest) r
      → lex_round to_double sep_arg c rest ≡ r
      → tokenize to_double sep_arg (suc fuel) (c ∷ rest) ≡ tokens ts
      → Spelled ts (c ∷ rest)
  unfolding tokenize
  spell fuel c rest ts later (one {t} {w} {left} spells u) q h =
      let (us, runs, same) =
        push-eq-tokens t (tokenize to_double sep_arg fuel left) (rw (q, tokenize) at h) in
      rw same (token spells (later left us runs) u)
  spell fuel c rest ts later (blank {left} u) q h =
      rw u (space (later left ts (rw (q, tokenize) at h)))
  spell fuel c rest ts later (last {t} clean u) q h =
      let (us, runs, same) =
        push-eq-tokens (string t) (tokenize to_double sep_arg fuel []) (rw (q, tokenize) at h) in
      rw (same, tokenize-nil fuel runs, u) (unclosed clean)
  spell fuel c rest ts later (none_left u unknown) q h = absurd (cc (rw (q, tokenize) at h))

  -- The tokens of a run that returns stand for its input, and for nothing else.
  pub tokenize-Spelled :
      (fuel : ℕ) (s : Bytes) (ts : List (LexerToken Double))
      → tokenize to_double sep_arg fuel s ≡ tokens ts
      → Spelled ts s
  tokenize-Spelled zero s ts h = absurd (unfold tokenize in cc h)
  tokenize-Spelled (suc fuel) [] ts h = rw (tokenize-nil (suc fuel) h) at_end
  tokenize-Spelled (suc fuel) (c ∷ rest) ts h =
      spell fuel c rest ts (tokenize-Spelled fuel) (lex_round-Reads c rest) refl h
