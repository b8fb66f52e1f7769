-- ===== src/FormulaLexer/Ends.antt =====
-- A run of the tokenizer ends, unless the argument separator is a digit.
use ixion.Prelude.{
  ℕ, zero, suc, ◌≤◌, ◌<◌, true, false, List, [], ◌∷◌, ◌++◌, none, ◌≡◌, ◌≢◌, refl, ap, arith, length,
  length-append, Bool-cases, Option-cases, inl, inr, ◌⊎◌,
}
use ixion.FormulaLexer.Token.{Bytes, LexerToken}
use ixion.FormulaLexer.Defs.{
  is_digit, find_op, is_op, error_keys, error_loop, numeral_loop, name_step, name_loop, string_loop,
  tokens, general_error, stuck, Round, pushed, skipped, thrown, lex_name, lex_numeral, lex_error,
  lex_string, lex_other, lex_round, push, Lexed, tokenize,
}
use ixion.FormulaLexer.Loops.{name_loop-append, numeral_loop-append, error_loop-key}
use ixion.FormulaLexer.Spelling.{Spelled, tokenize-Spelled}
use ixion.FormulaLexer.Errors.{HasUnknown, tokenize-HasUnknown}

-- What a round leaves to be read.
abbrev left_behind {ℓ} : {Double : Type ℓ} → Round Double → Bytes
left_behind (pushed t left) = left
left_behind (skipped left) = left
left_behind thrown = []

le_of_append : (s t u : Bytes) → s ≡ t ++ u → length u ≤ length s
le_of_append s t u q = omega (arith, ap length q, length-append t u)

string_loop-le : (s : Bytes) → length (string_loop s).1 ≤ length s
unfolding string_loop
string_loop-le [] = omega arith
string_loop-le (c ∷ rest) = ground (arith, string_loop-le rest)

-- A digit does not end a name, unless it is the argument separator.
is_op_digit : (sep_arg c : ℕ) → is_digit c ≡ true → c ≢ sep_arg → is_op sep_arg c ≡ false
unfolding find_op is_digit is_op
is_op_digit sep_arg c h ne = ground arith

-- The loop of `name` goes past a character that is no operator.
name_loop_goes :
    (sep_arg c : ℕ) (rest : Bytes)
    → is_op sep_arg c ≡ false
    → length (name_loop sep_arg [] (c ∷ rest)).1 ≤ length rest
unfolding name_loop
name_loop_goes sep_arg c rest h = elim (Option-cases (name_step sep_arg [] c)) [
  | inl ends ↦ absurd (unfold name_step in ground arith)
  | inr (scopes, goes) ↦
      rw (goes, name_loop)
        (le_of_append rest (name_loop sep_arg scopes rest).0 (name_loop sep_arg scopes rest).1
          (name_loop-append sep_arg scopes rest))
]

module _ {ℓ} {Double : Type ℓ} (to_double : Bytes → Double) (sep_arg : ℕ) where
  lex_error-le :
      (rest : Bytes) → length (left_behind (lex_error to_double sep_arg rest)) ≤ length rest
  unfolding lex_error
  lex_error-le rest = elim (Option-cases (error_loop error_keys rest)) [
    | inl stops ↦ rw (stops, lex_error) (omega arith)
    | inr ((e, left), goes) ↦
        let (k, _, q) = error_loop-key error_keys rest goes in
        rw (goes, lex_error) (le_of_append rest k left q)
  ]

  lex_other-le :
      (c : ℕ) (rest : Bytes)
      → find_op c ≡ none
      → length (left_behind (lex_other to_double sep_arg c rest)) ≤ length rest
  unfolding lex_other lex_string lex_name is_op
  lex_other-le c rest h =
      ground (arith, string_loop-le rest, lex_error-le rest, name_loop_goes sep_arg c rest, h)

  lex_numeral-le :
      (c : ℕ) (rest : Bytes)
      → is_digit c ≡ true
      → c ≢ sep_arg
      → length (left_behind (lex_numeral to_double sep_arg c rest)) ≤ length rest
  unfolding lex_numeral lex_name
  lex_numeral-le c rest d ne = elim (Option-cases (numeral_loop 0 rest)) [
    | inl stops ↦
        rw (stops, lex_numeral) (name_loop_goes sep_arg c rest (is_op_digit sep_arg c d ne))
    | inr ((digits, left), goes) ↦
        rw (goes, lex_numeral) (le_of_append rest digits left (numeral_loop-append 0 rest goes))
  ]

  -- Each round reads a character at least.
  lex_round-le :
      (c : ℕ) (rest : Bytes)
      → is_digit sep_arg ≡ false
      → length (left_behind (lex_round to_double sep_arg c rest)) ≤ length rest
  unfolding lex_round
  lex_round-le c rest h = elim (Bool-cases (is_digit c)) [
    | inl d ↦ rw d (lex_numeral-le c rest d (λ q. cc (d, h, ap is_digit q)))
    | inr other ↦ rw other (elim (Option-cases (find_op c)) [
      | inl no_op ↦ rw no_op (lex_other-le c rest no_op)
      | inr (oc, found) ↦ rw found (omega arith)
    ])
  ]

  push-ne-stuck :
      (t : LexerToken Double) (m : Lexed Double) → m ≢ stuck → push to_double sep_arg t m ≢ stuck
  push-ne-stuck t (tokens ts) h = cc
  push-ne-stuck t general_error h = cc
  push-ne-stuck t stuck h = absurd (h refl)

  tokenize_ends :
      (fuel : ℕ) (s : Bytes)
      → is_digit sep_arg ≡ false
      → length s < fuel
      → tokenize to_double sep_arg fuel s ≢ stuck
  unfolding tokenize
  tokenize_ends zero s d h = absurd (omega arith)
  tokenize_ends (suc fuel) [] d h = cc
  tokenize_ends (suc fuel) (c ∷ rest) d h =
      by_round (lex_round to_double sep_arg c rest) refl (lex_round-le c rest d)
        (λ left le. tokenize_ends fuel left d (omega arith))
    where
      by_round :
          (r : Round Double)
          → lex_round to_double sep_arg c rest ≡ r
          → length (left_behind r) ≤ length rest
          → ((left : Bytes)
              → length left ≤ length rest
              → tokenize to_double sep_arg fuel left ≢ stuck)
          → tokenize to_double sep_arg (suc fuel) (c ∷ rest) ≢ stuck
      by_round (pushed t left) q le later =
          rw (q, tokenize) (push-ne-stuck t (tokenize to_double sep_arg fuel left) (later left le))
      by_round (skipped left) q le later = rw (q, tokenize) (later left le)
      by_round thrown q le later = rw (q, tokenize) (cc)

  -- With a separator that is no digit and a round more than there are characters, a run returns: tokens
  -- that stand for the input, or an error. It is thrown only where the input has a part that tokens stand
  -- for, and behind it a `#` that the text of no error value follows.
  pub tokenize_lem :
      (s : Bytes)
      → is_digit sep_arg ≡ false
      → ((ts : List (LexerToken Double)) × (tokenize to_double sep_arg (suc (length s)) s
            ≡ tokens ts)
          × Spelled to_double sep_arg ts s)
        ⊎ (tokenize to_double sep_arg (suc (length s)) s ≡ general_error)
          × HasUnknown to_double sep_arg s
  tokenize_lem s d =
      by_outcome (tokenize to_double sep_arg (suc (length s)) s) refl
        (tokenize_ends (suc (length s)) s d (omega arith))
    where
      by_outcome :
          (m : Lexed Double)
          → tokenize to_double sep_arg (suc (length s)) s ≡ m
          → m ≢ stuck
          → ((ts : List (LexerToken Double)) × (tokenize to_double sep_arg (suc (length s)) s
                ≡ tokens ts)
              × Spelled to_double sep_arg ts s)
            ⊎ (tokenize to_double sep_arg (suc (length s)) s ≡ general_error)
              × HasUnknown to_double sep_arg s
      by_outcome (tokens ts) q h =
          inl (ts, q, tokenize-Spelled to_double sep_arg (suc (length s)) s ts q)
      by_outcome general_error q h =
          inr (q, tokenize-HasUnknown to_double sep_arg (suc (length s)) s q)
      by_outcome stuck q h = absurd (h refl)
