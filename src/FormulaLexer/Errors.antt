-- ===== src/FormulaLexer/Errors.antt =====
-- Where a run of the tokenizer throws.
use ixion.Prelude.{ℕ, zero, suc, List, [], ◌∷◌, ◌++◌, ◌≡◌, refl, ap, ◌∙◌, append_assoc}
use ixion.FormulaLexer.Token.{Bytes, LexerToken, string}
use ixion.FormulaLexer.Defs.{Lexed, tokens, general_error, stuck, Round, lex_round, push, tokenize}
use ixion.FormulaLexer.Keys.{Unknown}
use ixion.FormulaLexer.Spelling.{
  Spelled, at_end, space, token, Reads, one, blank, last, none_left, lex_round-Reads,
}

module _ {ℓ} {Double : Type ℓ} (to_double : Bytes → Double) (sep_arg : ℕ) where
  -- The text has a part that tokens stand for, and behind it a `#` that no error value follows.
  pub data HasUnknown (s : Bytes) : Type ℓ where
    has_unknown :
        (ts : List (LexerToken Double)) (before rest : Bytes)
        → s ≡ before ++ b'#' ∷ rest
        → Spelled to_double sep_arg ts before
        → Unknown rest
        → HasUnknown s

  push-eq-general_error :
      (t : LexerToken Double) (m : Lexed Double)
      → push to_double sep_arg t m ≡ general_error
      → m ≡ general_error
  push-eq-general_error t (tokens us) h = absurd (cc)
  push-eq-general_error t general_error h = refl
  push-eq-general_error t stuck h = absurd (cc)

  tokenize-nil : (fuel : ℕ) → tokenize to_double sep_arg fuel [] ≡ general_error → ⊥
  unfolding tokenize
  tokenize-nil zero h = cc
  tokenize-nil (suc fuel) h = cc

  find_unknown :
      (fuel : ℕ) (c : ℕ) (rest : Bytes) {r : Round Double}
      → ((s : Bytes) → tokenize to_double sep_arg fuel s ≡ general_error → HasUnknown s)
      → Reads to_double sep_arg (c ∷ rest) r
      → lex_round to_double sep_arg c rest ≡ r
      → tokenize to_double sep_arg (suc fuel) (c ∷ rest) ≡ general_error
      → HasUnknown (c ∷ rest)
  unfolding tokenize
  find_unknown fuel c rest later (one {t} {w} {left} spells u) q h =
      elim (later left
        (push-eq-general_error t (tokenize to_double sep_arg fuel left) (rw (q, tokenize) at h))) [
          | has_unknown ts before after e spelled unknown ↦
              has_unknown (t ∷ ts) (w ++ before) after
                (u ∙ rw (e, append_assoc w before (b'#' ∷ after)) refl) (token spells spelled refl)
                unknown
        ]
  find_unknown fuel c rest later (blank {left} u) q h = elim (later left (rw (q, tokenize) at h)) [
    | has_unknown ts before after e spelled unknown ↦
        has_unknown ts (b' ' ∷ before) after (u ∙ ap (◌∷◌ b' ') e) (space spelled) unknown
  ]
  find_unknown fuel c rest later (last {t} clean u) q h = absurd (
      tokenize-nil fuel (
        push-eq-general_error (string t) (tokenize to_double sep_arg fuel [])
          (rw (q, tokenize) at h)))
  find_unknown fuel c rest later (none_left {rest = after} u unknown) q h =
      has_unknown [] [] after u at_end unknown

  pub tokenize-HasUnknown :
      (fuel : ℕ) (s : Bytes) → tokenize to_double sep_arg fuel s ≡ general_error → HasUnknown s
  tokenize-HasUnknown zero s h = absurd (unfold tokenize in cc h)
  tokenize-HasUnknown (suc fuel) [] h = absurd (tokenize-nil (suc fuel) h)
  tokenize-HasUnknown (suc fuel) (c ∷ rest) h =
      find_unknown fuel c rest (tokenize-HasUnknown fuel) (lex_round-Reads to_double sep_arg c rest)
        refl h
