-- ===== src/Tests/Lexer.antt =====
-- Runs of the tokenizer, and instances of its theorems.
use ixion.Prelude.{suc, false, List, [], ◌∷◌, ◌≡◌, ◌⊎◌, refl, length}
use ixion.FormulaLexer.Token.{Bytes, LexerToken, op, value, name, plus}
use ixion.FormulaLexer.Defs.{
  is_digit, find_op, is_op, numeral_loop, name_step, name_loop, tokens, general_error, lex_name,
  lex_numeral, lex_other, lex_round, tokenize,
}
use ixion.FormulaLexer.Spelling.{Spelled, tokenize-Spelled}
use ixion.FormulaLexer.Errors.{HasUnknown}
use ixion.FormulaLexer.Ends.{tokenize_lem}

-- A number is its text.
abbrev as_text : Bytes → Bytes
as_text s = s

-- `12+A1`
abbrev sum : Bytes
sum = b'1' ∷ b'2' ∷ b'+' ∷ b'A' ∷ b'1' ∷ []

abbrev sum_tokens : List (LexerToken Bytes)
sum_tokens = value (b'1' ∷ b'2' ∷ []) ∷ op plus ∷ name (b'A' ∷ b'1' ∷ []) ∷ []

sum_run : tokenize as_text b',' 6 sum ≡ tokens sum_tokens
unfolding tokenize lex_round is_digit find_op lex_numeral numeral_loop lex_other lex_name name_loop
    name_step is_op
sum_run = refl

tokenize-Spelled_example : Spelled as_text b',' sum_tokens sum
tokenize-Spelled_example = tokenize-Spelled as_text b',' 6 sum sum_tokens sum_run

no_digit : is_digit b',' ≡ false
unfolding is_digit
no_digit = refl

tokenize_lem_example :
    ((ts : List (LexerToken Bytes)) × (tokenize as_text b',' (suc (length sum)) sum ≡ tokens ts)
      × Spelled as_text b',' ts sum)
    ⊎ (tokenize as_text b',' (suc (length sum)) sum ≡ general_error) × HasUnknown as_text b',' sum
tokenize_lem_example = tokenize_lem as_text b',' sum no_digit
