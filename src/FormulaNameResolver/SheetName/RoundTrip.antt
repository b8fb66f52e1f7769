-- ===== src/FormulaNameResolver/SheetName/RoundTrip.antt =====
-- The name that is written is read as the sheet that has it.
use ixion.Prelude.{
  ℕ, Bool, true, false, ◌||◌, [], ◌∷◌, ◌++◌, append_assoc, append-nil, some, ◌≡◌, ◌≢◌, ◌⊎◌, inl,
  inr, refl, ◌∙◌, arith, Bool-cases, ◌==◌,
}
use ixion.Prelude.Int.{pos}
use ixion.Address.Defs.{is_valid_sheet}
use ixion.FormulaLexer.Token.{Bytes}
use ixion.ModelContext.Defs.{Context, ok, get_sheet_index, get_sheet_name}
use ixion.ModelContext.Sheets.{IsContext, get_sheet_index_iff}
use ixion.FormulaNameResolver.SheetName.Defs.{
  has_quoted, doubled, quoted, append_sheet_name, parse_sheet_name_quoted, parse_sheet_name_plain,
  parse_sheet_name_from, parse_sheet_name,
}

-- The byte stands in the text.
unfoldable pub has_byte : ℕ → Bytes → Bool
has_byte b [] = false
has_byte b (c ∷ s) = c == b || has_byte b s

unfoldable pub begins_with_dollar : Bytes → Bool
begins_with_dollar [] = false
begins_with_dollar (c ∷ s) = c == b'$'

eq_self : (n : ℕ) → (n == n) ≡ true
eq_self n = ground arith

differs : (n : ℕ) → n ≢ 39 → (n == 39) ≡ false
differs n ne = ground arith

is_equal : (n m : ℕ) → (n == m) ≡ true → n ≡ m
is_equal n m h = ground arith

doubled-plain : (s rest : Bytes) → has_quoted s ≡ false → doubled s rest ≡ s ++ rest
unfolding has_quoted doubled
doubled-plain [] rest h = refl
doubled-plain (c ∷ s) rest h = ground (arith, doubled-plain s rest)

quoted-quotes : (s rest : Bytes) → has_quoted s ≡ true → quoted s rest ≡ 39 ∷ doubled s (39 ∷ rest)
unfolding quoted
quoted-quotes s rest q = rw (q, quoted) refl

quoted-plain : (s rest : Bytes) → has_quoted s ≡ false → quoted s rest ≡ s ++ rest
unfolding quoted
quoted-plain s rest q = rw (q, quoted) (doubled-plain s rest q)

has_quoted-append : (s t : Bytes) → has_quoted (s ++ t) ≡ false → has_quoted s ≡ false
unfolding has_quoted
has_quoted-append [] t h = refl
has_quoted-append (c ∷ s) t h = ground (arith, has_quoted-append s t)

module _ {ℓ} {Expr : Type ℓ} (c : Context Expr) where
  parse_sheet_name_quoted-doubled :
      (sep : ℕ) (name s rest : Bytes)
      → sep ≢ 39
      → parse_sheet_name_quoted c sep false name (doubled s (39 ∷ sep ∷ rest))
        ≡ some (get_sheet_index c (name ++ s), sep ∷ rest)
  unfolding parse_sheet_name_quoted doubled
  parse_sheet_name_quoted-doubled sep name [] rest ne =
      rw (differs sep ne, parse_sheet_name_quoted, eq_self sep, append-nil name) refl
  parse_sheet_name_quoted-doubled sep name (x ∷ s) rest ne = elim (Bool-cases (x == 39)) [
    | inl quote ↦ rw quote (
        rw (is_equal x 39 quote) (
          parse_sheet_name_quoted-doubled sep (name ++ 39 ∷ []) s rest ne
          ∙ rw (append_assoc name (39 ∷ []) s) refl))
    | inr other ↦ rw other (
        rw (other, parse_sheet_name_quoted)
          (parse_sheet_name_quoted-doubled sep (name ++ x ∷ []) s rest ne
            ∙ rw (append_assoc name (x ∷ []) s) refl))
  ]

  parse_sheet_name_plain-append :
      (sep : ℕ) (name s rest : Bytes)
      → has_byte sep s ≡ false
      → parse_sheet_name_plain c sep name (s ++ sep ∷ rest)
        ≡ some (get_sheet_index c (name ++ s), sep ∷ rest)
  unfolding parse_sheet_name_plain has_byte
  parse_sheet_name_plain-append sep name [] rest h =
      rw (eq_self sep, parse_sheet_name_plain, append-nil name) refl
  parse_sheet_name_plain-append sep name (x ∷ s) rest h =
      let other : (x == sep) ≡ false = ground arith in
      rw (other, parse_sheet_name_plain)
        (parse_sheet_name_plain-append sep (name ++ x ∷ []) s rest (ground arith)
          ∙ rw (append_assoc name (x ∷ []) s) refl)

  append_sheet_name-quoted :
      (i : ℕ) (s rest : Bytes)
      → get_sheet_name c (pos i) ≡ ok s
      → append_sheet_name c (pos i) rest ≡ ok (quoted s rest)
  unfolding append_sheet_name
  append_sheet_name-quoted i s rest at =
      let valid : is_valid_sheet (pos i) ≡ true = ground arith in
      rw (valid, at, append_sheet_name) refl

  -- What is read of a name that is written in quotes.
  parse_sheet_name-quotes :
      (sep : ℕ) (s rest : Bytes)
      → sep ≢ 39
      → parse_sheet_name c sep (39 ∷ doubled s (39 ∷ sep ∷ rest))
        ≡ some (get_sheet_index c s, sep ∷ rest)
  unfolding parse_sheet_name parse_sheet_name_from
  parse_sheet_name-quotes sep s rest ne = parse_sheet_name_quoted-doubled sep [] s rest ne

  -- What is read of a name without quotes: it ends at the first separator.
  parse_sheet_name-plain :
      (sep : ℕ) (s rest : Bytes)
      → sep ≢ 39
      → sep ≢ b'$'
      → has_quoted s ≡ false
      → has_byte sep s ≡ false
      → begins_with_dollar s ≡ false
      → parse_sheet_name c sep (s ++ sep ∷ rest) ≡ some (get_sheet_index c s, sep ∷ rest)
  unfolding parse_sheet_name parse_sheet_name_from has_quoted begins_with_dollar has_byte
  parse_sheet_name-plain sep [] rest n39 nd q b d =
      let e : (sep == b'$') ≡ false = ground arith in
      rw (e, parse_sheet_name, differs sep n39) (parse_sheet_name_plain-append sep [] [] rest refl)
  parse_sheet_name-plain sep (x ∷ s) rest n39 nd q b d =
      let e : (x == 39) ≡ false = ground arith in
      rw (d, parse_sheet_name, e) (parse_sheet_name_plain-append sep [] (x ∷ s) rest b)

  module _ (good : IsContext c) where
    -- The name of a sheet is written and read again as the sheet, up to the separator, where the name is not
    -- empty and either is written in quotes, or has no separator and does not begin with a dollar sign.
    pub parse_sheet_name-append_sheet_name :
        (i sep x : ℕ) (s rest : Bytes)
        → sep ≢ 39
        → sep ≢ b'$'
        → get_sheet_name c (pos i) ≡ ok (x ∷ s)
        → (has_quoted (x ∷ s) ≡ true)
          ⊎ ((has_byte sep (x ∷ s) ≡ false) × (begins_with_dollar (x ∷ s) ≡ false))
        → (text : Bytes) × (append_sheet_name c (pos i) (sep ∷ rest) ≡ ok text)
          × (parse_sheet_name c sep text ≡ some (pos i, sep ∷ rest))
    unfolding append_sheet_name quoted
    parse_sheet_name-append_sheet_name i sep x s rest n39 nd at kind =
        let index : get_sheet_index c (x ∷ s) ≡ pos i = (get_sheet_index_iff c good i x s).1 at in
        (
          quoted (x ∷ s) (sep ∷ rest),
          append_sheet_name-quoted i (x ∷ s) (sep ∷ rest) at,
          rw (← index) (read kind),
        )
      where
        read :
            (has_quoted (x ∷ s) ≡ true)
              ⊎ ((has_byte sep (x ∷ s) ≡ false) × (begins_with_dollar (x ∷ s) ≡ false))
            → parse_sheet_name c sep (quoted (x ∷ s) (sep ∷ rest))
              ≡ some (get_sheet_index c (x ∷ s), sep ∷ rest)
        read (inl q) =
            rw (quoted-quotes (x ∷ s) (sep ∷ rest) q) (parse_sheet_name-quotes sep (x ∷ s) rest n39)
        read (inr (b, d)) = elim (Bool-cases (has_quoted (x ∷ s))) [
          | inl q ↦
              rw (quoted-quotes (x ∷ s) (sep ∷ rest) q)
                (parse_sheet_name-quotes sep (x ∷ s) rest n39)
          | inr q ↦
              rw (quoted-plain (x ∷ s) (sep ∷ rest) q)
                (parse_sheet_name-plain sep (x ∷ s) rest n39 nd q b d)
        ]

    -- A name that is written without quotes, does not begin with a dollar sign, and has the separator behind its
    -- first character is read up to there: as the sheet of that part, or as none. The separator is neither a quote
    -- nor a dollar sign.
    pub parse_sheet_name-separator :
        (i sep x : ℕ) (s t rest : Bytes)
        → sep ≢ 39
        → sep ≢ b'$'
        → get_sheet_name c (pos i) ≡ ok (x ∷ s ++ sep ∷ t)
        → has_quoted (x ∷ s ++ sep ∷ t) ≡ false
        → has_byte sep (x ∷ s) ≡ false
        → begins_with_dollar (x ∷ s) ≡ false
        → (text : Bytes) × (append_sheet_name c (pos i) (sep ∷ rest) ≡ ok text)
          × (parse_sheet_name c sep text
              ≡ some (get_sheet_index c (x ∷ s), sep ∷ (t ++ sep ∷ rest)))
    unfolding append_sheet_name quoted
    parse_sheet_name-separator i sep x s t rest n39 nd at q b d = (
      quoted (x ∷ s ++ sep ∷ t) (sep ∷ rest),
      append_sheet_name-quoted i (x ∷ s ++ sep ∷ t) (sep ∷ rest) at,
      rw
          (
            quoted-plain (x ∷ s ++ sep ∷ t) (sep ∷ rest) q,
            append_assoc (x ∷ s) (sep ∷ t) (sep ∷ rest),
          )
          (parse_sheet_name-plain sep (x ∷ s) (t ++ sep ∷ rest) n39 nd
            (has_quoted-append (x ∷ s) (sep ∷ t) q) b d),
    )
