-- ===== src/FormulaParser/Runs.antt =====
-- A whole run of the parser: it ends, with formula tokens that stand for its input, or at a name that the
-- resolver does not know.
use ixion.Prelude.{ℕ, zero, suc, ◌+◌, ◌*◌, ◌≤◌, ◌<◌, List, [], ◌∷◌, ◌++◌, ◌≡◌, refl, arith, length}
use ixion.Address.Defs.{AbsAddress}
use ixion.FormulaLexer.Token.{Bytes, LexerToken, name}
use ixion.StringPool.Defs.{StringPool, empty_string_id}
use ixion.StringPool.Keeps.{IsPool}
use ixion.FormulaParser.Token.{FormulaToken, FormulaName, invalid}
use ixion.FormulaParser.Defs.{
  Parsed, parsed, parse_error, Step, emplaced, thrown, parse_step, emplace, parse,
}
use ixion.FormulaParser.Spelling.{Keeps, Spells, Spelled, at_end, token, Spells-Keeps}
use ixion.FormulaParser.Steps.{Steps, reads, unresolved, parse_step-Steps}

module _ {ℓ} {Double Function : Type ℓ} (resolve : Bytes → AbsAddress → FormulaName Function)
    (origin : AbsAddress) where
  -- Somewhere in the tokens there is a name that the resolver does not know.
  pub data Unresolved : List (LexerToken Double) → Type ℓ where
    at_head :
        (s : Bytes) {ts : List (LexerToken Double)}
        → resolve s origin ≡ invalid
        → Unresolved (name s ∷ ts)
    further :
        {t : LexerToken Double} {ts : List (LexerToken Double)}
        → Unresolved ts
        → Unresolved (t ∷ ts)

  -- How a run from the pool `p` over `ts` can end.
  pub data Ending (p : StringPool) (ts : List (LexerToken Double))
      : Parsed Double Function → Type ℓ where
    succeeds :
        {fts : List (FormulaToken Double Function)} {q : StringPool}
        → Spelled resolve origin q fts ts
        → IsPool q
        → Keeps p q
        → Ending p ts (parsed fts q)
    fails : Unresolved ts → Ending p ts parse_error

  Unresolved-append :
      (w : List (LexerToken Double)) {ts : List (LexerToken Double)}
      → Unresolved ts
      → Unresolved (w ++ ts)
  Unresolved-append [] u = u
  Unresolved-append (t ∷ w) u = further (Unresolved-append w u)

  emplace-Ending :
      (p q : StringPool) (t : LexerToken Double) (ts left w : List (LexerToken Double))
      (ft : FormulaToken Double Function) {m : Parsed Double Function}
      → Spells resolve origin q ft w
      → t ∷ ts ≡ w ++ left
      → Keeps p q
      → Ending q left m
      → Ending p (t ∷ ts) (emplace resolve origin ft m)
  emplace-Ending p q t ts left w ft spells u keeps (succeeds {fts} {q = r} spelled good keeps') =
      succeeds (token (Spells-Keeps resolve origin q r keeps' spells) spelled u) good
        (λ i s h. keeps' i s (keeps i s h))
  emplace-Ending p q t ts left w ft spells u keeps (fails lost) =
      fails (rw u (Unresolved-append w lost))

  runs :
      (fuel : ℕ) (p : StringPool) (ts : List (LexerToken Double))
      → IsPool p
      → length p.strings + 3 * length ts ≤ empty_string_id
      → length ts < fuel
      → Ending p ts (parse resolve origin fuel p ts)
  unfolding parse
  runs zero p ts h room enough = absurd (omega arith)
  runs (suc fuel) p [] h room enough = succeeds at_end h (λ i s q. q)
  runs (suc fuel) p (t ∷ ts) h room enough =
      by_step (parse_step resolve origin p t ts) refl
        (parse_step-Steps resolve origin p t ts h (omega arith)) (λ q left. runs fuel q left)
    where
      by_step :
          (step : Step Double Function)
          → parse_step resolve origin p t ts ≡ step
          → Steps resolve origin p t ts step
          → ((q : StringPool) (left : List (LexerToken Double))
              → IsPool q
              → length q.strings + 3 * length left ≤ empty_string_id
              → length left < fuel
              → Ending q left (parse resolve origin fuel q left))
          → Ending p (t ∷ ts) (parse resolve origin (suc fuel) p (t ∷ ts))
      by_step (emplaced ft q left) e (reads w spells u le good keeps small) later =
          rw (e, parse)
            (emplace-Ending p q t ts left w ft spells u keeps
              (later q left good (omega arith) (omega arith)))
      by_step thrown e (unresolved s same lost) later =
          rw (e, parse) (fails (rw same (at_head s lost)))

  -- Over a pool with room for three strings a token, a run of one round more than there are tokens comes
  -- to an end. Either its formula tokens stand for the tokens of the lexer, by the strings of a pool in
  -- which the old identifiers keep their strings, or it fails and there is a name that the resolver does
  -- not know.
  pub parse_lem :
      (p : StringPool) (ts : List (LexerToken Double))
      → IsPool p
      → length p.strings + 3 * length ts ≤ empty_string_id
      → Ending p ts (parse resolve origin (suc (length ts)) p ts)
  parse_lem p ts h room = runs (suc (length ts)) p ts h room (omega arith)
