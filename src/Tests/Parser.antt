-- ===== src/Tests/Parser.antt =====
-- Instances of the theorems on the string pool and the formula parser.
use ixion.Prelude.{ℕ, suc, List, [], ◌∷◌, some, ◌≡◌, refl, arith, length, get_elem?, ◌==◌}
use ixion.Prelude.Int.{pos}
use ixion.Address.Defs.{AbsAddress}
use ixion.FormulaLexer.Token.{Bytes, LexerToken, op, name, string, less, equal}
use ixion.StringPool.Defs.{
  StringPool, find_string, add_string, append_string, insert_string, get_string,
}
use ixion.StringPool.Keeps.{IsPool, add_string_lem}
use ixion.FormulaParser.Token.{
  Table, eq_table, eq_table_self, FormulaToken, FormulaName, named_expression, operator,
  fop_less_equal, named_expression_token, string_token,
}
use ixion.FormulaParser.Defs.{parsed, parse, parse_step, less_step, name_token}
use ixion.FormulaParser.Runs.{Ending, parse_lem}

abbrev a : Bytes
a = b'a' ∷ []

abbrev b : Bytes
b = b'b' ∷ []

abbrev pool : StringPool
pool = record { strings = a ∷ []; string_map = (a, 0) ∷ [] }

pool-mapped :
    (i : ℕ) (s : Bytes)
    → get_elem? (pool.strings) i ≡ some s
    → find_string s (pool.string_map) ≡ some 0
unfolding find_string
pool-mapped i s h = ground arith

pool-IsPool : IsPool pool
unfolding find_string
pool-IsPool = record {
  listed = λ s {i} h. ground arith;
  mapped = λ i {s} h. (0, pool-mapped i s h);
  small = omega arith;
}

add_string_lem_example :
    IsPool (add_string pool b).1
    × (get_string (add_string pool b).1 (add_string pool b).0 ≡ some b)
    × ((i : ℕ) (t : Bytes)
        → get_string pool i ≡ some t
        → get_string (add_string pool b).1 i ≡ some t)
    × (add_string (add_string pool b).1 b ≡ add_string pool b)
add_string_lem_example = add_string_lem pool b pool-IsPool (omega arith)

-- The resolver takes every name for a named expression.
abbrev as_named : Bytes → AbsAddress → FormulaName ℕ
as_named s origin = named_expression

abbrev home : AbsAddress
home = record { sheet = pos 0; row = pos 0; column = pos 0 }

-- `a<="b"`
abbrev comparison : List (LexerToken ℕ)
comparison = name a ∷ op less ∷ op equal ∷ string b ∷ []

abbrev comparison_tokens : List (FormulaToken ℕ ℕ)
comparison_tokens = named_expression_token a ∷ operator fop_less_equal ∷ string_token 1 ∷ []

comparison_run :
    parse as_named home 5 pool comparison
    ≡ parsed comparison_tokens (record { strings = a ∷ b ∷ []; string_map = (b, 1) ∷ (a, 0) ∷ [] })
unfolding parse parse_step less_step name_token add_string find_string append_string insert_string
comparison_run = refl

parse_lem_example :
    Ending as_named home pool comparison
      (parse as_named home (suc (length comparison)) pool comparison)
parse_lem_example = parse_lem as_named home pool comparison pool-IsPool (omega arith)

-- The columns `a` to `b` of a table.
abbrev two_columns : Table
two_columns = record { name = 7; column_first = 0; column_last = 1; areas = 4 }

eq_table_self_example : eq_table two_columns two_columns ≡ (0 == 1)
eq_table_self_example = eq_table_self two_columns
