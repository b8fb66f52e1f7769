-- ===== src/FormulaParser/Steps.antt =====
-- What one round of the loop of `parse` does.
use ixion.Prelude.{◌+◌, ◌≤◌, List, [], ◌∷◌, ◌++◌, map, some, ◌≡◌, refl, arith, length}
use ixion.Address.Defs.{AbsAddress}
use ixion.FormulaLexer.Token.{
  Opcode, equal, less, greater, Bytes, LexerToken, op, name, string, value, error,
}
use ixion.StringPool.Defs.{StringPool, add_string, empty_string_id}
use ixion.StringPool.Keeps.{IsPool, add_string_lem, add_string-length}
use ixion.FormulaParser.Token.{
  Fopcode, fop_not_equal, fop_less, fop_greater, fop_less_equal, fop_greater_equal, TableName,
  FormulaToken, operator, single_ref, range_ref, table_ref, function_token, error_token,
  value_token, string_token, named_expression_token, FormulaName, invalid, named_expression,
  cell_reference, range_reference, table_reference, function,
}
use ixion.FormulaParser.Defs.{
  primitive, Step, emplaced, thrown, less_step, greater_step, add_table, name_token, parse_step,
}
use ixion.FormulaParser.Spelling.{
  op_text, Keeps, Spells, as_operator, as_value, as_error, as_string, as_cell, as_range,
  as_function, as_named, as_table,
}

primitive-op_text : (oc : Opcode) (f : Fopcode) → primitive oc ≡ some f → op_text f ≡ oc ∷ []
unfolding primitive
primitive-op_text oc f h = ground arith

module _ {ℓ} {Double Function : Type ℓ} (resolve : Bytes → AbsAddress → FormulaName Function)
    (origin : AbsAddress) where
  -- What a step does to a pool that has room for three strings.
  pub data Steps (p : StringPool) (t : LexerToken Double) (ts : List (LexerToken Double))
      : Step Double Function → Type ℓ where
    reads :
        {ft : FormulaToken Double Function} {q : StringPool} {left : List (LexerToken Double)}
        (w : List (LexerToken Double))
        → Spells resolve origin q ft w
        → t ∷ ts ≡ w ++ left
        → length left ≤ length ts
        → IsPool q
        → Keeps p q
        → length q.strings ≤ length p.strings + 3
        → Steps p t ts (emplaced ft q left)
    unresolved : (s : Bytes) → t ≡ name s → resolve s origin ≡ invalid → Steps p t ts thrown

  -- A step that reads a token and leaves the pool.
  alone :
      (p : StringPool) (t : LexerToken Double) (ts : List (LexerToken Double))
      (ft : FormulaToken Double Function)
      → IsPool p
      → Spells resolve origin p ft (t ∷ [])
      → Steps p t ts (emplaced ft p ts)
  alone p t ts ft h spells = reads (t ∷ []) spells refl (omega arith) h (λ i s q. q) (omega arith)

  spelled :
      (p : StringPool) (a b : Opcode) (f : Fopcode)
      → op_text f ≡ a ∷ b ∷ []
      → Spells {Double = Double} resolve origin p (operator f) (op a ∷ op b ∷ [])
  spelled p a b f q =
      let whole : Spells {Double = Double} resolve origin p (operator f) (map op (op_text f)) =
        as_operator f in
      rw q at whole

  pair :
      (p : StringPool) (a b : Opcode) (ts : List (LexerToken Double)) (f : Fopcode)
      → IsPool p
      → op_text f ≡ a ∷ b ∷ []
      → Steps p (op a) (op b ∷ ts) (emplaced (operator f) p ts)
  pair p a b ts f h q =
      reads (op a ∷ op b ∷ []) (spelled p a b f q) refl (omega arith) h (λ i s k. k) (omega arith)

  less_step-Steps :
      (p : StringPool) (ts : List (LexerToken Double))
      → IsPool p
      → Steps p (op less) ts (less_step p ts)
  unfolding less_step
  less_step-Steps p (op equal ∷ ts) h = pair p less equal ts fop_less_equal h refl
  less_step-Steps p (op greater ∷ ts) h = pair p less greater ts fop_not_equal h refl
  less_step-Steps p ts h = alone p (op less) ts (operator fop_less) h (as_operator fop_less)

  greater_step-Steps :
      (p : StringPool) (ts : List (LexerToken Double))
      → IsPool p
      → Steps p (op greater) ts (greater_step p ts)
  unfolding greater_step
  greater_step-Steps p (op equal ∷ ts) h = pair p greater equal ts fop_greater_equal h refl
  greater_step-Steps p ts h =
      alone p (op greater) ts (operator fop_greater) h (as_operator fop_greater)

  string-Steps :
      (p : StringPool) (s : Bytes) (ts : List (LexerToken Double))
      → IsPool p
      → length p.strings + 3 ≤ empty_string_id
      → Steps p (string s) ts (emplaced (string_token (add_string p s).0) (add_string p s).1 ts)
  string-Steps p s ts h room =
      let (good, found, keeps, _) = add_string_lem p s h (omega arith) in
      reads (string s ∷ []) (as_string (add_string p s).0 s found) refl (omega arith) good keeps
        (omega (arith, add_string-length p s))

  table-Steps :
      (p : StringPool) (s : Bytes) (t : TableName) (ts : List (LexerToken Double))
      → resolve s origin ≡ table_reference t
      → IsPool p
      → length p.strings + 3 ≤ empty_string_id
      → Steps p (name s) ts (emplaced (table_ref (add_table p t).0) (add_table p t).1 ts)
  unfolding add_table
  table-Steps p s t ts known h room =
      let p1 = (add_string p t.name).1 in
      let length1 = add_string-length p t.name in
      let (good1, found1, keeps1, _) = add_string_lem p t.name h (omega arith) in
      let p2 = (add_string p1 t.column_first).1 in
      let length2 = add_string-length p1 t.column_first in
      let (good2, found2, keeps2, _) = add_string_lem p1 t.column_first good1 (omega arith) in
      let length3 = add_string-length p2 t.column_last in
      let (good3, found3, keeps3, _) = add_string_lem p2 t.column_last good2 (omega arith) in
      reads (name s ∷ [])
        (as_table s t (add_table p t).0 known (keeps3 _ _ (keeps2 _ _ found1)) (keeps3 _ _ found2)
          found3 refl)
        refl (omega arith) good3 (λ i u q. keeps3 i u (keeps2 i u (keeps1 i u q))) (omega arith)

  name_token-Steps :
      (p : StringPool) (s : Bytes) (fn : FormulaName Function) (ts : List (LexerToken Double))
      → resolve s origin ≡ fn
      → IsPool p
      → length p.strings + 3 ≤ empty_string_id
      → Steps p (name s) ts (name_token s fn p ts)
  unfolding name_token
  name_token-Steps p s (cell_reference a) ts q h room =
      alone p (name s) ts (single_ref a) h (as_cell s a q)
  name_token-Steps p s (range_reference r) ts q h room =
      alone p (name s) ts (range_ref r) h (as_range s r q)
  name_token-Steps p s (table_reference t) ts q h room = table-Steps p s t ts q h room
  name_token-Steps p s (function f) ts q h room =
      alone p (name s) ts (function_token f) h (as_function s f q)
  name_token-Steps p s named_expression ts q h room =
      alone p (name s) ts (named_expression_token s) h (as_named s q)
  name_token-Steps p s invalid ts q h room = unresolved s refl q

  primitive_spelled :
      (p : StringPool) (oc : Opcode) (f : Fopcode)
      → primitive oc ≡ some f
      → Spells {Double = Double} resolve origin p (operator f) (op oc ∷ [])
  primitive_spelled p oc f q =
      let whole : Spells {Double = Double} resolve origin p (operator f) (map op (op_text f)) =
        as_operator f in
      rw (primitive-op_text oc f q) at whole

  pub parse_step-Steps :
      (p : StringPool) (t : LexerToken Double) (ts : List (LexerToken Double))
      → IsPool p
      → length p.strings + 3 ≤ empty_string_id
      → Steps p t ts (parse_step resolve origin p t ts)
  unfolding parse_step primitive
  parse_step-Steps p (op less) ts h room = less_step-Steps p ts h
  parse_step-Steps p (op greater) ts h room = greater_step-Steps p ts h
  parse_step-Steps p (op oc) ts h room = alone p (op oc) ts _ h (primitive_spelled p oc _ refl)
  parse_step-Steps p (name s) ts h room = name_token-Steps p s (resolve s origin) ts refl h room
  parse_step-Steps p (error e) ts h room = alone p (error e) ts (error_token e) h (as_error e)
  parse_step-Steps p (string s) ts h room = string-Steps p s ts h room
  parse_step-Steps p (value d) ts h room = alone p (value d) ts (value_token d) h (as_value d)
