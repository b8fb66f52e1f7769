-- ===== src/FormulaInterpreter/Array/Places.antt =====
-- The places of a matrix that have been filled, row by row.
use ixion.Prelude.{
  ℕ, suc, ◌+◌, ◌*◌, ◌<◌, List, [], ◌∷◌, ◌++◌, Option, none, some, ◌≡◌, ◌⊎◌, inl, inr, refl, ◌∙◌,
  arith,
}
use ixion.FormulaLexer.Token.{Bytes}

-- Each text has a place in a matrix of that size.
abbrev pub Inside : ℕ → ℕ → List ((ℕ × ℕ) × Bytes) → Type 0
Inside rows cols [] = Unit
Inside rows cols (((r, c), s) ∷ xs) = (r < rows) × (c < cols) × Inside rows cols xs

abbrev pub CountedBy : Option ℕ → ℕ → ℕ → ℕ → Type 0
CountedBy none row col n = (row ≡ 0) × (n ≡ col)
CountedBy (some w) row col n = n ≡ row * w + col

suc-mul : (r w : ℕ) → suc r * w ≡ r * w + w
suc-mul r w = omega arith

pub CountedBy-next :
    (p : Option ℕ) (row col n m : ℕ)
    → m ≡ suc n
    → CountedBy p row col n
    → CountedBy p row (suc col) m
CountedBy-next none row col n m e h = (h.0, omega (arith, h.1))
CountedBy-next (some w) row col n m e h = omega (arith, h)

pub CountedBy-row :
    (p : Option ℕ) (row col n : ℕ)
    → ((w : ℕ) → p ≡ some w → w ≡ col)
    → CountedBy p row col n
    → n ≡ suc row * col
CountedBy-row none row col n e h = rw (h.0, h.1) (omega arith)
CountedBy-row (some w) row col n e h = h ∙ rw (← e w refl) (omega (arith, suc-mul row w))

-- Where a place is that has been filled, in row `row` up to column `col`, behind rows of width `p`.
abbrev pub Filled : ℕ → ℕ → Option ℕ → ℕ → ℕ → Type 0
Filled row col p r c = ((r ≡ row) × (c < col)) ⊎ ((r < row) × (w : ℕ) × (p ≡ some w) × (c < w))

abbrev pub AllFilled : ℕ → ℕ → Option ℕ → List ((ℕ × ℕ) × Bytes) → Type 0
AllFilled row col p [] = Unit
AllFilled row col p (((r, c), t) ∷ xs) = Filled row col p r c × AllFilled row col p xs

pub AllFilled-next :
    (row col : ℕ) (p : Option ℕ) (xs : List ((ℕ × ℕ) × Bytes))
    → AllFilled row col p xs
    → AllFilled row (suc col) p xs
AllFilled-next row col p [] h = tt
AllFilled-next row col p (((r, c), t) ∷ xs) (inl (e, q), h) =
    (inl (e, omega arith), AllFilled-next row col p xs h)
AllFilled-next row col p (((r, c), t) ∷ xs) (inr q, h) = (inr q, AllFilled-next row col p xs h)

pub AllFilled-append :
    (row col : ℕ) (p : Option ℕ) (xs : List ((ℕ × ℕ) × Bytes)) (r c : ℕ) (t : Bytes)
    → AllFilled row col p xs
    → Filled row col p r c
    → AllFilled row col p (xs ++ ((r, c), t) ∷ [])
AllFilled-append row col p [] r c t h f = (f, tt)
AllFilled-append row col p ((q, u) ∷ xs) r c t (g, h) f =
    (g, AllFilled-append row col p xs r c t h f)

-- The next row begins, where this one is as wide as the others.
pub AllFilled-row :
    (row col : ℕ) (p : Option ℕ) (xs : List ((ℕ × ℕ) × Bytes))
    → ((w : ℕ) → p ≡ some w → w ≡ col)
    → AllFilled row col p xs
    → AllFilled (suc row) 0 (some col) xs
AllFilled-row row col p [] e h = tt
AllFilled-row row col p (((r, c), t) ∷ xs) e (inl (f, q), h) =
    (inr (omega arith, col, refl, q), AllFilled-row row col p xs e h)
AllFilled-row row col p (((r, c), t) ∷ xs) e (inr (f, w, same, q), h) =
    (inr (omega arith, col, refl, omega (arith, e w same)), AllFilled-row row col p xs e h)

pub Inside-close :
    (row col : ℕ) (p : Option ℕ) (xs : List ((ℕ × ℕ) × Bytes))
    → ((w : ℕ) → p ≡ some w → w ≡ col)
    → AllFilled row col p xs
    → Inside (suc row) col xs
Inside-close row col p [] e h = tt
Inside-close row col p (((r, c), t) ∷ xs) e (inl (f, q), h) =
    (omega arith, q, Inside-close row col p xs e h)
Inside-close row col p (((r, c), t) ∷ xs) e (inr (f, w, same, q), h) =
    (omega arith, omega (arith, e w same), Inside-close row col p xs e h)
