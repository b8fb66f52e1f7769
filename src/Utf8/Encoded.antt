-- ===== src/Utf8/Encoded.antt =====
-- The positions in a string that encodes code points.
use ixion.Prelude.{
  ℕ, suc, ◌+◌, ◌-◌, ◌/◌, ◌%◌, ◌≤◌, ◌<◌, Bool, true, false, ◌&&◌, List, [], ◌∷◌, ◌++◌, none, some,
  ◌≡◌, refl, arith, length, ltb, if◌then◌else◌, Bool-cases, inl, inr,
}
use ixion.FormulaLexer.Token.{Bytes}
use ixion.Utf8.Defs.{calc_utf8_byte_length, positions_from, calc_utf8_byte_positions}

-- The UTF-8 form of a code point.
abbrev pub encode : ℕ → Bytes
encode c =
    if ltb c 128
    then c ∷ []
    else if ltb c 2048
    then (192 + c / 64) ∷ (128 + c % 64) ∷ []
    else if ltb c 65536
    then (224 + c / 4096) ∷ (128 + c / 64 % 64) ∷ (128 + c % 64) ∷ []
    else (240 + c / 262144) ∷ (128 + c / 4096 % 64) ∷ (128 + c / 64 % 64) ∷ (128 + c % 64) ∷ []

abbrev pub encode_all : List ℕ → Bytes
encode_all [] = []
encode_all (c ∷ cs) = encode c ++ encode_all cs

-- Where the characters start, from an index on.
abbrev pub starts : ℕ → List ℕ → List ℕ
starts i [] = []
starts i (c ∷ cs) = i ∷ starts (i + length (encode c)) cs

-- All code points lie below a bound.
abbrev pub all_below : ℕ → List ℕ → Bool
all_below b [] = true
all_below b (c ∷ cs) = ltb c b && all_below b cs

lead_two : (c : ℕ) → 128 ≤ c → c < 2048 → calc_utf8_byte_length (192 + c / 64) ≡ some 2
unfolding calc_utf8_byte_length
lead_two c h k = ground arith

lead_three : (c : ℕ) → 2048 ≤ c → c < 65536 → calc_utf8_byte_length (224 + c / 4096) ≡ some 3
unfolding calc_utf8_byte_length
lead_three c h k = ground arith

lead_four : (c : ℕ) → 65536 ≤ c → c < 1048576 → calc_utf8_byte_length (240 + c / 262144) ≡ some 4
unfolding calc_utf8_byte_length
lead_four c h k = ground arith

lead_last : (c : ℕ) → 1048576 ≤ c → c < 1114112 → calc_utf8_byte_length (240 + c / 262144) ≡ none
unfolding calc_utf8_byte_length
lead_last c h k = ground arith

-- A lead byte of a character of `n + 1` bytes.
lead_then :
    (n i x : ℕ) (rest : Bytes) {later : List ℕ}
    → calc_utf8_byte_length x ≡ some (suc n)
    → positions_from n (suc i) rest ≡ some later
    → positions_from 0 i (x ∷ rest) ≡ some (i ∷ later)
unfolding positions_from
lead_then n i x rest lead q =
    let back : suc n - 1 ≡ n = omega arith in rw (positions_from, lead, back, q)

lead_refused :
    (i x : ℕ) (rest : Bytes) → calc_utf8_byte_length x ≡ none → positions_from 0 i (x ∷ rest) ≡ none
unfolding positions_from
lead_refused i x rest lead = rw (positions_from, lead)

positions_of_encoded :
    (i : ℕ) (cs : List ℕ)
    → all_below 1048576 cs ≡ true
    → positions_from 0 i (encode_all cs) ≡ some (starts i cs)
unfolding positions_from
positions_of_encoded i [] h = refl
positions_of_encoded i (c ∷ cs) h =
    let below : c < 1048576 = ground arith in
    let rest : all_below 1048576 cs ≡ true = ground arith in
    let one : i + 1 ≡ suc i = omega arith in
    let two : i + 2 ≡ suc (suc i) = omega arith in
    let three : i + 3 ≡ suc (suc (suc i)) = omega arith in
    let four : i + 4 ≡ suc (suc (suc (suc i))) = omega arith in
    elim (Bool-cases (ltb c 128)) [
      | inl a ↦
          rw (a, one)
            (lead_then 0 i c (encode_all cs) (unfold calc_utf8_byte_length in rw a)
              (positions_of_encoded (suc i) cs rest))
      | inr a ↦ elim (Bool-cases (ltb c 2048)) [
        | inl b ↦
            rw (a, b, two)
              (lead_then 1 i (192 + c / 64) ((128 + c % 64) ∷ encode_all cs)
                (lead_two c (ground arith) (ground arith))
                (positions_of_encoded (suc (suc i)) cs rest))
        | inr b ↦ elim (Bool-cases (ltb c 65536)) [
          | inl d ↦
              rw (a, b, d, three)
                (lead_then 2 i (224 + c / 4096)
                  ((128 + c / 64 % 64) ∷ (128 + c % 64) ∷ encode_all cs)
                  (lead_three c (ground arith) (ground arith))
                  (positions_of_encoded (suc (suc (suc i))) cs rest))
          | inr d ↦
              rw (a, b, d, four)
                (lead_then 3 i (240 + c / 262144)
                  ((128 + c / 4096 % 64) ∷ (128 + c / 64 % 64) ∷ (128 + c % 64) ∷ encode_all cs)
                  (lead_four c (ground arith) below)
                  (positions_of_encoded (suc (suc (suc (suc i)))) cs rest))
        ]
      ]
    ]

-- In the UTF-8 form of code points below U+100000, the positions are those where the characters start.
pub calc_utf8_byte_positions-encode_all :
    (cs : List ℕ)
    → all_below 1048576 cs ≡ true
    → calc_utf8_byte_positions (encode_all cs) ≡ some (starts 0 cs)
unfolding calc_utf8_byte_positions
calc_utf8_byte_positions-encode_all cs h = positions_of_encoded 0 cs h

-- A string that begins with a code point of the last plane, from U+100000 to U+10FFFF, is refused.
pub calc_utf8_byte_positions-encode :
    (c : ℕ) (s : Bytes)
    → 1048576 ≤ c
    → c < 1114112
    → calc_utf8_byte_positions (encode c ++ s) ≡ none
unfolding calc_utf8_byte_positions positions_from
calc_utf8_byte_positions-encode c s h k =
    let a : ltb c 128 ≡ false = ground arith in
    let b : ltb c 2048 ≡ false = ground arith in
    let d : ltb c 65536 ≡ false = ground arith in
    rw (a, b, d)
      (lead_refused 0 (240 + c / 262144)
        ((128 + c / 4096 % 64) ∷ (128 + c / 64 % 64) ∷ (128 + c % 64) ∷ s) (lead_last c h k))
