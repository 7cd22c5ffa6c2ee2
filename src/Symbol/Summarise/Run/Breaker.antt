-- ===== src/Symbol/Summarise/Run/Breaker.antt =====
-- features/symbol/summarise.py: when the circuit breaker of the serial run aborts.
use ai_forge_memory.Prelude.{
  ℕ, zero, suc, ◌+◌, ◌≤◌, ◌<◌, Bool, true, false, none, some, List, [], ◌∷◌, ◌≡◌, refl, sym, ap,
  subst, ◌↔◌, ◌⊎◌, inl, inr, length, take, map, leb, arith, Bool-cases,
}
use ai_forge_memory.Symbol.Summarise.Answer.{SymbolSummary}
use ai_forge_memory.Symbol.Summarise.Run.{is_error, serial, count_errors}
use ai_forge_memory.Symbol.Summarise.Run.Window.{HasWindow, Breaks, too_short, decided, onwards}

-- Errors in a row, before what follows.
abbrev after_errors : ℕ → List Bool → List Bool
after_errors zero bs = bs
after_errors (suc k) bs = true ∷ after_errors k bs

after_errors-true : (k : ℕ) (bs : List Bool) → after_errors k (true ∷ bs) ≡ after_errors (suc k) bs
after_errors-true zero bs = refl
after_errors-true (suc k) bs = ap (λ l. true ∷ l) (after_errors-true k bs)

length-after_errors : (k : ℕ) (bs : List Bool) → length (after_errors k bs) ≡ k + length bs
length-after_errors zero bs = omega arith
length-after_errors (suc k) bs = omega (arith, length-after_errors k bs)

count_errors-take_le : (n : ℕ) (bs : List Bool) → count_errors (take n bs) ≤ n
count_errors-take_le zero bs = omega arith
count_errors-take_le (suc n) [] = omega arith
count_errors-take_le (suc n) (true ∷ bs) = omega (arith, count_errors-take_le n bs)
count_errors-take_le (suc n) (false ∷ bs) = omega (arith, count_errors-take_le n bs)

broken_row :
    (k n : ℕ) (bs : List Bool) → k < n → count_errors (take n (after_errors k (false ∷ bs))) < n
broken_row k zero bs h = absurd (omega arith)
broken_row zero (suc n) bs h = omega (arith, count_errors-take_le n bs)
broken_row (suc k) (suc n) bs h = omega (arith, broken_row k n bs (omega arith))

skip_row :
    (k n : ℕ) (bs : List Bool)
    → k < n
    → HasWindow n n (after_errors k (false ∷ bs)) ↔ HasWindow n n bs
skip_row zero n bs h =
    (elim [ inl (_, c) ↦ absurd (omega (arith, c, broken_row 0 n bs h)) | inr m ↦ m ], λ m. inr m)
skip_row (suc k) n bs h =
    let ih = skip_row k n bs (omega arith) in
    (
      elim [ inl (_, c) ↦ absurd (omega (arith, c, broken_row (suc k) n bs h)) | inr m ↦ ih.0 m ],
      λ m. inr (ih.1 m),
    )

full_row : (n : ℕ) (bs : List Bool) → take n (after_errors n bs) ≡ after_errors n []
full_row zero bs = refl
full_row (suc n) bs = ap (λ l. true ∷ l) (full_row n bs)

count_errors-after_errors : (n : ℕ) → count_errors (after_errors n []) ≡ n
count_errors-after_errors zero = refl
count_errors-after_errors (suc n) = omega (arith, count_errors-after_errors n)

row-HasWindow : (n : ℕ) (bs : List Bool) → 1 ≤ n → HasWindow n n (after_errors n bs)
row-HasWindow zero bs h = absurd (omega arith)
row-HasWindow (suc n) bs h = inl (
  omega (
    arith,
    ap (λ (l : List Bool). length l) (full_row (suc n) bs),
    length-after_errors (suc n) [],
  ),
  omega (arith, ap count_errors (full_row (suc n) bs), count_errors-after_errors (suc n)),
)

one_more : (k : ℕ) → k + 1 ≡ suc k
one_more k = omega arith

serial_lem :
    (n errors idx : ℕ) (rest : List SymbolSummary)
    → errors < n
    → Breaks n n (after_errors errors (map is_error rest)) (serial n errors idx rest).result rest
unfolding serial
serial_lem n errors idx [] h =
    inr
      (refl, too_short n n (after_errors errors []) (omega (arith, length-after_errors errors [])))
serial_lem n errors idx (ss ∷ rest) h =
    let bs = map is_error rest in
    elim (Bool-cases (is_error ss)) [
      | inl t ↦ elim (Bool-cases (leb n (errors + 1))) [
        | inl stops ↦
            let e : n ≡ suc errors = ground arith in
            rw (t, stops, after_errors-true errors bs)
              (inl (
                refl,
                subst (λ m. HasWindow m m (after_errors (suc errors) bs)) (sym e)
                    (row-HasWindow (suc errors) bs (omega arith)),
              ))
        | inr goes ↦
            rw (t, goes, after_errors-true errors bs)
              (onwards n n (after_errors (errors + 1) bs) (after_errors (suc errors) bs) ss
                (serial n (errors + 1) (idx + 1) rest).result rest
                (rw (one_more errors) (λ m. m, λ m. m))
                (serial_lem n (errors + 1) (idx + 1) rest (ground arith)))
      ]
      | inr f ↦
          let skip = skip_row errors n bs h in
          elim (Bool-cases (leb n 0)) [
            | inl stops ↦ absurd (ground arith)
            | inr goes ↦
                rw (f, goes)
                  (onwards n n bs (after_errors errors (false ∷ bs)) ss
                    (serial n 0 (idx + 1) rest).result rest (skip.1, skip.0)
                    (serial_lem n 0 (idx + 1) rest (ground arith)))
          ]
    ]

-- The serial run aborts exactly if `n` symbols in a row end in an error; otherwise it returns every
-- summary.
pub serial_raises_iff :
    (n : ℕ) (answers : List SymbolSummary)
    → 1 ≤ n
    → let r = (serial n 0 0 answers).result in
      ((r ≡ none) ⊎ (r ≡ some answers)) × ((r ≡ none) ↔ HasWindow n n (map is_error answers))
serial_raises_iff n answers h =
    decided n n (map is_error answers) (serial n 0 0 answers).result answers
      (serial_lem n 0 0 answers h)
