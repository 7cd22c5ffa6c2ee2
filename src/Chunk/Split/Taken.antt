-- ===== src/Chunk/Split/Taken.antt =====
-- features/chunk/embed.py: lines that are taken from a part of a file are lines of the file.
use ai_forge_memory.Prelude.{
  ℕ, suc, ◌+◌, ◌-◌, false, List, [], ◌∷◌, ◌≡◌, refl, length, take, drop, ◌∙◌, ap, sym, zero, arith,
}
use ai_forge_memory.Prelude.Text.{Text}
use ai_forge_memory.Chunk.Split.{null, first}

-- The lines of a file from the `a`th to the `b`th, counted from 1.
abbrev pub run : List Text → ℕ → ℕ → List Text
run lines a b = take (b + 1 - a) (drop (a - 1) lines)

pub run_at : (lines : List Text) (i n : ℕ) → run lines (i + 1) (i + n) ≡ take n (drop i lines)
run_at lines i n =
    let few : i + n + 1 - (i + 1) ≡ n = omega arith in
    let from : i + 1 - 1 ≡ i = omega arith in rw (few, from) refl

-- What is taken is all that is taken by its own length.
pub take_own : (n : ℕ) (xs : List Text) → take n xs ≡ take (length (take n xs)) xs
take_own zero xs = refl
take_own (suc n) [] = refl
take_own (suc n) (x ∷ xs) = ap (λ ys. x ∷ ys) (take_own n xs)

take-take_own :
    (n m : ℕ) (xs : List Text) → take n (take m xs) ≡ take (length (take n (take m xs))) xs
take-take_own zero m xs = refl
take-take_own (suc n) zero xs = refl
take-take_own (suc n) (suc m) [] = refl
take-take_own (suc n) (suc m) (x ∷ xs) = ap (λ ys. x ∷ ys) (take-take_own n m xs)

pub take-drop-take_own :
    (n i m : ℕ) (xs : List Text)
    → take n (drop i (take m xs)) ≡ take (length (take n (drop i (take m xs)))) (drop i xs)
take-drop-take_own n zero m xs = take-take_own n m xs
take-drop-take_own n (suc i) zero xs = take-take_own n 0 (drop (suc i) xs)
take-drop-take_own n (suc i) (suc m) [] = take_own n []
take-drop-take_own n (suc i) (suc m) (x ∷ xs) = take-drop-take_own n i m xs

abbrev none_left : List Text
none_left = []

drop_none : (n : ℕ) → drop n none_left ≡ none_left
drop_none zero = refl
drop_none (suc n) = refl

pub drop-drop : (i s : ℕ) (xs : List Text) → drop i (drop s xs) ≡ drop (s + i) xs
drop-drop i zero xs = let e : i ≡ 0 + i = omega arith in ap (λ n. drop n xs) e
drop-drop i (suc s) [] = drop_none i ∙ sym (drop_none (suc s + i))
drop-drop i (suc s) (x ∷ xs) =
    let e : suc (s + i) ≡ suc s + i = omega arith in drop-drop i s xs ∙ ap (λ n. drop n (x ∷ xs)) e

pub first-take : (m : ℕ) (xs : List Text) → null (take m xs) ≡ false → first (take m xs) ≡ first xs
first-take zero xs h = cc
first-take (suc m) [] h = refl
first-take (suc m) (x ∷ xs) h = refl
