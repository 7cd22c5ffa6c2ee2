-- ===== src/Lsp/Client/Digits.antt =====
-- features/lsp/client.py: a length is read back as it was written.
use ai_forge_memory.Prelude.{
  ℕ, zero, suc, ◌+◌, ◌-◌, ◌*◌, ◌/◌, ◌%◌, ◌≤◌, ◌<◌, true, ◌&&◌, some, List, [], ◌∷◌, ◌++◌, ◌≡◌, refl,
  ap, inl, inr, ltb, leb, arith, All, All-append, Bool-cases,
}
use mathlib.Core.Option
use ai_forge_memory.Prelude.Text.{Text, digits_from}
use ai_forge_memory.Lsp.Client.{print_from, print}

abbrev pub IsDigit : ℕ → Type 0
IsDigit c = (48 ≤ c) × (c ≤ 57)

digit_test : (d : ℕ) → IsDigit d → (leb 48 d && leb d 57) ≡ true
digit_test d h = ground arith

digits_from-snoc :
    (s : Text) (a d : ℕ)
    → IsDigit d
    → digits_from a (s ++ d ∷ []) ≡ Option.map (λ m. m * 10 + (d - 48)) (digits_from a s)
digits_from-snoc [] a d h = rw (digit_test d h)
digits_from-snoc (c ∷ s) a d h = elim (Bool-cases (leb 48 c && leb c 57)) [
  | inl t ↦ rw t (digits_from-snoc s (a * 10 + (c - 48)) d h)
  | inr f ↦ rw f refl
]

digits_from-print_from : (fuel n : ℕ) → n < fuel → digits_from 0 (print_from fuel n) ≡ some n
digits_from-print_from zero n h = absurd (omega arith)
digits_from-print_from (suc fuel) n h = elim (Bool-cases (ltb n 10)) [
  | inl t ↦ rw t (ground arith)
  | inr f ↦
      rw
        (
          f,
          digits_from-snoc (print_from fuel (n / 10)) 0 (48 + n % 10) (omega arith, omega arith),
          digits_from-print_from fuel (n / 10) (ground arith),
        )
        (ap some (omega arith))
]

pub digits_from-print : (n : ℕ) → digits_from 0 (print n) ≡ some n
unfolding print
digits_from-print n = digits_from-print_from (suc n) n (omega arith)

print_from-AreDigits : (fuel n : ℕ) → All IsDigit (print_from fuel n)
print_from-AreDigits zero n = tt
print_from-AreDigits (suc fuel) n = elim (Bool-cases (ltb n 10)) [
  | inl t ↦ rw t (ground arith, tt)
  | inr f ↦ rw f (
      All-append IsDigit (print_from fuel (n / 10)) ((48 + n % 10) ∷ [])
        (print_from-AreDigits fuel (n / 10)) ((omega arith, omega arith), tt))
]

pub print-AreDigits : (n : ℕ) → All IsDigit (print n)
unfolding print
print-AreDigits n = print_from-AreDigits (suc n) n

snoc_cons : {A : Type 0} (xs : List A) (y : A) → (z : A) × (zs : List A) × ((xs ++ y ∷ []) ≡ z ∷ zs)
snoc_cons [] y = (y, [], refl)
snoc_cons (x ∷ xs) y = (x, xs ++ y ∷ [], refl)

-- The print is not empty.
pub print-cons : (n : ℕ) → (c : ℕ) × (s : Text) × (print n ≡ c ∷ s)
unfolding print
print-cons n = elim (Bool-cases (ltb n 10)) [
  | inl t ↦ rw t (48 + n, [], refl)
  | inr f ↦ rw f (snoc_cons (print_from n (n / 10)) (48 + n % 10))
]
