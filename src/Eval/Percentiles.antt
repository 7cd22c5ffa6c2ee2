-- ===== src/Eval/Percentiles.antt =====
-- features/eval/harness.py: the two latency percentiles of a report, in their order.
use ai_forge_memory.Prelude.{
  ℕ, zero, suc, ◌-◌, ◌*◌, ◌/◌, ◌≤◌, ◌<◌, true, false, List, [], ◌∷◌, ◌≡◌, ◌⊎◌, inl, inr, length,
  ltb, leb, arith, Bool-cases,
}
use ai_forge_memory.Prelude.Insertion.{
  IsFirst, IsOrdered, length-sorted_by, sorted_by, sorted_by-IsOrdered,
}
use ai_forge_memory.Eval.Report.{at, p50, p95}

ltb_trans : (x y z : ℕ) → ltb y x ≡ false → ltb z y ≡ false → ltb z x ≡ false
ltb_trans x y z h k = ground arith

ltb_asym : (x y : ℕ) → ltb y x ≡ true → ltb x y ≡ false
ltb_asym x y h = ground arith

at-above : (m i : ℕ) (ys : List ℕ) → IsFirst ltb m ys → i < length ys → m ≤ at i ys
at-above m i [] h lt = absurd (omega arith)
at-above m zero (y ∷ ys) (p, h) lt = ground arith
at-above m (suc i) (y ∷ ys) (p, h) lt = at-above m i ys h (omega arith)

at-le : (i j : ℕ) (ys : List ℕ) → IsOrdered ltb ys → i ≤ j → j < length ys → at i ys ≤ at j ys
at-le i j [] h le lt = absurd (omega arith)
at-le zero zero (y ∷ ys) h le lt = omega arith
at-le zero (suc j) (y ∷ ys) (above, h) le lt = at-above y j ys above (omega arith)
at-le (suc i) zero (y ∷ ys) h le lt = absurd (omega arith)
at-le (suc i) (suc j) (y ∷ ys) (above, h) le lt = at-le i j ys h (omega arith) (omega arith)

-- The upper percentile is not below the median, but for two values, where it is not above it.
pub percentiles :
    (xs : List ℕ) → 1 ≤ length xs → (p50 xs ≤ p95 xs) ⊎ ((length xs ≡ 2) × (p95 xs ≤ p50 xs))
unfolding p50 p95
percentiles xs pos =
    let up = sorted_by-IsOrdered ltb ltb_trans ltb_asym xs in
    let same = length-sorted_by ltb xs in
    elim (Bool-cases (leb (length xs / 2) (length xs * 95 / 100 - 1))) [
      | inl t ↦ inl (
          at-le (length xs / 2) (length xs * 95 / 100 - 1) (sorted_by ltb xs) up (ground arith)
            (omega (arith, same, pos)))
      | inr f ↦
          let two : length xs ≡ 2 = two_values (length xs) pos f in
          inr (
            two,
            at-le (length xs * 95 / 100 - 1) (length xs / 2) (sorted_by ltb xs) up
                (omega (arith, two)) (omega (arith, same, two)),
          )
    ]
  where
    two_values : (n : ℕ) → 1 ≤ n → leb (n / 2) (n * 95 / 100 - 1) ≡ false → n ≡ 2
    two_values n pos f = ground arith
