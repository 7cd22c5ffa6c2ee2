-- ===== src/Query/Bundle/Trim/Budget.antt =====
-- query/bundle.py: what `_trim_to_budget` leaves of a bundle.
use ai_forge_memory.Prelude.{
  ℕ, suc, String, Bool, true, false, List, [], ◌∷◌, ◌≡◌, ◌≤◌, ◌<◌, ◌⊎◌, inl, inr, refl, sym, ap,
  subst, take, leb, eqb, arith, Bool-cases, if◌then◌else◌,
}
use ai_forge_memory.Query.{Reply, replied, raised}
use ai_forge_memory.Query.Bundle.{ContextBundle}
use ai_forge_memory.Prelude.Text.{clip}
use ai_forge_memory.Query.Bundle.Trim.{
  drop_calls, keep_two_chunks, drop_chunks, drop_memory, keep_few_anchors, cut_hard, fits,
  count_tokens, trim_by, trim_to_budget,
}

-- What is left of each section at a level from 0 to 6: the calls go at level 1, the chunks but for
-- two at 2 and all at 3, the linked repositories and the memory at 4, the symbols but for six and the
-- files but for four at 5; at 6 all symbols, files and services go, and the two texts are clipped.
abbrev pub level : ℕ → ContextBundle → ContextBundle
level n b = record b {
  callers = if leb 1 n then [] else b.callers;
  callees = if leb 1 n then [] else b.callees;
  chunks = if leb 3 n then [] else if leb 2 n then take 2 b.chunks else b.chunks;
  cross_repo = if leb 4 n then [] else b.cross_repo;
  decisions = if leb 4 n then [] else b.decisions;
  observations = if leb 4 n then [] else b.observations;
  notes = if leb 4 n then [] else b.notes;
  docs = if leb 4 n then [] else b.docs;
  symbols = if leb 6 n then [] else if leb 5 n then take 6 b.symbols else b.symbols;
  files = if leb 6 n then [] else if leb 5 n then take 4 b.files else b.files;
  services = if leb 6 n then [] else b.services;
  runbook_md = if leb 6 n then clip 500 b.runbook_md else b.runbook_md;
  conventions_md = if leb 6 n then clip 500 b.conventions_md else b.conventions_md;
}

abbrev pub IsAbove : ℕ → Reply ℕ → Type 0
IsAbove budget r = (k : ℕ) × (r ≡ replied k) × (budget < k)

abbrev pub IsWithin : ℕ → Reply ℕ → Type 0
IsWithin budget r = (k : ℕ) × (r ≡ replied k) × (k ≤ budget)

module _ (count : String → Reply ℕ) (budget : ℕ) (b : ContextBundle) where
  -- The tokens of the bundle at a level.
  abbrev pub tokens : ℕ → Reply ℕ
  tokens n = count_tokens count (level n b)

  -- The bundle at the first level that has no more tokens than the budget, and at level 6 if no level
  -- before it has; or what the
  -- rendering or the tokenizer raises at a level before that.
  abbrev pub IsTrimmed : Reply ContextBundle → Type 0
  IsTrimmed (replied r) =
      (n : ℕ) × (n ≤ 6)
      × (r ≡ level n b)
      × ((m : ℕ) → m < n → IsAbove budget (tokens m))
      × ((n ≡ 6) ⊎ IsWithin budget (tokens n))
  IsTrimmed (raised exc) =
      (n : ℕ) × (n < 6) × ((m : ℕ) → m < n → IsAbove budget (tokens m)) × (tokens n ≡ raised exc)

  before_next :
      (n : ℕ)
      → ((m : ℕ) → m < n → IsAbove budget (tokens m))
      → IsAbove budget (tokens n)
      → (m : ℕ) → m < suc n
      → IsAbove budget (tokens m)
  before_next n before now m lt = elim (Bool-cases (eqb m n)) [
    | inl e ↦ let same : n ≡ m = ground arith in subst (λ k. IsAbove budget (tokens k)) same now
    | inr e ↦ before m (ground arith)
  ]

  -- One cut: what is true of the levels from the next on is true from this one on.
  step :
      (n : ℕ) (cut : ContextBundle → ContextBundle) (cs : List (ContextBundle → ContextBundle))
      → n < 6
      → cut (level n b) ≡ level (suc n) b
      → (((m : ℕ) → m < suc n → IsAbove budget (tokens m))
          → IsTrimmed (trim_by (fits count budget) cs (level (suc n) b)))
      → ((m : ℕ) → m < n → IsAbove budget (tokens m))
      → IsTrimmed (trim_by (fits count budget) (cut ∷ cs) (level n b))
  unfolding fits
  step n cut cs lt e next before = by_count (tokens n) refl
    where
      rest : Reply ContextBundle
      rest = trim_by (fits count budget) cs (cut (level n b))

      by_test :
          (k : ℕ) (ok : Bool)
          → leb k budget ≡ ok
          → tokens n ≡ replied k
          → IsTrimmed (if ok then replied (level n b) else rest)
      by_test k true t p = (n, omega (arith, lt), refl, before, inr (k, p, ground arith))
      by_test k false f p =
          subst (λ x. IsTrimmed (trim_by (fits count budget) cs x)) (sym e)
            (next (before_next n before (k, p, ground arith)))

      by_count :
          (r : Reply ℕ)
          → tokens n ≡ r
          → IsTrimmed
              (elim (elim r as (λ _. Reply Bool) [
                | raised exc ↦ raised exc
                | replied k ↦ replied (leb k budget)
              ])
                as (λ _. Reply ContextBundle) [
                  | raised exc ↦ raised exc
                  | replied ok ↦ if ok then replied (level n b) else rest
                ])
      by_count (raised exc) p = (n, lt, before, p)
      by_count (replied k) p = by_test k (leb k budget) refl p

  -- `_trim_to_budget` takes the sections away in the order of the levels, and stops at the first level
  -- whose rendered bundle has no more tokens than the budget; where no level before the last has, it
  -- ends at the last. It raises only what the rendering or the tokenizer raises at a level that it looks at.
  pub trim_to_budget-IsTrimmed : IsTrimmed (trim_to_budget count budget b)
  unfolding trim_to_budget
  trim_to_budget-IsTrimmed =
      step 0 drop_calls
        (keep_two_chunks ∷ drop_chunks ∷ drop_memory ∷ keep_few_anchors ∷ cut_hard ∷ [])
        (omega arith) refl
        (step 1 keep_two_chunks (drop_chunks ∷ drop_memory ∷ keep_few_anchors ∷ cut_hard ∷ [])
          (omega arith) refl
          (step 2 drop_chunks (drop_memory ∷ keep_few_anchors ∷ cut_hard ∷ []) (omega arith) refl (
            step 3 drop_memory (keep_few_anchors ∷ cut_hard ∷ []) (omega arith) refl (
              step 4 keep_few_anchors (cut_hard ∷ []) (omega arith) refl (
                step 5 cut_hard [] (omega arith) refl
                  (λ before. (6, omega arith, refl, before, inl refl)))))))
        (λ m lt. absurd (omega arith))

  -- The errors are never cut.
  pub trim_to_budget-errors :
      (r : ContextBundle) → trim_to_budget count budget b ≡ replied r → r.errors ≡ b.errors
  trim_to_budget-errors r e =
      let (n, le, same, before, last) = subst IsTrimmed e trim_to_budget-IsTrimmed in
      ap (λ (x : ContextBundle). x.errors) same
