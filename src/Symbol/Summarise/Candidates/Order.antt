-- ===== src/Symbol/Summarise/Candidates/Order.antt =====
-- features/symbol/summarise.py: the sort by size, and the cut at a limit.
use ai_forge_memory.Prelude.{
  ℕ, zero, suc, ◌≤◌, List, [], ◌∷◌, ◌≡◌, ◌↔◌, ◌⊎◌, inl, inr, take, drop, true, false, arith, All,
}
use ai_forge_memory.Prelude.Insertion.{IsFirst, IsOrdered, sorted_by-IsOrdered}
use ai_forge_memory.Prelude.Sort.{In}
use ai_forge_memory.Symbol.Summarise.Candidates.{Candidate, is_larger, by_size}

abbrev AllBelow : ℕ → List Candidate → Type 0
AllBelow n cs = All (λ e. e.n_lines ≤ n) cs

IsFirst-drop :
    (c : Candidate) (n : ℕ) (ds : List Candidate)
    → IsFirst is_larger c ds
    → AllBelow c.n_lines (drop n ds)
IsFirst-drop c zero [] h = tt
IsFirst-drop c zero (d ∷ ds) (p, h) = (ground arith, IsFirst-drop c zero ds h)
IsFirst-drop c (suc n) [] h = tt
IsFirst-drop c (suc n) (d ∷ ds) (p, h) = IsFirst-drop c n ds h

take-drop :
    (n : ℕ) (cs : List Candidate)
    → IsOrdered is_larger cs
    → All (λ (d : Candidate). AllBelow d.n_lines (drop n cs)) (take n cs)
take-drop zero cs h = tt
take-drop (suc n) [] h = tt
take-drop (suc n) (c ∷ cs) (first, h) = (IsFirst-drop c n cs first, take-drop n cs h)

is_larger_trans :
    (c d e : Candidate) → is_larger d c ≡ false → is_larger e d ≡ false → is_larger e c ≡ false
is_larger_trans c d e h k = ground arith

is_larger_asym : (c d : Candidate) → is_larger d c ≡ true → is_larger c d ≡ false
is_larger_asym c d h = ground arith

-- Of the candidates that are kept, none has fewer lines than one that is left out.
pub take-by_size :
    (n : ℕ) (cs : List Candidate)
    → All
        (λ (d : Candidate). All (λ (e : Candidate). e.n_lines ≤ d.n_lines) (drop n (by_size cs)))
        (take n (by_size cs))
take-by_size n cs =
    take-drop n (by_size cs) (sorted_by-IsOrdered is_larger is_larger_trans is_larger_asym cs)

pub In-split :
    (x : Candidate) (n : ℕ) (cs : List Candidate) → In x cs ↔ (In x (take n cs) ⊎ In x (drop n cs))
In-split x zero cs = (inr, elim [ inl m ↦ absurd m | inr m ↦ m ])
In-split x (suc n) [] = (inl, elim [ inl m ↦ m | inr m ↦ m ])
In-split x (suc n) (c ∷ cs) =
    let ih : In x cs ↔ (In x (take n cs) ⊎ In x (drop n cs)) = In-split x n cs in
    (
      elim [ inl e ↦ inl (inl e) | inr m ↦ elim (ih.0 m) [ inl a ↦ inl (inr a) | inr b ↦ inr b ] ],
      elim [
        | inl m ↦ elim m [ inl e ↦ inl e | inr a ↦ inr (ih.1 (inl a)) ]
        | inr b ↦ inr (ih.1 (inr b))
      ],
    )
