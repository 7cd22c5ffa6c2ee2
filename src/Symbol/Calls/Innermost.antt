-- ===== src/Symbol/Calls/Innermost.antt =====
-- features/symbol/extract_calls.py: `_enclosing_symbol` finds the innermost symbol around a line.
use ai_forge_memory.Prelude.{
  ℕ, ◌≤◌, true, false, Option, none, some, List, [], ◌∷◌, ◌≡◌, refl, ◌⊎◌, inl, inr, arith, All,
  Bool-cases, Option-cases, ltb,
}
use ai_forge_memory.Prelude.Sort.{In}
use ai_forge_memory.Symbol.Calls.{Symbol, encloses, span, innermost}

-- No symbol of the list contains the line; or the symbol does, is in the list, and none that
-- contains the line has a smaller range.
abbrev pub IsInnermost : ℕ → List Symbol → Option Symbol → Type 0
IsInnermost line ss none = All (λ t. encloses line t ≡ false) ss
IsInnermost line ss (some s) =
    In s ss × (encloses line s ≡ true) × All (λ t. (encloses line t ≡ false) ⊎ (span s ≤ span t)) ss

weaken :
    (line : ℕ) (s : Symbol) (ss : List Symbol)
    → All (λ t. encloses line t ≡ false) ss
    → All (λ t. (encloses line t ≡ false) ⊎ (span s ≤ span t)) ss
weaken line s [] h = h
weaken line s (t ∷ ss) (f, h) = (inl f, weaken line s ss h)

shrink :
    (line : ℕ) (s u : Symbol) (ss : List Symbol)
    → span s ≤ span u
    → All (λ t. (encloses line t ≡ false) ⊎ (span u ≤ span t)) ss
    → All (λ t. (encloses line t ≡ false) ⊎ (span s ≤ span t)) ss
shrink line s u [] le h = h
shrink line s u (t ∷ ss) le (c, h) =
    (elim c [ inl f ↦ inl f | inr k ↦ inr (omega (arith, le, k)) ], shrink line s u ss le h)

-- The search that `_enclosing_symbol` makes by sorting finds the innermost symbol around the line,
-- and finds none only where no symbol contains it.
innermost-IsInnermost : (line : ℕ) (ss : List Symbol) → IsInnermost line ss (innermost line ss)
innermost-IsInnermost line [] = tt
innermost-IsInnermost line (s ∷ ss) =
    let ih : IsInnermost line ss (innermost line ss) = innermost-IsInnermost line ss in
    elim (Bool-cases (encloses line s)) [
      | inl t ↦ elim (Option-cases (innermost line ss)) [
        | inl n ↦ rw (t, n) (inl refl, t, (inr (omega arith), weaken line s ss (rw n at ih)))
        | inr (u, e) ↦
            let (i, c, l) = (rw e at ih) in
            elim (Bool-cases (ltb (span u) (span s))) [
              | inl b ↦ rw (t, e, b) (inr i, c, (inr (ground arith), l))
              | inr b ↦
                  rw (t, e, b)
                    (inl refl, t, (inr (omega arith), shrink line s u ss (ground arith) l))
            ]
      ]
      | inr f ↦ elim (Option-cases (innermost line ss)) [
        | inl n ↦ rw (f, n) (f, rw n at ih)
        | inr (u, e) ↦ let (i, c, l) = (rw e at ih) in rw (f, e) (inr i, c, (inl f, l))
      ]
    ]
