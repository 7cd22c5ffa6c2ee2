-- ===== src/Prelude/Members.antt =====
-- Membership in lists that are joined, cut and filtered.
use ai_forge_memory.Prelude.Tests.{Bool-cases}
use ai_forge_memory.Prelude.Lists.{take, drop, keep}
use ai_forge_memory.Prelude.Sort.{In}
use Prim.Native.Nat.{ℕ, zero, suc}
use Prim.Native.String.{String}
use mathlib.Core.Path.{◌≡◌, ap}
use mathlib.Core.Logic.{◌↔◌, ◌⊎◌, inl, inr}
use mathlib.Core.Bool.{Bool, true}
use mathlib.Core.List.{List, [], ◌∷◌, ◌++◌}

pub In-keep_iff :
    (p : String → Bool) (x : String) (xs : List String)
    → In x (keep p xs) ↔ (In x xs × (p x ≡ true))
In-keep_iff p x [] = (λ m. absurd m, λ m. absurd m.0)
In-keep_iff p x (y ∷ ys) =
    let ih : In x (keep p ys) ↔ (In x ys × (p x ≡ true)) = In-keep_iff p x ys in
    elim (Bool-cases (p y)) [
      | inl t ↦ rw t (
        elim [ inl e ↦ (inl e, rw e t) | inr m ↦ (inr (ih.0 m).0, (ih.0 m).1) ],
        λ (m, h). elim m [ inl e ↦ inl e | inr n ↦ inr (ih.1 (n, h)) ],
      )
      | inr f ↦ rw f (
        λ m. (inr (ih.0 m).0, (ih.0 m).1),
        λ (m, h). elim m [ inl e ↦ cc (ap p e) | inr n ↦ ih.1 (n, h) ],
      )
    ]

pub In-take : {A : Type 0} (x : A) (n : ℕ) (xs : List A) → In x (take n xs) → In x xs
In-take x zero xs m = absurd m
In-take x (suc n) [] m = m
In-take x (suc n) (y ∷ ys) m = elim m [ inl p ↦ inl p | inr q ↦ inr (In-take x n ys q) ]

pub In-drop : {A : Type 0} (x : A) (n : ℕ) (xs : List A) → In x (drop n xs) → In x xs
In-drop x zero xs m = m
In-drop x (suc n) [] m = m
In-drop x (suc n) (y ∷ ys) m = inr (In-drop x n ys m)

pub In-append : {A : Type 0} (x : A) (xs ys : List A) → In x (xs ++ ys) → In x xs ⊎ In x ys
In-append x [] ys m = inr m
In-append x (z ∷ xs) ys m = elim m [
  | inl p ↦ inl (inl p)
  | inr q ↦ elim (In-append x xs ys q) [ inl i ↦ inl (inr i) | inr j ↦ inr j ]
]

pub In-left : {A : Type 0} (x : A) (xs ys : List A) → In x xs → In x (xs ++ ys)
In-left x [] ys m = absurd m
In-left x (z ∷ xs) ys m = elim m [ inl p ↦ inl p | inr q ↦ inr (In-left x xs ys q) ]

pub In-right : {A : Type 0} (x : A) (xs ys : List A) → In x ys → In x (xs ++ ys)
In-right x [] ys m = m
In-right x (z ∷ xs) ys m = inr (In-right x xs ys m)
