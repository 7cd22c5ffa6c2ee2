-- ===== src/Prelude/Sort.antt =====
-- Python's `sorted` on texts, as insertion into a list ordered by code points, and membership.
use Prim.Native.String.{String}
use mathlib.Core.Bool.{Bool, true, false, ◌&&◌, ◌||◌}
use mathlib.Core.List.{List, [], ◌∷◌}
use mathlib.Core.Path.{◌≡◌, refl, sym}
use mathlib.Core.Logic.{◌⊎◌, inl, inr, ◌↔◌}
use native.Mathlib.Omega.{arith}
use text.Mathlib.Text.{◌==◌}
use text.Mathlib.TextEquality.{eq_iff}
use ai_forge_memory.Prelude.Tests.{if◌then◌else◌, ltb, eqb, Bool-cases}
use ai_forge_memory.Prelude.Text.{Text, codes}

-- `x` stands somewhere in the list.
abbrev pub In : {A : Type 0} → A → List A → Type 0
In x [] = ⊥
In x (y ∷ ys) = (x ≡ y) ⊎ In x ys

-- `x in xs`
abbrev pub contains : String → List String → Bool
contains x [] = false
contains x (y ∷ ys) = y == x || contains x ys

pub contains_iff : (x : String) (ys : List String) → (contains x ys ≡ true) ↔ In x ys
contains_iff x [] = (λ e. cc, λ e. absurd e)
contains_iff x (y ∷ ys) =
    let ih : (contains x ys ≡ true) ↔ In x ys = contains_iff x ys in
    let e : ((y == x) ≡ true) ↔ (y ≡ x) = eq_iff y x in
    elim (Bool-cases (y == x)) [
      | inl t ↦ (λ _. inl (sym (e.0 t)), λ _. rw t)
      | inr f ↦ rw f (λ t. inr (ih.0 t), elim [ inl p ↦ cc (e.1 (sym p)) | inr m ↦ ih.1 m ])
    ]

-- A list with no member is empty.
pub nil_of_no_member : (xs : List String) → ((x : String) → ¬ In x xs) → xs ≡ []
nil_of_no_member [] h = refl
nil_of_no_member (x ∷ xs) h = absurd (h x (inl refl))

-- Lexicographic order on code points.
abbrev codes_le : Text → Text → Bool
codes_le [] t = true
codes_le (c ∷ s) [] = false
codes_le (c ∷ s) (d ∷ t) = ltb c d || eqb c d && codes_le s t

abbrev pub text_le : String → String → Bool
text_le s t = codes_le (codes s) (codes t)

codes_le_total : (s t : Text) → codes_le s t ≡ false → codes_le t s ≡ true
codes_le_total [] t h = cc
codes_le_total (c ∷ s) [] h = refl
codes_le_total (c ∷ s) (d ∷ t) h = ground (arith, codes_le_total s t)

unfoldable pub insert_sorted : String → List String → List String
insert_sorted x [] = x ∷ []
insert_sorted x (y ∷ ys) = if text_le x y then x ∷ y ∷ ys else y ∷ insert_sorted x ys

unfoldable pub sorted : List String → List String
unfolding insert_sorted
sorted [] = []
sorted (x ∷ xs) = insert_sorted x (sorted xs)

In-insert_sorted :
    (x y : String) (ys : List String) → In x (insert_sorted y ys) ↔ ((x ≡ y) ⊎ In x ys)
unfolding insert_sorted
In-insert_sorted x y [] = (λ m. m, λ m. m)
In-insert_sorted x y (z ∷ ys) =
    let ih : In x (insert_sorted y ys) ↔ ((x ≡ y) ⊎ In x ys) = In-insert_sorted x y ys in
    elim (Bool-cases (text_le y z)) [
      | inl t ↦ rw t (λ m. m, λ m. m)
      | inr f ↦ rw f (
        elim [
          | inl e ↦ inr (inl e)
          | inr m ↦ elim (ih.0 m) [ inl e ↦ inl e | inr n ↦ inr (inr n) ]
        ],
        elim [
          | inl e ↦ inr (ih.1 (inl e))
          | inr m ↦ elim m [ inl e ↦ inl e | inr n ↦ inr (ih.1 (inr n)) ]
        ],
      )
    ]

-- Sorting keeps exactly the members.
pub In-sorted : (x : String) (xs : List String) → In x (sorted xs) ↔ In x xs
unfolding sorted
In-sorted x [] = (λ m. m, λ m. m)
In-sorted x (y ∷ ys) =
    let ih : In x (sorted ys) ↔ In x ys = In-sorted x ys in
    let here : In x (insert_sorted y (sorted ys)) ↔ ((x ≡ y) ⊎ In x (sorted ys)) =
      In-insert_sorted x y (sorted ys) in
    (
      λ m. elim (here.0 m) [ inl e ↦ inl e | inr n ↦ inr (ih.0 n) ],
      elim [ inl e ↦ here.1 (inl e) | inr n ↦ here.1 (inr (ih.1 n)) ],
    )

-- Each text is at most its successor.
abbrev pub IsSorted : List String → Type 0
IsSorted [] = Unit
IsSorted (x ∷ []) = Unit
IsSorted (x ∷ y ∷ ys) = (text_le x y ≡ true) × IsSorted (y ∷ ys)

IsSorted-tail : (x : String) (ys : List String) → IsSorted (x ∷ ys) → IsSorted ys
IsSorted-tail x [] h = tt
IsSorted-tail x (y ∷ ys) h = h.1

insert_sorted-IsSorted_cons :
    (x y : String) (ys : List String)
    → text_le y x ≡ true
    → IsSorted (y ∷ ys)
    → IsSorted (insert_sorted x ys)
    → IsSorted (y ∷ insert_sorted x ys)
unfolding insert_sorted
insert_sorted-IsSorted_cons x y [] le h k = (le, tt)
insert_sorted-IsSorted_cons x y (z ∷ ys) le h k = elim (Bool-cases (text_le x z)) [
  | inl t ↦ rw t (le, (t, h.1))
  | inr f ↦ rw f (h.0, rw f at k)
]

insert_sorted-IsSorted :
    (x : String) (ys : List String) → IsSorted ys → IsSorted (insert_sorted x ys)
unfolding insert_sorted
insert_sorted-IsSorted x [] h = tt
insert_sorted-IsSorted x (y ∷ ys) h = elim (Bool-cases (text_le x y)) [
  | inl t ↦ rw t (t, h)
  | inr f ↦ rw f (
      insert_sorted-IsSorted_cons x y ys (codes_le_total (codes x) (codes y) f) h
        (insert_sorted-IsSorted x ys (IsSorted-tail y ys h)))
]

pub sorted-IsSorted : (xs : List String) → IsSorted (sorted xs)
unfolding sorted
sorted-IsSorted [] = tt
sorted-IsSorted (x ∷ xs) = insert_sorted-IsSorted x (sorted xs) (sorted-IsSorted xs)
