-- ===== src/Prelude/Insertion.antt =====
-- Python's `sorted` with a key, as stable insertion by an order of the keys.
use Prim.Native.Nat.{suc}
use mathlib.Core.Bool.{Bool, true, false}
use mathlib.Core.List.{List, [], ◌∷◌}
use mathlib.Core.Path.{◌≡◌, refl}
use mathlib.Core.Logic.{◌⊎◌, inl, inr, ◌↔◌}
use native.Mathlib.Omega.{arith}
use ai_forge_memory.Prelude.Tests.{if◌then◌else◌, Bool-cases}
use ai_forge_memory.Prelude.Lists.{length, All, All-weaken}
use ai_forge_memory.Prelude.Sort.{In}

-- `before x y` says that the key of `x` comes before that of `y`.
module _ {A : Type 0} (before : A → A → Bool) where
  abbrev pub place : A → List A → List A
  place x [] = x ∷ []
  place x (y ∷ ys) = let rest = place x ys in if before y x then y ∷ rest else x ∷ y ∷ ys

  unfoldable pub sorted_by : List A → List A
  sorted_by [] = []
  sorted_by (x ∷ xs) = place x (sorted_by xs)

  -- Nothing in the list comes before `x`.
  abbrev pub IsFirst : A → List A → Type 0
  IsFirst x ys = All (λ y. before y x ≡ false) ys

  abbrev pub IsOrdered : List A → Type 0
  IsOrdered [] = Unit
  IsOrdered (x ∷ xs) = IsFirst x xs × IsOrdered xs

  pub All-place : (P : A → Type 0) (x : A) (ys : List A) → P x → All P ys → All P (place x ys)
  All-place P x [] p h = (p, tt)
  All-place P x (y ∷ ys) p (q, h) = elim (Bool-cases (before y x)) [
    | inl t ↦ rw t (q, All-place P x ys p h)
    | inr f ↦ rw f (p, (q, h))
  ]

  pub All-of_place : (P : A → Type 0) (x : A) (ys : List A) → All P (place x ys) → P x × All P ys
  All-of_place P x [] h = h
  All-of_place P x (y ∷ ys) h = elim (Bool-cases (before y x)) [
    | inl t ↦ let (q, k) = (rw t at h) in let (p, l) = All-of_place P x ys k in (p, (q, l))
    | inr f ↦ rw f at h
  ]

  pub In-place : (z x : A) (ys : List A) → In z (place x ys) ↔ ((z ≡ x) ⊎ In z ys)
  In-place z x [] = (λ m. m, λ m. m)
  In-place z x (y ∷ ys) = elim (Bool-cases (before y x)) [
    | inl t ↦
        let ih : In z (place x ys) ↔ ((z ≡ x) ⊎ In z ys) = In-place z x ys in
        rw t (
          elim [
            | inl e ↦ inr (inl e)
            | inr m ↦ elim (ih.0 m) [ inl e ↦ inl e | inr n ↦ inr (inr n) ]
          ],
          elim [
            | inl e ↦ inr (ih.1 (inl e))
            | inr m ↦ elim m [ inl e ↦ inl e | inr n ↦ inr (ih.1 (inr n)) ]
          ],
        )
    | inr f ↦ rw f (λ m. m, λ m. m)
  ]

  pub In-sorted_by : (z : A) (xs : List A) → In z (sorted_by xs) ↔ In z xs
  unfolding sorted_by
  In-sorted_by z [] = (λ m. m, λ m. m)
  In-sorted_by z (x ∷ xs) =
      let ih : In z (sorted_by xs) ↔ In z xs = In-sorted_by z xs in
      let p : In z (place x (sorted_by xs)) ↔ ((z ≡ x) ⊎ In z (sorted_by xs)) =
        In-place z x (sorted_by xs) in
      (
        λ m. elim (p.0 m) [ inl e ↦ inl e | inr n ↦ inr (ih.0 n) ],
        elim [ inl e ↦ p.1 (inl e) | inr n ↦ p.1 (inr (ih.1 n)) ],
      )

  length-place : (x : A) (ys : List A) → length (place x ys) ≡ suc (length ys)
  length-place x [] = refl
  length-place x (y ∷ ys) = elim (Bool-cases (before y x)) [
    | inl t ↦ rw t (omega (arith, length-place x ys))
    | inr f ↦ rw f refl
  ]

  pub length-sorted_by : (xs : List A) → length (sorted_by xs) ≡ length xs
  unfolding sorted_by
  length-sorted_by [] = refl
  length-sorted_by (x ∷ xs) = omega (arith, length-place x (sorted_by xs), length-sorted_by xs)

  -- For an order that is asymmetric and whose negation is transitive, the sort is ordered.
  module _ (trans : (x y z : A) → before y x ≡ false → before z y ≡ false → before z x ≡ false)
      (asym : (x y : A) → before y x ≡ true → before x y ≡ false) where
    pub place-IsOrdered : (x : A) (ys : List A) → IsOrdered ys → IsOrdered (place x ys)
    place-IsOrdered x [] h = (tt, tt)
    place-IsOrdered x (y ∷ ys) (first, h) = elim (Bool-cases (before y x)) [
      | inl t ↦
          rw t (All-place (λ z. before z y ≡ false) x ys (asym x y t) first, place-IsOrdered x ys h)
      | inr f ↦ rw f (
        (
          f,
          All-weaken (λ z. before z y ≡ false) (λ z. before z x ≡ false) ys (λ z. trans x y z f)
              first,
        ),
        (first, h),
      )
    ]

    pub sorted_by-IsOrdered : (xs : List A) → IsOrdered (sorted_by xs)
    unfolding sorted_by
    sorted_by-IsOrdered [] = tt
    sorted_by-IsOrdered (x ∷ xs) = place-IsOrdered x (sorted_by xs) (sorted_by-IsOrdered xs)
