-- ===== src/Prelude/Dict.antt =====
-- Python dicts with text keys, in insertion order: a write to a known key keeps its place.
use Prim.Native.String.{String}
use mathlib.Core.Path.{◌≡◌, refl, sym, ap, ◌∙◌}
use mathlib.Core.Bool.{Bool, true}
use mathlib.Core.Logic.{◌↔◌, ◌⊎◌, inl, inr}
use mathlib.Core.List.{List, [], ◌∷◌}
use mathlib.Core.Option.{Option, none, some, some-injective}
use native.Mathlib.Omega.{arith}
use text.Mathlib.Text.{◌==◌}
use text.Mathlib.TextEquality.{eq_iff}
use ai_forge_memory.Prelude.Tests.{if◌then◌else◌, is_some, text_cases}
use ai_forge_memory.Prelude.Sort.{In}

abbrev pub Dict {ℓ} : Type ℓ → Type ℓ
Dict V = List (String × V)

module _ {ℓ} {V : Type ℓ} where
  -- `d.get(k)`
  abbrev pub lookup : String → Dict V → Option V
  lookup k [] = none
  lookup k ((j, v) ∷ d) = if j == k then some v else lookup k d

  -- `k in d`
  abbrev pub has : String → Dict V → Bool
  has k d = is_some (lookup k d)

  -- `d[k] = v`
  abbrev pub insert : String → V → Dict V → Dict V
  insert k v [] = (k, v) ∷ []
  insert k v ((j, w) ∷ d) = if j == k then (k, v) ∷ d else (j, w) ∷ insert k v d

  abbrev pub keys : Dict V → List String
  keys [] = []
  keys ((j, v) ∷ d) = j ∷ keys d

  abbrev pub insert_all : Dict V → Dict V → Dict V
  insert_all [] d = d
  insert_all ((k, v) ∷ rows) d = insert_all rows (insert k v d)

  pub lookup-insert :
      (k j : String) (v : V) (d : Dict V)
      → lookup j (insert k v d) ≡ (if k == j then some v else lookup j d)
  lookup-insert k j v [] = refl
  lookup-insert k j v ((i, w) ∷ d) =
      ground (arith, eq_iff k j, eq_iff i k, eq_iff i j, lookup-insert k j v d)

-- A value found after a write is the written one, or was there before.
pub insert-cases {ℓ} :
    {V : Type ℓ} (k j : String) (v x : V) (d : Dict V)
    → lookup j (insert k v d) ≡ some x
    → ((k ≡ j) × (v ≡ x)) ⊎ (lookup j d ≡ some x)
insert-cases {V = V} k j v x d h = elim (text_cases k j) [
  | inl e ↦
      let t : (k == j) ≡ true = (eq_iff k j).1 e in
      inl (
        e,
        some-injective _ _ (
            sym (lookup-insert k j v d ∙ ap (λ (b : Bool). if b then some v else lookup j d) t)
            ∙ h),
      )
  | inr f ↦
      inr
        (sym (lookup-insert k j v d ∙ ap (λ (b : Bool). if b then some v else lookup j d) f.0) ∙ h)
]

pub In-keys_iff {ℓ} : {V : Type ℓ} (k : String) (d : Dict V) → In k (keys d) ↔ (has k d ≡ true)
In-keys_iff k [] = (λ m. absurd m, λ e. cc)
In-keys_iff k ((j, v) ∷ d) = elim (text_cases j k) [
  | inl e ↦ rw ((eq_iff j k).1 e) (λ m. refl, λ h. inl (sym e))
  | inr e ↦ rw e.0 (
    elim [ inl p ↦ absurd (e.1 (sym p)) | inr m ↦ (In-keys_iff k d).0 m ],
    λ h. inr ((In-keys_iff k d).1 h),
  )
]
