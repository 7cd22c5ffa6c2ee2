-- ===== src/Memory/Digest/Cold.antt =====
-- features/memory/digest.py: the groups of `select_cold` are the cold rows of a topic.
use ai_forge_memory.Prelude.{
  ℕ, ◌≤◌, String, ◌&&◌, Option, none, some, List, [], ◌∷◌, ◌++◌, ◌==◌, ◌≡◌, refl, sym, ap, ◌∙◌, inl,
  inr, length, keep, leb, arith, eq_iff, Bool-cases, if◌then◌else◌,
}
use mathlib.Core.List.{append_assoc}
use ai_forge_memory.Prelude.Dict.{Dict, lookup, insert, lookup-insert}
use ai_forge_memory.Memory.Digest.{
  Row, topic_of, is_cold, or_nil, add_row, group_rows, large, select_cold,
}

-- The cold rows of a topic, in their order.
abbrev pub cold_of : ℕ → ℕ → String → List Row → List Row
cold_of now cold_days t rows = keep (λ r. is_cold now cold_days r && topic_of r == t) rows

abbrev AreDistinct : Dict (List Row) → Type 0
AreDistinct [] = Unit
AreDistinct ((t, rs) ∷ d) = (lookup t d ≡ none) × AreDistinct d

insert-AreDistinct :
    (k : String) (v : List Row) (d : Dict (List Row)) → AreDistinct d → AreDistinct (insert k v d)
insert-AreDistinct k v [] h = (refl, tt)
insert-AreDistinct k v ((j, w) ∷ d) (fresh, h) = elim (Bool-cases (j == k)) [
  | inl t ↦ rw t (ap (λ x. lookup x d) (sym ((eq_iff j k).0 t)) ∙ fresh, h)
  | inr f ↦ rw f (
    ground (arith, lookup-insert k j v d, eq_iff k j, eq_iff j k, fresh),
    insert-AreDistinct k v d h,
  )
]

group_rows-AreDistinct :
    (now cold_days : ℕ) (rows : List Row) (d : Dict (List Row))
    → AreDistinct d
    → AreDistinct (group_rows now cold_days rows d)
unfolding group_rows
group_rows-AreDistinct now cold_days [] d h = h
group_rows-AreDistinct now cold_days (r ∷ rows) d h = elim (Bool-cases (is_cold now cold_days r)) [
  | inl t ↦ rw t (
      group_rows-AreDistinct now cold_days rows (add_row r d)
        (insert-AreDistinct (topic_of r) (or_nil (lookup (topic_of r) d) ++ r ∷ []) d h))
  | inr f ↦ rw f (group_rows-AreDistinct now cold_days rows d h)
]

-- A group, and what is added to it.
abbrev extended : Option (List Row) → List Row → Option (List Row)
extended o [] = o
extended o (r ∷ rs) = some (or_nil o ++ r ∷ rs)

extended-cons :
    (o : Option (List Row)) (r : Row) (rs : List Row)
    → extended (some (or_nil o ++ r ∷ [])) rs ≡ extended o (r ∷ rs)
extended-cons o r [] = refl
extended-cons o r (s ∷ rs) = ap some (append_assoc (or_nil o) (r ∷ []) (s ∷ rs))

lookup-group_rows :
    (now cold_days : ℕ) (t : String) (rows : List Row) (d : Dict (List Row))
    → lookup t (group_rows now cold_days rows d)
      ≡ extended (lookup t d) (cold_of now cold_days t rows)
unfolding group_rows
lookup-group_rows now cold_days t [] d = refl
lookup-group_rows now cold_days t (r ∷ rows) d = elim (Bool-cases (is_cold now cold_days r)) [
  | inr f ↦ rw f (lookup-group_rows now cold_days t rows d)
  | inl c ↦
      let ih = lookup-group_rows now cold_days t rows (add_row r d) in
      let added = lookup-insert (topic_of r) t (or_nil (lookup (topic_of r) d) ++ r ∷ []) d in
      elim (Bool-cases (topic_of r == t)) [
        | inl e ↦
            let same = (eq_iff (topic_of r) t).0 e in
            rw (c, e)
              (ih
                ∙ ap (λ o. extended o (cold_of now cold_days t rows))
                    (added ∙ rw e (ap (λ x. some (or_nil (lookup x d) ++ r ∷ [])) same))
                ∙ extended-cons (lookup t d) r (cold_of now cold_days t rows))
        | inr n ↦
            rw (c, n) (ih ∙ ap (λ o. extended o (cold_of now cold_days t rows)) (added ∙ rw n refl))
      ]
]

abbrev large_only : ℕ → Option (List Row) → Option (List Row)
large_only min_group none = none
large_only min_group (some rs) = if leb min_group (length rs) then some rs else none

lookup-large :
    (min_group : ℕ) (t : String) (d : Dict (List Row))
    → AreDistinct d
    → lookup t (large min_group d) ≡ large_only min_group (lookup t d)
lookup-large min_group t [] h = refl
lookup-large min_group t ((j, rs) ∷ d) (fresh, h) =
    let ih = lookup-large min_group t d h in
    elim (Bool-cases (leb min_group (length rs))) [
      | inl l ↦ elim (Bool-cases (j == t)) [
        | inl e ↦ rw (l, e, large_only, l) refl
        | inr n ↦ rw (l, n) ih
      ]
      | inr s ↦ elim (Bool-cases (j == t)) [
        | inl e ↦
            let none_left = ap (λ x. lookup x d) (sym ((eq_iff j t).0 e)) ∙ fresh in
            rw (s, e) (ih ∙ ap (large_only min_group) none_left ∙ sym (rw s refl))
        | inr n ↦ rw (s, n) ih
      ]
    ]

-- A topic has a group exactly if at least as many rows as asked for, and one at least, are cold and of
-- that topic; the group is those rows, in their order.
pub select_cold_lem :
    (now cold_days min_group : ℕ) (rows : List Row) (t : String)
    → 1 ≤ min_group
    → let cold = cold_of now cold_days t rows in
      lookup t (select_cold now cold_days min_group rows)
      ≡ (if leb min_group (length cold) then some cold else none)
unfolding select_cold
select_cold_lem now cold_days min_group rows t pos =
    lookup-large min_group t (group_rows now cold_days rows [])
      (group_rows-AreDistinct now cold_days rows [] tt)
    ∙ ap (large_only min_group) (lookup-group_rows now cold_days t rows [])
    ∙ enough (cold_of now cold_days t rows)
  where
    enough :
        (cold : List Row)
        → large_only min_group (extended none cold)
          ≡ (if leb min_group (length cold) then some cold else none)
    enough [] = ground arith
    enough (r ∷ rs) = refl
