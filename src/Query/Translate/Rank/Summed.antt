-- ===== src/Query/Translate/Rank/Summed.antt =====
-- query/translator.py: which documents have a score in `_rrf_fuse`.
use ai_forge_memory.Prelude.{
  ℕ, suc, ◌+◌, String, List, [], ◌∷◌, ◌≡◌, refl, ◌↔◌, ◌⊎◌, inl, inr, Bool-cases, text_cases, eq_iff,
}
use ai_forge_memory.Prelude.Dict.{Dict, insert, has, keys, In-keys_iff}
use ai_forge_memory.Prelude.Sort.{In}
use ai_forge_memory.Query.Translate.Rank.{
  Floats, get_score, add_ranks, add_lists, add_bonuses, docs_of,
}

-- No text stands twice in the list.
abbrev pub IsDistinct : List String → Type 0
IsDistinct [] = Unit
IsDistinct (x ∷ xs) = ¬ In x xs × IsDistinct xs

-- The document stands in one of the lists.
abbrev pub InSome : String → List (List String) → Type 0
InSome x [] = ⊥
InSome x (docs ∷ lists) = In x docs ⊎ InSome x lists

pub In-insert_iff :
    (x k v : String) (d : Dict String) → In x (keys (insert k v d)) ↔ ((x ≡ k) ⊎ In x (keys d))
In-insert_iff x k v [] = (λ m. m, λ m. m)
In-insert_iff x k v ((j, w) ∷ d) =
    let (to, from) = In-insert_iff x k v d in
    elim (text_cases j k) [
      | inl e ↦ rw ((eq_iff j k).1 e) (
        elim [ inl p ↦ inl p | inr m ↦ inr (inr m) ],
        elim [ inl p ↦ inl p | inr m ↦ elim m [ inl p ↦ inl (rw p e) | inr n ↦ inr n ] ],
      )
      | inr n ↦ rw n.0 (
        elim [ inl p ↦ inr (inl p) | inr m ↦ elim (to m) [ inl p ↦ inl p | inr q ↦ inr (inr q) ] ],
        elim [
          | inl p ↦ inr (from (inl p))
          | inr m ↦ elim m [ inl p ↦ inl p | inr q ↦ inr (from (inr q)) ]
        ],
      )
    ]

pub insert-IsDistinct :
    (k v : String) (d : Dict String) → IsDistinct (keys d) → IsDistinct (keys (insert k v d))
insert-IsDistinct k v [] h = ((λ m. m), tt)
insert-IsDistinct k v ((j, w) ∷ d) (new, h) = elim (text_cases j k) [
  | inl e ↦ rw ((eq_iff j k).1 e) ((λ m. new (rw e m)), h)
  | inr n ↦ rw n.0 (
    (λ m. elim ((In-insert_iff j k v d).0 m) [ inl p ↦ absurd (n.1 p) | inr q ↦ absurd (new q) ]),
    insert-IsDistinct k v d h,
  )
]

pub keys_same : (d : Dict String) → docs_of d ≡ keys d
keys_same [] = refl
keys_same ((k, v) ∷ d) = rw (keys_same d) refl

module _ (fl : Floats) where
  pub add_ranks_iff :
      (x : String) (k rank : ℕ) (docs : List String) (d : Dict String)
      → In x (keys (add_ranks fl k rank docs d)) ↔ (In x docs ⊎ In x (keys d))
  unfolding add_ranks
  add_ranks_iff x k rank [] d = (λ m. inr m, elim [ inl m ↦ absurd m | inr m ↦ m ])
  add_ranks_iff x k rank (doc ∷ docs) d =
      let score = fl.add (get_score d doc) (fl.inverse (k + rank + 1)) in
      let (to, from) = add_ranks_iff x k (suc rank) docs (insert doc score d) in
      let (to', from') = In-insert_iff x doc score d in
      (
        λ m. elim (to m) [
          | inl i ↦ inl (inr i)
          | inr i ↦ elim (to' i) [ inl p ↦ inl (inl p) | inr q ↦ inr q ]
        ],
        elim [
          | inl i ↦ elim i [ inl p ↦ from (inr (from' (inl p))) | inr q ↦ from (inl q) ]
          | inr i ↦ from (inr (from' (inr i)))
        ],
      )

  pub add_ranks-IsDistinct :
      (k rank : ℕ) (docs : List String) (d : Dict String)
      → IsDistinct (keys d)
      → IsDistinct (keys (add_ranks fl k rank docs d))
  unfolding add_ranks
  add_ranks-IsDistinct k rank [] d h = h
  add_ranks-IsDistinct k rank (doc ∷ docs) d h =
      add_ranks-IsDistinct k (suc rank) docs _ (insert-IsDistinct doc _ d h)

  pub add_lists_iff :
      (x : String) (k : ℕ) (lists : List (List String)) (d : Dict String)
      → In x (keys (add_lists fl k lists d)) ↔ (InSome x lists ⊎ In x (keys d))
  unfolding add_lists
  add_lists_iff x k [] d = (λ m. inr m, elim [ inl m ↦ absurd m | inr m ↦ m ])
  add_lists_iff x k (docs ∷ lists) d =
      let (to, from) = add_lists_iff x k lists (add_ranks fl k 0 docs d) in
      let (to', from') = add_ranks_iff x k 0 docs d in
      (
        λ m. elim (to m) [
          | inl i ↦ inl (inr i)
          | inr i ↦ elim (to' i) [ inl p ↦ inl (inl p) | inr q ↦ inr q ]
        ],
        elim [
          | inl i ↦ elim i [ inl p ↦ from (inr (from' (inl p))) | inr q ↦ from (inl q) ]
          | inr i ↦ from (inr (from' (inr i)))
        ],
      )

  pub add_lists-IsDistinct :
      (k : ℕ) (lists : List (List String)) (d : Dict String)
      → IsDistinct (keys d)
      → IsDistinct (keys (add_lists fl k lists d))
  unfolding add_lists
  add_lists-IsDistinct k [] d h = h
  add_lists-IsDistinct k (docs ∷ lists) d h =
      add_lists-IsDistinct k lists _ (add_ranks-IsDistinct k 0 docs d h)

  pub add_bonuses_iff :
      (x : String) (prior d : Dict String) → In x (keys (add_bonuses fl prior d)) ↔ In x (keys d)
  unfolding add_bonuses
  add_bonuses_iff x [] d = (λ m. m, λ m. m)
  add_bonuses_iff x ((doc, bonus) ∷ prior) d = elim (Bool-cases (has doc d)) [
    | inl t ↦
        let score = fl.add (get_score d doc) bonus in
        let (to, from) = add_bonuses_iff x prior (insert doc score d) in
        let (to', from') = In-insert_iff x doc score d in
        rw t (
          (λ m. elim (to' (to m)) [ inl p ↦ rw p ((In-keys_iff doc d).1 t) | inr q ↦ q ]),
          (λ m. from (from' (inr m))),
        )
    | inr f ↦ rw f (add_bonuses_iff x prior d)
  ]

  pub add_bonuses-IsDistinct :
      (prior d : Dict String) → IsDistinct (keys d) → IsDistinct (keys (add_bonuses fl prior d))
  unfolding add_bonuses
  add_bonuses-IsDistinct [] d h = h
  add_bonuses-IsDistinct ((doc, bonus) ∷ prior) d h = elim (Bool-cases (has doc d)) [
    | inl t ↦ rw t (add_bonuses-IsDistinct prior _ (insert-IsDistinct doc _ d h))
    | inr f ↦ rw f (add_bonuses-IsDistinct prior d h)
  ]
