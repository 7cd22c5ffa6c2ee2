-- ===== src/Query/Translate/Rank/Fused.antt =====
-- query/translator.py: what `_rrf_fuse` and `_rerank` list.
use ai_forge_memory.Prelude.{
  ℕ, String, List, [], ◌∷◌, ◌≡◌, refl, sym, ◌↔◌, ◌⊎◌, inl, inr, Bool-cases, eqb, eqb_iff, ap, arith,
  length,
}
use ai_forge_memory.Prelude.Dict.{Dict, keys}
use ai_forge_memory.Prelude.Sort.{In}
use ai_forge_memory.Query.{Reply, Reply-cases}
use ai_forge_memory.Query.Translate.Rank.{
  Floats, add_lists, add_bonuses, insert_scored, sort_scored, docs_of, rrf_fuse, payload_of,
  zip_scores, rerank,
}
use ai_forge_memory.Query.Translate.Rank.Summed.{
  IsDistinct, InSome, keys_same, add_lists_iff, add_lists-IsDistinct, add_bonuses_iff,
  add_bonuses-IsDistinct,
}

module _ (fl : Floats) where
  insert_scored_iff :
      (z : String) (x : String × String) (ys : List (String × String))
      → In z (docs_of (insert_scored fl x ys)) ↔ ((z ≡ x.0) ⊎ In z (docs_of ys))
  unfolding insert_scored
  insert_scored_iff z x [] = (λ m. m, λ m. m)
  insert_scored_iff z x (y ∷ ys) =
      let (to, from) = insert_scored_iff z x ys in
      elim (Bool-cases (fl.greater y.1 x.1)) [
        | inl t ↦ rw t (
          elim [
            | inl p ↦ inr (inl p)
            | inr m ↦ elim (to m) [ inl p ↦ inl p | inr q ↦ inr (inr q) ]
          ],
          elim [
            | inl p ↦ inr (from (inl p))
            | inr m ↦ elim m [ inl p ↦ inl p | inr q ↦ inr (from (inr q)) ]
          ],
        )
        | inr f ↦ rw f ((λ m. m), (λ m. m))
      ]

  insert_scored-IsDistinct :
      (x : String × String) (ys : List (String × String))
      → ¬ In x.0 (docs_of ys)
      → IsDistinct (docs_of ys)
      → IsDistinct (docs_of (insert_scored fl x ys))
  unfolding insert_scored
  insert_scored-IsDistinct x [] new h = (new, h)
  insert_scored-IsDistinct x (y ∷ ys) new (fresh, h) = elim (Bool-cases (fl.greater y.1 x.1)) [
    | inl t ↦ rw t (
      (λ m. elim ((insert_scored_iff y.0 x ys).0 m) [
        | inl p ↦ new (inl (sym p))
        | inr q ↦ fresh q
      ]),
      insert_scored-IsDistinct x ys (λ m. new (inr m)) h,
    )
    | inr f ↦ rw f (new, (fresh, h))
  ]

  sort_scored_iff :
      (z : String) (xs : List (String × String))
      → In z (docs_of (sort_scored fl xs)) ↔ In z (docs_of xs)
  unfolding sort_scored
  sort_scored_iff z [] = (λ m. m, λ m. m)
  sort_scored_iff z (x ∷ xs) =
      let (to, from) = insert_scored_iff z x (sort_scored fl xs) in
      let (to', from') = sort_scored_iff z xs in
      (
        λ m. elim (to m) [ inl p ↦ inl p | inr q ↦ inr (to' q) ],
        elim [ inl p ↦ from (inl p) | inr q ↦ from (inr (from' q)) ],
      )

  sort_scored-IsDistinct :
      (xs : List (String × String))
      → IsDistinct (docs_of xs)
      → IsDistinct (docs_of (sort_scored fl xs))
  unfolding sort_scored
  sort_scored-IsDistinct [] h = h
  sort_scored-IsDistinct (x ∷ xs) (new, h) =
      insert_scored-IsDistinct x (sort_scored fl xs) (λ m. new ((sort_scored_iff x.0 xs).0 m))
        (sort_scored-IsDistinct xs h)

  -- `_rrf_fuse` lists each document that stands in one of the ranked lists, and no other, once; the
  -- bonuses of the paths add none.
  pub rrf_fuse-IsDistinct :
      (lists : List (List String)) (prior : Dict String) (k : ℕ)
      → IsDistinct (rrf_fuse fl lists prior k)
        × ((x : String) → In x (rrf_fuse fl lists prior k) ↔ InSome x lists)
  unfolding rrf_fuse
  rrf_fuse-IsDistinct lists prior k =
      let d = add_lists fl k lists [] in
      let all = add_bonuses fl prior d in
      (
        sort_scored-IsDistinct all (
            rw (keys_same all)
              (add_bonuses-IsDistinct fl prior d (add_lists-IsDistinct fl k lists [] tt))),
        (λ x.
            members x all (keys_same all) (add_bonuses_iff fl x prior d)
              (add_lists_iff fl x k lists []) (sort_scored_iff x all)),
      )
    where
      members :
          (x : String) (all : Dict String)
          → docs_of all ≡ keys all
          → In x (keys all) ↔ In x (keys (add_lists fl k lists []))
          → In x (keys (add_lists fl k lists [])) ↔ (InSome x lists ⊎ ⊥)
          → In x (docs_of (sort_scored fl all)) ↔ In x (docs_of all)
          → In x (docs_of (sort_scored fl all)) ↔ InSome x lists
      members x all e (t1, f1) (t2, f2) (t3, f3) = (
        (λ m. elim (t2 (t1 (rw e at t3 m))) [ inl i ↦ i | inr n ↦ absurd n ]),
        (λ i. f3 (rw e (f1 (f2 (inl i))))),
      )

zip_scores_docs :
    (docs scores : List String)
    → length scores ≡ length docs
    → docs_of (zip_scores docs scores) ≡ docs
zip_scores_docs [] scores h = refl
zip_scores_docs (d ∷ docs) [] h = absurd (omega (arith, h))
zip_scores_docs (d ∷ docs) (s ∷ scores) h =
    ap (λ r. d ∷ r) (zip_scores_docs docs scores (omega (arith, h)))

-- `_rerank` lists the documents that it was given, whatever the service answers.
pub In-rerank_iff :
    (fl : Floats) (service : String → List String → Reply (List String)) (query : String)
    (docs doc_texts : List String) (x : String)
    → In x (rerank fl service query docs doc_texts) ↔ In x docs
unfolding rerank
In-rerank_iff fl service query [] doc_texts x = (λ m. m, λ m. m)
In-rerank_iff fl service query (d ∷ docs) doc_texts x =
    elim (Reply-cases (service query (payload_of (d ∷ docs) doc_texts))) [
      | inr (exc, e) ↦ rw (e, rerank) ((λ m. m), (λ m. m))
      | inl (scores, e) ↦ elim (Bool-cases (eqb (length scores) (length (d ∷ docs)))) [
        | inr f ↦ rw (e, rerank, f) ((λ m. m), (λ m. m))
        | inl t ↦
            let same =
              zip_scores_docs (d ∷ docs) scores
                ((eqb_iff (length scores) (length (d ∷ docs))).0 t) in
            let (to, from) = sort_scored_iff fl x (zip_scores (d ∷ docs) scores) in
            rw (e, rerank, t) ((λ m. rw same at (to m)), (λ m. from (rw same m)))
      ]
    ]
