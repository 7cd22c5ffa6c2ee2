-- ===== src/Link/Edges.antt =====
-- features/link/extract.py: which edges `compute_edges` gives.
use ai_forge_memory.Prelude.{
  ℕ, String, false, List, [], ◌∷◌, ◌++◌, ◌==◌, ◌≡◌, ◌≢◌, refl, ◌↔◌, ◌⊎◌, inl, inr, if◌then◌else◌,
  length, Bool-cases, text_cases, eq_iff, subst,
}
use ai_forge_memory.Prelude.Members.{In-append}
use ai_forge_memory.Prelude.Sort.{In, text_le}
use ai_forge_memory.Link.{
  RepoEvidence, CrossRepoEdge, Via, http, nats, shared_collection, common, size_of_union, edge,
  edge_if, served, shared, served_by, shared_by, edges_from, compute_edges,
}

In-append_left : {A : Type 0} (x : A) (xs ys : List A) → In x xs → In x (xs ++ ys)
In-append_left x [] ys m = absurd m
In-append_left x (z ∷ xs) ys m = elim m [ inl p ↦ inl p | inr q ↦ inr (In-append_left x xs ys q) ]

In-append_right : {A : Type 0} (x : A) (xs ys : List A) → In x ys → In x (xs ++ ys)
In-append_right x [] ys m = m
In-append_right x (z ∷ xs) ys m = inr (In-append_right x xs ys m)

-- The edge is the one that something in common gives.
abbrev pub IsEdge : RepoEvidence → RepoEvidence → Via → List String → ℕ → CrossRepoEdge → Type 0
IsEdge a b via overlap universe e = (overlap ≢ []) × (e ≡ edge a b via overlap universe)

-- `b` calls what another repository `a` serves, or listens to what it publishes; or the two share a
-- collection, and the name of `a` comes first.
abbrev pub Links : RepoEvidence → RepoEvidence → CrossRepoEdge → Type 0
Links a b e =
    ((a.repo ≢ b.repo)
      × (IsEdge a b http (common a.http_emits b.http_consumes) (length a.http_emits) e
          ⊎ IsEdge a b nats (common a.nats_emits b.nats_consumes) (length a.nats_emits) e))
    ⊎ ((text_le b.repo a.repo ≡ false)
        × IsEdge a b shared_collection (common a.collections b.collections)
            (size_of_union a.collections b.collections) e)

edge_if_iff :
    (a b : RepoEvidence) (via : Via) (xs : List String) (n : ℕ) (e : CrossRepoEdge)
    → In e (edge_if a b via xs n) ↔ IsEdge a b via xs n e
edge_if_iff a b via [] n e = (λ m. absurd m, λ (h, p). absurd (h refl))
edge_if_iff a b via (x ∷ xs) n e =
    (elim [ inl p ↦ ((λ q. cc), p) | inr m ↦ absurd m ], λ (h, p). inl p)

served_iff :
    (a b : RepoEvidence) (e : CrossRepoEdge)
    → In e (if a.repo == b.repo then [] else served a b) ↔ (
        (a.repo ≢ b.repo)
        × (IsEdge a b http (common a.http_emits b.http_consumes) (length a.http_emits) e
            ⊎ IsEdge a b nats (common a.nats_emits b.nats_consumes) (length a.nats_emits) e))
served_iff a b e = elim (text_cases a.repo b.repo) [
  | inl p ↦ rw ((eq_iff a.repo b.repo).1 p) ((λ m. absurd m), λ (h, q). absurd (h p))
  | inr n ↦
      let web = common a.http_emits b.http_consumes in
      let (to, from) = edge_if_iff a b http web (length a.http_emits) e in
      let (to', from') =
        edge_if_iff a b nats (common a.nats_emits b.nats_consumes) (length a.nats_emits) e in
      rw n.0 (
        (λ m. (
          n.1,
          elim (In-append e (edge_if a b http web (length a.http_emits)) _ m) [
            | inl i ↦ inl (to i)
            | inr j ↦ inr (to' j)
          ],
        )),
        (λ (h, q). elim q [
          | inl i ↦ In-append_left e _ _ (from i)
          | inr j ↦ In-append_right e _ _ (from' j)
        ]),
      )
]

shared_iff :
    (a b : RepoEvidence) (e : CrossRepoEdge)
    → In e (if text_le b.repo a.repo then [] else shared a b) ↔ (
        (text_le b.repo a.repo ≡ false)
        × IsEdge a b shared_collection
            (common a.collections b.collections)
            (size_of_union a.collections b.collections)
            e)
shared_iff a b e = elim (Bool-cases (text_le b.repo a.repo)) [
  | inl t ↦ rw t (λ m. absurd m, λ (h, p). cc)
  | inr f ↦
      let (to, from) =
        edge_if_iff a b shared_collection (common a.collections b.collections)
          (size_of_union a.collections b.collections) e in
      rw f ((λ m. (refl, to m)), λ (h, p). from p)
]

served_by_iff :
    (a : RepoEvidence) (bs : List RepoEvidence) (e : CrossRepoEdge)
    → In e (served_by a bs)
      ↔ ((b : RepoEvidence) × In b bs × In e (if a.repo == b.repo then [] else served a b))
unfolding served_by
served_by_iff a [] e = ((λ m. absurd m), λ (b, m, h). absurd m)
served_by_iff a (b ∷ bs) e =
    let (to, from) = served_by_iff a bs e in
    (
      (λ m. elim (In-append e (if a.repo == b.repo then [] else served a b) _ m) [
        | inl i ↦ (b, inl refl, i)
        | inr j ↦ let (c, k, h) = to j in (c, inr k, h)
      ]),
      λ (c, k, h). elim k [
        | inl p ↦
            In-append_left e _ _
              (subst (λ x. In e (if a.repo == x.repo then [] else served a x)) p h)
        | inr q ↦ In-append_right e _ _ (from (c, q, h))
      ],
    )

shared_by_iff :
    (a : RepoEvidence) (bs : List RepoEvidence) (e : CrossRepoEdge)
    → In e (shared_by a bs)
      ↔ ((b : RepoEvidence) × In b bs × In e (if text_le b.repo a.repo then [] else shared a b))
unfolding shared_by
shared_by_iff a [] e = ((λ m. absurd m), λ (b, m, h). absurd m)
shared_by_iff a (b ∷ bs) e =
    let (to, from) = shared_by_iff a bs e in
    (
      (λ m. elim (In-append e (if text_le b.repo a.repo then [] else shared a b) _ m) [
        | inl i ↦ (b, inl refl, i)
        | inr j ↦ let (c, k, h) = to j in (c, inr k, h)
      ]),
      λ (c, k, h). elim k [
        | inl p ↦
            In-append_left e _ _
              (subst (λ x. In e (if text_le x.repo a.repo then [] else shared a x)) p h)
        | inr q ↦ In-append_right e _ _ (from (c, q, h))
      ],
    )

-- The edges of one repository.
Linked : List RepoEvidence → RepoEvidence → CrossRepoEdge → Type 0
Linked all a e = (b : RepoEvidence) × In b all × Links a b e

one_iff :
    (all : List RepoEvidence) (a : RepoEvidence) (e : CrossRepoEdge)
    → (In e (served_by a all) ⊎ In e (shared_by a all)) ↔ Linked all a e
unfolding Linked
one_iff all a e =
    let (to, from) = served_by_iff a all e in
    let (to', from') = shared_by_iff a all e in
    (
      elim [
        | inl i ↦ let (b, m, h) = to i in (b, m, inl ((served_iff a b e).0 h))
        | inr j ↦ let (b, m, h) = to' j in (b, m, inr ((shared_iff a b e).0 h))
      ],
      λ (b, m, l). elim l [
        | inl h ↦ inl (from (b, m, (served_iff a b e).1 h))
        | inr h ↦ inr (from' (b, m, (shared_iff a b e).1 h))
      ],
    )

edges_from_iff :
    (all rest : List RepoEvidence) (e : CrossRepoEdge)
    → In e (edges_from all rest) ↔ ((a : RepoEvidence) × In a rest × Linked all a e)
unfolding edges_from
edges_from_iff all [] e = ((λ m. absurd m), λ (a, m, h). absurd m)
edges_from_iff all (a ∷ rest) e =
    let (to, from) = edges_from_iff all rest e in
    let (one, back) = one_iff all a e in
    (
      (λ m. elim (In-append e (served_by a all ++ shared_by a all) _ m) [
        | inl i ↦ (a, inl refl, one (In-append e (served_by a all) _ i))
        | inr j ↦ let (c, k, h) = to j in (c, inr k, h)
      ]),
      λ (c, k, h). elim k [
        | inl p ↦ elim (back (subst (λ x. Linked all x e) p h)) [
          | inl i ↦ In-append_left e _ _ (In-append_left e _ _ i)
          | inr j ↦ In-append_left e _ _ (In-append_right e (served_by a all) _ j)
        ]
        | inr q ↦ In-append_right e (served_by a all ++ shared_by a all) _ (from (c, q, h))
      ],
    )

-- `compute_edges` gives exactly the edges between two of the scanned repositories where one calls
-- what the other, of another name, serves, or listens to what it publishes, or where the two share a
-- collection; the edge of a shared collection leads only from the smaller name to the greater.
pub compute_edges_iff :
    (evidences : List RepoEvidence) (e : CrossRepoEdge)
    → In e (compute_edges evidences)
      ↔ ((a : RepoEvidence) × In a evidences × ((b : RepoEvidence) × In b evidences × Links a b e))
unfolding compute_edges Linked
compute_edges_iff evidences e = edges_from_iff evidences evidences e
