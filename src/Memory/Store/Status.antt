-- ===== src/Memory/Store/Status.antt =====
-- features/memory/store.py: which facts the recall sees after a deletion, a restoration, or the
-- record of a fact that supersedes others.
use ai_forge_memory.Prelude.{
  ℕ, String, Bool, true, false, is_some, List, [], ◌∷◌, ◌==◌, ◌≡◌, ◌≢◌, refl, sym, ◌∙◌, ◌↔◌, ◌⊎◌,
  arith, eq_iff, if◌then◌else◌, keep, not, Bool-cases, inl, inr,
}
use ai_forge_memory.Prelude.Sort.{In}
use ai_forge_memory.Memory.Store.{
  Node, Graph, set_where, is_node, is_node_in, find_id, forget, soft_forget, restore, is_recalled,
  deleted, restored,
}

-- The ids that the recall may answer for a repository, in the graph's order.
abbrev pub recalled : String → List Node → List String
recalled repo [] = []
recalled repo (n ∷ ns) =
    let rest = recalled repo ns in if is_recalled repo n then n.id ∷ rest else rest

pub id_differs :
    (repo id : String) (n : Node)
    → is_recalled repo n ≡ true
    → is_node_in repo "Observation_v2" id n ≡ false
    → (n.id == id) ≡ false
unfolding is_recalled is_node_in is_node
id_differs repo id n r f = ground arith

id_agrees :
    (repo id : String) (n : Node)
    → is_node_in repo "Observation_v2" id n ≡ true
    → (n.id == id) ≡ true
unfolding is_node_in is_node
id_agrees repo id n t = ground arith

-- A change that hides the nodes it is applied to takes exactly the node's id from the recall.
pub In-recalled_hidden :
    (repo id x : String) (f : Node → Node)
    → ((n : Node) → is_recalled repo (f n) ≡ false)
    → (ns : List Node)
    → In x (recalled repo (set_where (is_node_in repo "Observation_v2" id) f ns))
      ↔ (In x (recalled repo ns) × (x ≢ id))
In-recalled_hidden repo id x f hides [] = (λ h. absurd h, λ h. h.0)
In-recalled_hidden repo id x f hides (n ∷ ns) =
    let ih : In x (recalled repo (set_where (is_node_in repo "Observation_v2" id) f ns))
        ↔ (In x (recalled repo ns) × (x ≢ id)) =
      In-recalled_hidden repo id x f hides ns in
    elim (Bool-cases (is_node_in repo "Observation_v2" id n)) [
      | inl t ↦
          let same : n.id ≡ id = (eq_iff n.id id).0 (id_agrees repo id n t) in
          elim (Bool-cases (is_recalled repo n)) [
            | inl r ↦
                rw (t, hides n, r)
                  (
                    λ m. (inr (ih.0 m).0, (ih.0 m).1),
                    λ h. elim h.0 [ inl e ↦ absurd (h.1 (e ∙ same)) | inr m ↦ ih.1 (m, h.1) ],
                  )
            | inr q ↦ rw (t, hides n, q) ih
          ]
      | inr f' ↦ elim (Bool-cases (is_recalled repo n)) [
        | inl r ↦
            let differs : (n.id == id) ≡ false = id_differs repo id n r f' in
            rw (f', r)
              (
                elim [
                  | inl e ↦ (inl e, λ e'. cc ((eq_iff n.id id).1 (sym e ∙ e')))
                  | inr m ↦ (inr (ih.0 m).0, (ih.0 m).1)
                ],
                λ h. elim h.0 [ inl e ↦ inl e | inr m ↦ inr (ih.1 (m, h.1)) ],
              )
        | inr q ↦ rw (f', q) ih
      ]
    ]

deleted-hidden : (now : ℕ) (repo : String) (n : Node) → is_recalled repo (deleted now n) ≡ false
unfolding is_recalled
deleted-hidden now repo n = ground arith

-- After the soft deletion of an observation, the facts of its repository that pass the status filter
-- of the recall, from which the ranking and the limit choose, are exactly those that passed it before
-- and have another id.
pub soft_forget-recalled :
    (now : ℕ) (repo id x : String) (g : Graph)
    → In x (recalled repo (soft_forget now repo id "Observation_v2" g).1.nodes)
      ↔ (In x (recalled repo g.nodes) × (x ≢ id))
unfolding soft_forget
soft_forget-recalled now repo id x g =
    In-recalled_hidden repo id x (deleted now) (deleted-hidden now repo) g.nodes

restored-shown :
    (now : ℕ) (repo id : String) (n : Node)
    → is_node_in repo "Observation_v2" id n ≡ true
    → is_recalled repo (restored now n) ≡ true
unfolding is_recalled is_node_in is_node
restored-shown now repo id n t = ground arith

In-if_cons :
    (b : Bool) (x y : String) (ys : List String) → In x ys → In x (if b then y ∷ ys else ys)
In-if_cons true x y ys m = inr m
In-if_cons false x y ys m = m

-- The id stands in the repository, on an observation.
abbrev pub has_observation : String → String → List Node → Bool
has_observation repo id ns = is_some (find_id (is_node_in repo "Observation_v2" id) ns)

In-recalled-restored :
    (now : ℕ) (repo id x : String) (ns : List Node)
    → In x (recalled repo (set_where (is_node_in repo "Observation_v2" id) (restored now) ns))
      ↔ (In x (recalled repo ns) ⊎ ((x ≡ id) × (has_observation repo id ns ≡ true)))
In-recalled-restored now repo id x [] = (λ h. absurd h, elim [ inl m ↦ m | inr k ↦ cc (k.1) ])
In-recalled-restored now repo id x (n ∷ ns) =
    let ih : In x
          (recalled repo (set_where (is_node_in repo "Observation_v2" id) (restored now) ns))
        ↔ (In x (recalled repo ns) ⊎ ((x ≡ id) × (has_observation repo id ns ≡ true))) =
      In-recalled-restored now repo id x ns in
    elim (Bool-cases (is_node_in repo "Observation_v2" id n)) [
      | inl t ↦
          let same : n.id ≡ id = (eq_iff n.id id).0 (id_agrees repo id n t) in
          rw (t, restored-shown now repo id n t)
            (
              elim [
                | inl e ↦ inr (e ∙ same, refl)
                | inr m ↦ elim (ih.0 m) [
                  | inl k ↦ inl (In-if_cons (is_recalled repo n) x n.id (recalled repo ns) k)
                  | inr k ↦ inr (k.0, refl)
                ]
              ],
              elim [
                | inl k ↦ elim (Bool-cases (is_recalled repo n)) [
                  | inl r ↦ elim (rw r at k) [ inl e ↦ inl e | inr m ↦ inr (ih.1 (inl m)) ]
                  | inr q ↦ inr (ih.1 (inl (rw q at k)))
                ]
                | inr k ↦ inl (k.0 ∙ sym same)
              ],
            )
      | inr f ↦ elim (Bool-cases (is_recalled repo n)) [
        | inl r ↦
            rw (f, r)
              (
                elim [
                  | inl e ↦ inl (inl e)
                  | inr m ↦ elim (ih.0 m) [ inl k ↦ inl (inr k) | inr k ↦ inr k ]
                ],
                elim [
                  | inl k ↦ elim k [ inl e ↦ inl e | inr m ↦ inr (ih.1 (inl m)) ]
                  | inr k ↦ inr (ih.1 (inr k))
                ],
              )
        | inr q ↦ rw (f, q) ih
      ]
    ]

-- After the restoration of an observation, the recall of its repository sees exactly the facts that
-- it saw before and the restored one, if the repository has it.
restore-recalled :
    (now : ℕ) (repo id x : String) (g : Graph)
    → In x (recalled repo (restore now repo id "Observation_v2" g).1.nodes)
      ↔ (In x (recalled repo g.nodes) ⊎ ((x ≡ id) × (has_observation repo id g.nodes ≡ true)))
unfolding restore
restore-recalled now repo id x g = In-recalled-restored now repo id x g.nodes

keep-recalled :
    (now : ℕ) (repo id : String) (ns : List Node)
    → recalled repo (keep (λ n. not (is_node_in repo "Observation_v2" id n)) ns)
      ≡ recalled repo (set_where (is_node_in repo "Observation_v2" id) (deleted now) ns)
keep-recalled now repo id [] = refl
keep-recalled now repo id (n ∷ ns) = elim (Bool-cases (is_node_in repo "Observation_v2" id n)) [
  | inl t ↦ rw (t, deleted-hidden now repo n) (keep-recalled now repo id ns)
  | inr f ↦ rw (f, keep-recalled now repo id ns) refl
]

set_where_unmatched :
    (q : Node → Bool) (f : Node → Node) (ns : List Node)
    → is_some (find_id q ns) ≡ false
    → set_where q f ns ≡ ns
set_where_unmatched q f [] h = refl
set_where_unmatched q f (n ∷ ns) h = elim (Bool-cases (q n)) [
  | inl t ↦ cc (rw t at h)
  | inr u ↦ rw (u, set_where_unmatched q f ns (rw u at h)) refl
]

-- The recall cannot tell a hard deletion of an observation from a soft one, whenever that is made.
forget-soft_forget :
    (now : ℕ) (repo id : String) (g : Graph)
    → recalled repo (forget repo id "Observation_v2" g).1.nodes
      ≡ recalled repo (soft_forget now repo id "Observation_v2" g).1.nodes
unfolding forget soft_forget
forget-soft_forget now repo id g =
    elim (Bool-cases (is_some (find_id (is_node_in repo "Observation_v2" id) g.nodes))) [
      | inl t ↦ rw t (keep-recalled now repo id g.nodes)
      | inr f ↦
          rw (f, set_where_unmatched (is_node_in repo "Observation_v2" id) (deleted now) g.nodes f)
            refl
    ]
