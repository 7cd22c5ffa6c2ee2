-- ===== src/Memory/Store/Supersede.antt =====
-- features/memory/store.py: a fact that supersedes others takes them out of the recall.
use ai_forge_memory.Prelude.{
  ℕ, String, Bool, true, false, ◌||◌, is_some, List, [], ◌∷◌, ◌++◌, ◌==◌, ◌≡◌, ◌≢◌, refl, ap, sym,
  subst, ◌∙◌, ◌↔◌, arith, eq_iff, if◌then◌else◌, Bool-cases, inl, inr,
}
use ai_forge_memory.Prelude.Sort.{In}
use ai_forge_memory.Prelude.Text.{stripped}
use ai_forge_memory.Memory.Store.{
  Node, Graph, Env, NewObservation, set_where, is_node, is_node_in, find_id, is_recalled,
  superseded, written, created, supersede_one, supersede_all, link_refs, write_observation,
  insert_observation,
}
use ai_forge_memory.Memory.Store.Status.{recalled, In-recalled_hidden, id_differs}

-- The ids that the loop does supersede, of those it is given.
abbrev pub targets : String → List String → List String
targets new [] = []
targets new (o ∷ os) =
    let rest = targets new os in
    if stripped o == "" || stripped o == new then rest else stripped o ∷ rest

superseded-hidden :
    (now : ℕ) (new repo : String) (n : Node) → is_recalled repo (superseded now new n) ≡ false
unfolding is_recalled
superseded-hidden now new repo n = ground arith

-- A fact that the recall sees is a node of its repository.
recalled-found :
    (repo x : String) (ns : List Node)
    → In x (recalled repo ns)
    → is_some (find_id (is_node_in repo "Observation_v2" x) ns) ≡ true
recalled-found repo x [] h = absurd h
recalled-found repo x (n ∷ ns) h = elim (Bool-cases (is_node_in repo "Observation_v2" x n)) [
  | inl t ↦ rw t refl
  | inr f ↦ rw f (elim (Bool-cases (is_recalled repo n)) [
    | inl r ↦ elim (rw r at h) [
      | inl e ↦ cc ((eq_iff n.id x).1 (sym e), id_differs repo x n r f)
      | inr m ↦ recalled-found repo x ns m
    ]
    | inr q ↦ recalled-found repo x ns (rw q at h)
  ])
]

abbrev pub has_node : String → List Node → Bool
has_node id ns = is_some (find_id (is_node "Observation_v2" id) ns)

-- Superseding keeps the nodes' ids.
has_node-superseded :
    (now : ℕ) (new repo old id : String) (ns : List Node)
    → has_node id (set_where (is_node_in repo "Observation_v2" old) (superseded now new) ns)
      ≡ has_node id ns
unfolding is_node is_node_in
has_node-superseded now new repo old id [] = refl
has_node-superseded now new repo old id (n ∷ ns) =
    ground (arith, has_node-superseded now new repo old id ns)

-- One round, for a fact that is in the graph.
supersede_one-recalled :
    (now : ℕ) (repo new old x : String) (g : Graph)
    → has_node new g.nodes ≡ true
    → In x (recalled repo (supersede_one now repo new old g).nodes)
      ↔ (In x (recalled repo g.nodes) × (x ≢ old))
unfolding supersede_one
supersede_one-recalled now repo new old x g h =
    elim (Bool-cases (is_some (find_id (is_node_in repo "Observation_v2" old) g.nodes))) [
      | inl t ↦
          rw (h, t)
            (In-recalled_hidden repo old x (superseded now new) (superseded-hidden now new repo)
              g.nodes)
      | inr f ↦ rw (h, f) (λ m. (m, λ e. cc (recalled-found repo x g.nodes m, e, f)), λ k. k.0)
    ]

supersede_one-keeps :
    (now : ℕ) (repo new old : String) (g : Graph)
    → has_node new g.nodes ≡ true
    → has_node new (supersede_one now repo new old g).nodes ≡ true
unfolding supersede_one
supersede_one-keeps now repo new old g h =
    ground (arith, h, has_node-superseded now new repo old new g.nodes)

-- The recall after the loop sees exactly the facts that it saw before and that are not superseded.
supersede_all-recalled :
    (now : ℕ) (repo new x : String) (os : List String) (g : Graph)
    → has_node new g.nodes ≡ true
    → In x (recalled repo (supersede_all now repo new os g).nodes)
      ↔ (In x (recalled repo g.nodes) × (¬ In x (targets new os)))
unfolding supersede_all
supersede_all-recalled now repo new x [] g h = (λ m. (m, λ k. k), λ m. m.0)
supersede_all-recalled now repo new x (o ∷ os) g h =
    elim (Bool-cases (stripped o == "" || stripped o == new)) [
      | inl t ↦ rw (t, supersede_all) (supersede_all-recalled now repo new x os g h)
      | inr f ↦
          let g' : Graph = supersede_one now repo new (stripped o) g in
          let one : In x (recalled repo g'.nodes)
              ↔ (In x (recalled repo g.nodes) × (x ≢ stripped o)) =
            supersede_one-recalled now repo new (stripped o) x g h in
          let ih : In x (recalled repo (supersede_all now repo new os g').nodes)
              ↔ (In x (recalled repo g'.nodes) × (¬ In x (targets new os))) =
            supersede_all-recalled now repo new x os g'
              (supersede_one-keeps now repo new (stripped o) g h) in
          rw (f, supersede_all)
            (
              λ m. (
                (one.0 (ih.0 m).0).0,
                elim [ inl e ↦ (one.0 (ih.0 m).0).1 e | inr k ↦ (ih.0 m).1 k ],
              ),
              λ k. ih.1 (one.1 (k.0, λ e. k.1 (inl e)), λ m. k.1 (inr m)),
            )
    ]

if-nodes : (b : Bool) (g h : Graph) → g.nodes ≡ h.nodes → (if b then g else h).nodes ≡ h.nodes
if-nodes true g h e = e
if-nodes false g h e = refl

pub link_refs-nodes :
    (env : Env) (repo label id : String) (rs : List String) (g : Graph)
    → (link_refs env repo label id rs g).nodes ≡ g.nodes
unfolding link_refs
link_refs-nodes env repo label id [] g = refl
link_refs-nodes env repo label id (r ∷ rs) g =
    link_refs-nodes env repo label id rs _ ∙ if-nodes _ _ g refl

has_node-append :
    (id : String) (ns : List Node) (n : Node)
    → is_node "Observation_v2" id n ≡ true
    → has_node id (ns ++ n ∷ []) ≡ true
has_node-append id [] n h = rw h refl
has_node-append id (m ∷ ns) n h = ground (arith, has_node-append id ns n h)

has_node-written :
    (env : Env) (a : NewObservation) (text id : String) (ns : List Node)
    → has_node id (set_where (is_node "Observation_v2" id) (written env a text) ns) ≡ has_node id ns
unfolding is_node
has_node-written env a text id [] = refl
has_node-written env a text id (n ∷ ns) = ground (arith, has_node-written env a text id ns)

write_observation-has_node :
    (env : Env) (a : NewObservation) (text id : String) (g : Graph)
    → has_node id (write_observation env a text id g).nodes ≡ true
unfolding write_observation is_node
write_observation-has_node env a text id g = elim (Bool-cases (has_node id g.nodes)) [
  | inl t ↦ rw t (has_node-written env a text id g.nodes ∙ t)
  | inr f ↦ rw f (
      has_node-append id g.nodes (written env a text (created env id))
        (ground (arith, eq_iff id id)))
]

-- A fact that is recorded anew, and not as a duplicate, takes every id that it supersedes out of the
-- facts that pass the status filter of its repository's recall; of those that passed it once the new
-- one was written, exactly the others go on to pass it.
pub insert_observation-recalled :
    (env : Env) (a : NewObservation) (text x : String) (g : Graph)
    → let r = insert_observation env a text g in
      let w = write_observation env a text r.0.id g in
      In x (recalled a.repo r.1.nodes)
      ↔ (In x (recalled a.repo w.nodes) × (¬ In x (targets r.0.id a.supersedes)))
unfolding insert_observation
insert_observation-recalled env a text x g =
    let id : String = if a.id == "" then a.fresh_id else a.id in
    let w : Graph = write_observation env a text id g in
    let same : (link_refs env a.repo "Observation_v2" id a.refs w).nodes ≡ w.nodes =
      link_refs-nodes env a.repo "Observation_v2" id a.refs w in
    let one =
      supersede_all-recalled env.now a.repo id x a.supersedes
        (link_refs env a.repo "Observation_v2" id a.refs w)
        (ap (has_node id) same ∙ write_observation-has_node env a text id g) in
    (
      λ m. (subst (λ (ns : List Node). In x (recalled a.repo ns)) same (one.0 m).0, (one.0 m).1),
      λ k. one.1 (subst (λ (ns : List Node). In x (recalled a.repo ns)) (sym same) k.0, k.1),
    )
