-- ===== src/Memory/Store/Dedupe.antt =====
-- features/memory/store.py: a text that is recorded again in its repository finds the old fact.
use ai_forge_memory.Prelude.{
  ℕ, String, Bool, true, false, not, ◌&&◌, ◌||◌, Option, is_some, List, [], ◌∷◌, ◌++◌, ◌==◌, length,
  ◌≡◌, refl, ap, ◌∙◌, arith, eq_iff, if◌then◌else◌, Bool-cases, Option-cases, inl, inr,
}
use ai_forge_memory.Prelude.Text.{stripped}
use ai_forge_memory.Memory.Store.{
  Node, Graph, Env, NewObservation, set_where, is_node, is_node_in, find_id, superseded, written,
  created, touched, supersede_one, supersede_all, link_refs, is_dup, find_dup, write_observation,
  insert_observation, touch_dup, upsert_observation,
}
use ai_forge_memory.Memory.Store.Supersede.{has_node, link_refs-nodes}
use ai_forge_memory.Memory.Store.Search.{has_dup, has_dup-cons, has_dup-set_where, length-set_where}

or_true : (b : Bool) → (b || true) ≡ true
or_true b = ground arith

module _ (env : Env) (repo text : String) where
  superseded-dup :
      (now : ℕ) (new : String) (n : Node)
      → is_dup env repo text (superseded now new n) ≡ is_dup env repo text n
  unfolding is_dup
  superseded-dup now new n = refl

  touched-dup :
      (tags : List String) (n : Node)
      → is_dup env repo text (touched env tags n) ≡ is_dup env repo text n
  unfolding is_dup
  touched-dup tags n = refl

  supersede_one-dup :
      (now : ℕ) (r new old : String) (g : Graph)
      → has_dup (is_dup env repo text) (supersede_one now r new old g).nodes
        ≡ has_dup (is_dup env repo text) g.nodes
  unfolding supersede_one
  supersede_one-dup now r new old g =
      elim (Bool-cases (
        is_some (find_id (is_node "Observation_v2" new) g.nodes)
        && is_some (find_id (is_node_in r "Observation_v2" old) g.nodes))) [
          | inl t ↦ rw t (
              has_dup-set_where (is_dup env repo text) (is_node_in r "Observation_v2" old)
                (superseded now new) (superseded-dup now new) g.nodes)
          | inr f ↦ rw f refl
        ]

  supersede_all-dup :
      (now : ℕ) (r new : String) (os : List String) (g : Graph)
      → has_dup (is_dup env repo text) (supersede_all now r new os g).nodes
        ≡ has_dup (is_dup env repo text) g.nodes
  unfolding supersede_all
  supersede_all-dup now r new [] g = refl
  supersede_all-dup now r new (o ∷ os) g =
      elim (Bool-cases (stripped o == "" || stripped o == new)) [
        | inl t ↦ rw (t, supersede_all) (supersede_all-dup now r new os g)
        | inr f ↦
            rw (f, supersede_all)
              (supersede_all-dup now r new os (supersede_one now r new (stripped o) g)
                ∙ supersede_one-dup now r new (stripped o) g)
      ]

  written-dup :
      (a : NewObservation) (n : Node)
      → a.repo ≡ repo
      → (n.label == "Observation_v2") ≡ true
      → is_dup env repo text (written env a text n) ≡ true
  unfolding is_dup
  written-dup a n e l = ground (
    arith,
    e,
    l,
    eq_iff a.repo repo,
    eq_iff text text,
    eq_iff (env.text_hash text) (env.text_hash text),
  )

  label_of :
      (id : String) (n : Node)
      → is_node "Observation_v2" id n ≡ true
      → (n.label == "Observation_v2") ≡ true
  unfolding is_node
  label_of id n h = ground arith

  set_written-dup :
      (a : NewObservation) (id : String) (ns : List Node)
      → a.repo ≡ repo
      → has_node id ns ≡ true
      → has_dup
          (is_dup env repo text)
          (set_where (is_node "Observation_v2" id) (written env a text) ns)
        ≡ true
  set_written-dup a id [] e h = cc
  set_written-dup a id (n ∷ ns) e h = elim (Bool-cases (is_node "Observation_v2" id n)) [
    | inl t ↦
        rw
          (
            has_dup-cons (is_dup env repo text)
                (if is_node "Observation_v2" id n then written env a text n else n)
                (set_where (is_node "Observation_v2" id) (written env a text) ns),
            t,
            written-dup a n e (label_of id n t),
          )
          refl
    | inr f ↦
        rw
          (
            has_dup-cons (is_dup env repo text)
                (if is_node "Observation_v2" id n then written env a text n else n)
                (set_where (is_node "Observation_v2" id) (written env a text) ns),
            f,
            set_written-dup a id ns e (rw f at h),
          )
          (or_true (is_dup env repo text n))
  ]

  append-dup :
      (ns : List Node) (n : Node)
      → is_dup env repo text n ≡ true
      → has_dup (is_dup env repo text) (ns ++ n ∷ []) ≡ true
  append-dup [] n h = rw (has_dup-cons (is_dup env repo text) n [], h) refl
  append-dup (m ∷ ns) n h =
      rw (has_dup-cons (is_dup env repo text) m (ns ++ n ∷ []), append-dup ns n h)
        (or_true (is_dup env repo text m))

  write_observation-dup :
      (a : NewObservation) (id : String) (g : Graph)
      → a.repo ≡ repo
      → has_dup (is_dup env repo text) (write_observation env a text id g).nodes ≡ true
  unfolding write_observation
  write_observation-dup a id g e = elim (Bool-cases (has_node id g.nodes)) [
    | inl t ↦ rw t (set_written-dup a id g.nodes e t)
    | inr f ↦ rw f (
        append-dup g.nodes (written env a text (created env id))
          (written-dup a (created env id) e refl))
  ]

  insert_observation-dup :
      (a : NewObservation) (g : Graph)
      → a.repo ≡ repo
      → has_dup (is_dup env repo text) (insert_observation env a text g).1.nodes ≡ true
  unfolding insert_observation
  insert_observation-dup a g e =
      let id : String = if a.id == "" then a.fresh_id else a.id in
      let w : Graph = write_observation env a text id g in
      supersede_all-dup env.now a.repo id a.supersedes
        (link_refs env a.repo "Observation_v2" id a.refs w)
      ∙ ap (has_dup (is_dup env repo text))
          (link_refs-nodes env a.repo "Observation_v2" id a.refs w)
      ∙ write_observation-dup a id g e

  touch_dup-dup :
      (a : NewObservation) (dup : Node) (g : Graph)
      → has_dup (is_dup env repo text) (touch_dup env a dup g).1.nodes
        ≡ has_dup (is_dup env repo text) g.nodes
  unfolding touch_dup
  touch_dup-dup a dup g =
      ap (has_dup (is_dup env repo text))
        (link_refs-nodes env a.repo "Observation_v2" dup.id a.refs _)
      ∙ has_dup-set_where (is_dup env repo text) (is_node "Observation_v2" dup.id)
          (touched env a.tags) (touched-dup a.tags) g.nodes

upsert_observation-dup :
    (env : Env) (a : NewObservation) (g : Graph)
    → has_dup (is_dup env a.repo (stripped a.text)) (upsert_observation env a g).1.nodes ≡ true
unfolding upsert_observation
upsert_observation-dup env a g =
    let p : Node → Bool = is_dup env a.repo (stripped a.text) in
    elim (Bool-cases (a.dedupe && not (stripped a.text == ""))) [
      | inl t ↦ elim (Option-cases (find_dup p g.nodes)) [
        | inl e ↦ rw (t, e) (insert_observation-dup env a.repo (stripped a.text) a g refl)
        | inr (dup, e) ↦
            rw (t, e)
              (touch_dup-dup env a.repo (stripped a.text) a dup g
                ∙ ap (λ (o : Option Node). is_some o) e)
      ]
      | inr f ↦ rw f (insert_observation-dup env a.repo (stripped a.text) a g refl)
    ]

-- A deduplicating call that finds the text, in the graph that it is given, adds no node.
upsert_observation-found :
    (env : Env) (b : NewObservation) (g : Graph)
    → b.dedupe ≡ true
    → (stripped b.text == "") ≡ false
    → has_dup (is_dup env b.repo (stripped b.text)) g.nodes ≡ true
    → ((upsert_observation env b g).0.deduped ≡ true)
      × (length (upsert_observation env b g).1.nodes ≡ length g.nodes)
unfolding upsert_observation touch_dup
upsert_observation-found env b g d n h =
    elim (Option-cases (find_dup (is_dup env b.repo (stripped b.text)) g.nodes)) [
      | inl e ↦ cc (ap (λ (o : Option Node). is_some o) e)
      | inr (dup, e) ↦
          rw (d, n, e)
            (
              refl,
              ap (λ (ns : List Node). length ns)
                    (link_refs-nodes env b.repo "Observation_v2" dup.id b.refs _)
                  ∙ length-set_where (is_node "Observation_v2" dup.id) (touched env b.tags) g.nodes,
            )
    ]

-- Once a text is recorded in a repository, however it was, a later deduplicating call with the same
-- text up to white space at its ends, unless that is all of it, finds a duplicate and adds no node.
pub upsert_observation-dedupes :
    (env : Env) (a b : NewObservation) (g : Graph)
    → b.repo ≡ a.repo
    → stripped b.text ≡ stripped a.text
    → b.dedupe ≡ true
    → (stripped b.text == "") ≡ false
    → let g' = (upsert_observation env a g).1 in
      ((upsert_observation env b g').0.deduped ≡ true)
      × (length (upsert_observation env b g').1.nodes ≡ length g'.nodes)
upsert_observation-dedupes env a b g r t d n =
    upsert_observation-found env b (upsert_observation env a g).1 d n
      (rw (r, t) (upsert_observation-dup env a g))
