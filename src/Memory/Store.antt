-- ===== src/Memory/Store.antt =====
-- features/memory/store.py: the observations, their duplicates, supersession, and the soft and hard
-- deletion of a memory node. The graph's memory nodes are a list, in the order of their creation; a
-- node has the properties that the statements of the store read. Those that are only written and
-- returned (author, session, embedding, media, confidence, entities, event time) are left out, and
-- so are the Decision_v2, Note_v2 and Doc_v2 writers.
pub mod Status
pub mod Supersede
pub mod Search
pub mod Dedupe
use ai_forge_memory.Prelude.{
  ℕ, suc, ◌+◌, String, Bool, true, false, not, ◌&&◌, ◌||◌, Option, none, some, is_some, List, [],
  ◌∷◌, ◌++◌, ◌==◌, keep, ltb, if◌then◌else◌,
}
use ai_forge_memory.Prelude.Sort.{contains}
use ai_forge_memory.Prelude.Text.{codes, is_infix, stripped}

pub record Node : Type 0 where
  pub label : String
  pub id : String
  pub repo : String
  pub kind : String
  pub text : String
  pub text_hash : Option String
  pub tags : List String
  pub status : Option String
  pub seen_count : Option ℕ
  pub superseded_by : Option String
  pub created_at : Option ℕ
  pub updated_at : Option ℕ
  pub last_seen_at : Option ℕ
  pub deleted_at : Option ℕ

-- An edge, by the ids of its ends, which no two memory nodes share; of a MENTIONS edge the target is the fqname or the path.
abbrev pub Edge : Type 0
Edge = String × String

pub record Graph : Type 0 where
  pub nodes : List Node
  pub supersedes : List Edge
  pub mentions : List Edge

-- What the statements take from elsewhere: the hash of a text, the symbols and files that the graph
-- has for a repository, whether the database has APOC, and the clock.
pub record Env : Type 0 where
  pub text_hash : String → String
  pub is_symbol : String → String → Bool
  pub is_file : String → String → Bool
  pub has_apoc : Bool
  pub now : ℕ

-- `_ALLOWED_LABELS`
abbrev pub allowed_labels : List String
allowed_labels = "Decision_v2" ∷ "Observation_v2" ∷ "Note_v2" ∷ "Doc_v2" ∷ []

-- `MATCH (n) WHERE p SET f`
abbrev pub set_where : (Node → Bool) → (Node → Node) → List Node → List Node
set_where p f [] = []
set_where p f (n ∷ ns) = (if p n then f n else n) ∷ set_where p f ns

-- `(n:label {id:$id})`, and the same with `repo:$repo`.
unfoldable pub is_node : String → String → Node → Bool
is_node label id n = n.label == label && n.id == id

unfoldable pub is_node_in : String → String → String → Node → Bool
is_node_in repo label id n = is_node label id n && n.repo == repo

-- A statement that matches one node answers its id, if there is one.
abbrev pub find_id : (Node → Bool) → List Node → Option String
find_id p [] = none
find_id p (n ∷ ns) = if p n then some n.id else find_id p ns

abbrev pub deleted : ℕ → Node → Node
deleted now n = record n { status = some "deleted"; deleted_at = some now; updated_at = some now }

abbrev pub restored : ℕ → Node → Node
restored now n = record n { status = some "active"; deleted_at = none; updated_at = some now }

-- The result is `none` where the label is refused, else the id of the node that was found.
unfoldable pub soft_forget : ℕ → String → String → String → Graph → Option (Option String) × Graph
soft_forget now repo id label g =
    if contains label allowed_labels
    then (
      some (find_id (is_node_in repo label id) g.nodes),
      record g { nodes = set_where (is_node_in repo label id) (deleted now) g.nodes },
    )
    else (none, g)

unfoldable pub restore : ℕ → String → String → String → Graph → Option (Option String) × Graph
restore now repo id label g =
    if contains label allowed_labels
    then (
      some (find_id (is_node_in repo label id) g.nodes),
      record g { nodes = set_where (is_node_in repo label id) (restored now) g.nodes },
    )
    else (none, g)

-- `forget`: the node goes, and its edges with it.
unfoldable pub forget : String → String → String → Graph → Option (Option String) × Graph
forget repo id label g =
    let found = find_id (is_node_in repo label id) g.nodes in
    if not (contains label allowed_labels)
    then (none, g)
    else if is_some found
    then (
      some found,
      record {
        nodes = keep (λ n. not (is_node_in repo label id n)) g.nodes;
        supersedes = keep (λ e. not (e.0 == id) && not (e.1 == id)) g.supersedes;
        mentions = keep (λ e. not (e.0 == id)) g.mentions;
      },
    )
    else (some none, g)

-- The WHERE clause of `_RECALL_OBSERVATION`.
unfoldable pub is_recalled : String → Node → Bool
is_recalled repo n =
    n.label == "Observation_v2"
    && n.repo == repo
    && (elim n.status [ none ↦ true | some s ↦ s == "active" ])

abbrev pub superseded : ℕ → String → Node → Node
superseded now by n = record n {
  status = some "superseded";
  superseded_by = some by;
  updated_at = some now;
}

-- `MERGE (a)-[:R]->(b)`
abbrev pub merge_edge : Edge → List Edge → List Edge
merge_edge e [] = e ∷ []
merge_edge e (x ∷ xs) = if x.0 == e.0 && x.1 == e.1 then x ∷ xs else x ∷ merge_edge e xs

-- `_SUPERSEDE_OBSERVATION`: nothing happens where one of the two is missing.
unfoldable pub supersede_one : ℕ → String → String → String → Graph → Graph
supersede_one now repo new old g =
    if is_some (find_id (is_node "Observation_v2" new) g.nodes)
      && is_some (find_id (is_node_in repo "Observation_v2" old) g.nodes)
    then record g {
      nodes = set_where (is_node_in repo "Observation_v2" old) (superseded now new) g.nodes;
      supersedes = merge_edge (new, old) g.supersedes;
    }
    else g

-- The loop over `supersedes`.
unfoldable pub supersede_all : ℕ → String → String → List String → Graph → Graph
supersede_all now repo new [] g = g
supersede_all now repo new (o ∷ os) g =
    let old = stripped o in
    supersede_all now repo new os
      (if old == "" || old == new then g else supersede_one now repo new old g)

-- `_link_refs`
unfoldable pub link_refs : Env → String → String → String → List String → Graph → Graph
link_refs env repo label id [] g = g
link_refs env repo label id (r ∷ rs) g =
    let ref = stripped r in
    let known =
      if is_infix (codes "::") (codes ref) then env.is_symbol repo ref else env.is_file repo ref in
    let linked =
      if not (ref == "") && known && is_some (find_id (is_node label id) g.nodes)
      then record g { mentions = merge_edge (id, ref) g.mentions }
      else g in
    link_refs env repo label id rs linked

-- The arguments of `upsert_observation`; `fresh_id` is what `_new_id` makes.
pub record NewObservation : Type 0 where
  pub repo : String
  pub text : String
  pub kind : String
  pub tags : List String
  pub refs : List String
  pub id : String
  pub fresh_id : String
  pub dedupe : Bool
  pub supersedes : List String

pub record Recorded : Type 0 where
  pub id : String
  pub deduped : Bool
  pub seen_count : Option ℕ
  pub superseded : List String

unfoldable pub is_dup : Env → String → String → Node → Bool
is_dup env repo text n =
    n.label == "Observation_v2"
    && n.repo == repo
    && n.text == text
    && (elim n.text_hash [ none ↦ false | some h ↦ h == env.text_hash text ])

abbrev pub count_seen : Node → ℕ
count_seen n = elim n.seen_count [ none ↦ 1 | some c ↦ c ]

-- A null creation time sorts last.
abbrev is_older : Option ℕ → Option ℕ → Bool
is_older none s = false
is_older (some t) none = true
is_older (some t) (some s) = ltb t s

abbrev older : Node → Option Node → Node
older n none = n
older n (some m) = if is_older m.created_at n.created_at then m else n

-- `_FIND_DUP_OBSERVATION`: the oldest of the nodes that match.
unfoldable pub find_dup : (Node → Bool) → List Node → Option Node
find_dup p [] = none
find_dup p (n ∷ ns) = let rest = find_dup p ns in if p n then some (older n rest) else rest

-- `apoc.coll.toSet(old + new)`
abbrev to_set : List String → List String → List String
to_set seen [] = []
to_set seen (t ∷ ts) = let rest = to_set (t ∷ seen) ts in if contains t seen then rest else t ∷ rest

-- `_TOUCH_DUP_OBSERVATION`, and the same without APOC.
abbrev pub touched : Env → List String → Node → Node
touched env tags n = record n {
  seen_count = some (count_seen n + 1);
  last_seen_at = some env.now;
  tags = if env.has_apoc then to_set [] (n.tags ++ tags) else n.tags;
}

abbrev pub written : Env → NewObservation → String → Node → Node
written env a text n = record n {
  repo = a.repo;
  kind = a.kind;
  text = text;
  text_hash = some (env.text_hash text);
  tags = a.tags;
  updated_at = some env.now;
}

-- `ON CREATE SET`
abbrev pub created : Env → String → Node
created env id = record {
  label = "Observation_v2";
  id = id;
  repo = "";
  kind = "";
  text = "";
  text_hash = none;
  tags = [];
  status = none;
  seen_count = some 1;
  superseded_by = none;
  created_at = some env.now;
  updated_at = none;
  last_seen_at = none;
  deleted_at = none;
}

-- `_UPSERT_OBSERVATION`: a known id is written over, and keeps its status and its count.
unfoldable pub write_observation : Env → NewObservation → String → String → Graph → Graph
write_observation env a text id g = record g {
  nodes =
      if is_some (find_id (is_node "Observation_v2" id) g.nodes)
      then set_where (is_node "Observation_v2" id) (written env a text) g.nodes
      else g.nodes ++ written env a text (created env id) ∷ [];
}

-- The part after the search for a duplicate.
unfoldable pub insert_observation : Env → NewObservation → String → Graph → Recorded × Graph
insert_observation env a text g =
    let id = if a.id == "" then a.fresh_id else a.id in
    let linked =
      link_refs env a.repo "Observation_v2" id a.refs (write_observation env a text id g) in
    (
      record {
        id = id;
        deduped = false;
        seen_count = none;
        superseded = keep (λ s. not (s == "")) a.supersedes;
      },
      supersede_all env.now a.repo id a.supersedes linked,
    )

unfoldable pub touch_dup : Env → NewObservation → Node → Graph → Recorded × Graph
touch_dup env a dup g = (
  record { id = dup.id; deduped = true; seen_count = some (count_seen dup + 1); superseded = [] },
  link_refs env a.repo "Observation_v2" dup.id a.refs (record g {
    nodes = set_where (is_node "Observation_v2" dup.id) (touched env a.tags) g.nodes;
  }),
)

unfoldable pub upsert_observation : Env → NewObservation → Graph → Recorded × Graph
upsert_observation env a g =
    let text = stripped a.text in
    if a.dedupe && not (text == "")
    then elim (find_dup (is_dup env a.repo text) g.nodes) [
      | none ↦ insert_observation env a text g
      | some dup ↦ touch_dup env a dup g
    ]
    else insert_observation env a text g
