-- ===== src/Memory/Digest.antt =====
-- features/memory/digest.py: `select_cold`, `build_digest` and `run_digest`, and the `list_memory` of
-- features/memory/store.py for one label. Times are in seconds. The model, if one is given, and the
-- making of ids are parameters.
pub mod Cold
pub mod Nothing
use ai_forge_memory.Prelude.{
  ℕ, ◌+◌, ◌-◌, ◌*◌, String, Bool, true, false, ◌&&◌, Option, none, some, List, [], ◌∷◌, ◌++◌, ◌==◌,
  length, take, keep, map, ltb, leb, if◌then◌else◌,
}
use ai_forge_memory.Prelude.Insertion.{sorted_by}
use ai_forge_memory.Prelude.Dict.{Dict, lookup, insert}
use ai_forge_memory.Prelude.Sort.{contains}
use ai_forge_memory.Prelude.Text.{stripped, join_with, ◌&◌}
use ai_forge_memory.Memory.Store.{Node, Graph, Env, NewObservation, set_where, upsert_observation}

pub record Row : Type 0 where
  pub id : Option String
  pub created_at_epoch : Option ℕ
  pub tags : List String
  pub kind : String
  pub text : String

abbrev pub day_seconds : ℕ
day_seconds = 86400

abbrev pub topic_of : Row → String
topic_of r = elim r.tags [ t ∷ ts ↦ t | [] ↦ if r.kind == "" then "misc" else r.kind ]

abbrev pub is_cold : ℕ → ℕ → Row → Bool
is_cold now cold_days r = elim r.created_at_epoch [
  | none ↦ false
  | some created ↦ ltb (cold_days * day_seconds) (now - created)
]

abbrev pub or_nil : Option (List Row) → List Row
or_nil none = []
or_nil (some rs) = rs

-- `groups.setdefault(topic, []).append(row)`
abbrev pub add_row : Row → Dict (List Row) → Dict (List Row)
add_row r groups = insert (topic_of r) (or_nil (lookup (topic_of r) groups) ++ r ∷ []) groups

unfoldable pub group_rows : ℕ → ℕ → List Row → Dict (List Row) → Dict (List Row)
group_rows now cold_days [] groups = groups
group_rows now cold_days (r ∷ rs) groups =
    group_rows now cold_days rs (if is_cold now cold_days r then add_row r groups else groups)

abbrev pub large : ℕ → Dict (List Row) → Dict (List Row)
large min_group [] = []
large min_group ((t, rs) ∷ groups) =
    if leb min_group (length rs) then (t, rs) ∷ large min_group groups else large min_group groups

unfoldable pub select_cold : ℕ → ℕ → ℕ → List Row → Dict (List Row)
select_cold now cold_days min_group rows = large min_group (group_rows now cold_days rows [])

pub record Digest : Type 0 where
  pub topic : String
  pub text : String
  pub source_ids : List String
  pub count : ℕ

abbrev ids_of : List Row → List String
ids_of [] = []
ids_of (r ∷ rs) = elim r.id [ none ↦ ids_of rs | some i ↦ i ∷ ids_of rs ]

abbrev bullets : List String → List String
bullets [] = []
bullets (t ∷ ts) = if t == "" then bullets ts else ("- " & t) ∷ bullets ts

-- `summarize` takes the topic and the texts that its prompt lists.
unfoldable pub build_digest : Option (String → List String → String) → String → List Row → Digest
build_digest summarize topic rows =
    let texts = map (λ (r : Row). stripped r.text) rows in
    record {
      topic = topic;
      text = elim summarize [
        | none ↦ join_with "\n" (bullets (take 5 texts))
        | some f ↦ f topic texts
      ];
      source_ids = ids_of rows;
      count = length rows;
    }

-- `ORDER BY n.created_at DESC`, where a node without the property comes first.
abbrev is_later : Option ℕ → Option ℕ → Bool
is_later s none = false
is_later none (some t) = true
is_later (some s) (some t) = ltb t s

abbrev newest_first : List Node → List Node
newest_first = sorted_by (λ n m. is_later n.created_at m.created_at)

-- A row of `list_memory`: it has neither tags nor `created_at_epoch`.
abbrev pub listed : Node → Row
listed n = record {
  id = some n.id;
  created_at_epoch = none;
  tags = [];
  kind = n.kind;
  text = n.text;
}

-- `list_memory` for a label that is allowed.
unfoldable pub list_memory : String → String → ℕ → Graph → List Row
list_memory repo label limit g =
    map listed (take limit (newest_first (keep (λ n. n.label == label && n.repo == repo) g.nodes)))

pub record Counts : Type 0 where
  pub groups : ℕ
  pub digests : ℕ
  pub archived : ℕ

-- `_ARCHIVE_SOURCES`
abbrev pub archive : String → List String → Graph → Graph
archive repo ids g = record g {
  nodes =
      set_where (λ n. n.repo == repo && contains n.id ids)
        (λ n. record n { status = some "archived" }) g.nodes;
}

abbrev pub digest_observation : String → String → Digest → NewObservation
digest_observation repo fresh d = record {
  repo = repo;
  text = d.text;
  kind = "digest";
  tags = "digest" ∷ ("topic:" & d.topic) ∷ [];
  refs = [];
  id = "";
  fresh_id = fresh;
  dedupe = true;
  supersedes = [];
}

-- The loop over the groups, with the number of the round for the new ids.
unfoldable pub write_digests :
    Env
    → (ℕ → String)
    → Option (String → List String → String)
    → Bool
    → String
    → ℕ
    → Dict (List Row)
    → Graph
    → Counts
    → Counts × Graph
write_digests env fresh summarize archives repo i [] g c = (c, g)
write_digests env fresh summarize archives repo i ((topic, rows) ∷ groups) g c =
    let d = build_digest summarize topic rows in
    let written = (upsert_observation env (digest_observation repo (fresh i) d) g).1 in
    let g' = if archives then archive repo d.source_ids written else written in
    let archived = if archives then c.archived + length d.source_ids else c.archived in
    write_digests env fresh summarize archives repo (i + 1) groups g'
      (record c { digests = c.digests + 1; archived = archived })

-- `run_digest`, with the defaults of `select_cold`; `archives` is the argument and the flag of the
-- environment together.
unfoldable pub run_digest :
    Env
    → (ℕ → String)
    → Option (String → List String → String)
    → Bool
    → String
    → Graph
    → Counts × Graph
run_digest env fresh summarize archives repo g =
    let groups = select_cold env.now 90 5 (list_memory repo "Observation_v2" 1000 g) in
    write_digests env fresh summarize archives repo 0 groups g
      (record { groups = length groups; digests = 0; archived = 0 })
