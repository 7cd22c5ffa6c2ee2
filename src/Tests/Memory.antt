-- ===== src/Tests/Memory.antt =====
-- features/memory/store.py at concrete inputs.
use ai_forge_memory.Prelude.{
  String, true, false, none, some, [], ◌∷◌, ◌≡◌, ◌≢◌, ◌↔◌, ◌==◌, refl, length,
}
use ai_forge_memory.Prelude.Sort.{In}
use ai_forge_memory.Prelude.Text.{stripped}
use ai_forge_memory.Memory.Store.{
  Node, Graph, Env, NewObservation, soft_forget, is_node, is_recalled, find_dup, is_dup,
  write_observation, insert_observation, upsert_observation, touch_dup, link_refs, supersede_all,
  supersede_one, is_node_in,
}
use ai_forge_memory.Memory.Store.Status.{recalled, soft_forget-recalled}
use ai_forge_memory.Memory.Store.Dedupe.{upsert_observation-dedupes}
use ai_forge_memory.Memory.Store.Supersede.{targets, insert_observation-recalled}

abbrev env : Env
env = record {
  text_hash = λ t. t;
  is_symbol = λ r s. false;
  is_file = λ r p. p == "a.py";
  has_apoc = false;
  now = 900;
}

abbrev fact : String → String → Node
fact id text = record {
  label = "Observation_v2";
  id = id;
  repo = "api";
  kind = "note";
  text = text;
  text_hash = some text;
  tags = [];
  status = none;
  seen_count = some 1;
  superseded_by = none;
  created_at = some 100;
  updated_at = some 100;
  last_seen_at = none;
  deleted_at = none;
}

abbrev two_facts : Graph
two_facts = record {
  nodes = fact "obs_1" "port 80" ∷ fact "obs_2" "uses tls" ∷ [];
  supersedes = [];
  mentions = [];
}

abbrev correction : NewObservation
correction = record {
  repo = "api";
  text = " port 81 ";
  kind = "note";
  tags = [];
  refs = "a.py" ∷ [];
  id = "";
  fresh_id = "obs_3";
  dedupe = true;
  supersedes = "obs_1" ∷ [];
}

soft_forget-recalled_example :
    In "obs_2" (recalled "api" (soft_forget 500 "api" "obs_1" "Observation_v2" two_facts).1.nodes)
    ↔ (In "obs_2" (recalled "api" two_facts.nodes) × ("obs_2" ≢ (fact "obs_1" "").id))
soft_forget-recalled_example = soft_forget-recalled 500 "api" "obs_1" "obs_2" two_facts

insert_observation-recalled_example :
    let r = insert_observation env correction "port 81" two_facts in
    let w = write_observation env correction "port 81" r.0.id two_facts in
    In "obs_1" (recalled "api" r.1.nodes)
    ↔ (In "obs_1" (recalled "api" w.nodes) × (¬ In "obs_1" (targets r.0.id ("obs_1" ∷ []))))
insert_observation-recalled_example =
    insert_observation-recalled env correction "port 81" "obs_1" two_facts

-- The whole call: the corrected fact goes, the new one and its edges come.
correction_recorded :
    (recalled "api" (upsert_observation env correction two_facts).1.nodes ≡ "obs_2" ∷ "obs_3" ∷ [])
    × ((upsert_observation env correction two_facts).1.supersedes ≡ ("obs_3", "obs_1") ∷ [])
    × ((upsert_observation env correction two_facts).1.mentions ≡ ("obs_3", "a.py") ∷ [])
unfolding upsert_observation insert_observation write_observation link_refs supersede_all
    supersede_one is_node is_node_in is_recalled find_dup is_dup stripped
correction_recorded = (refl, refl, refl)

-- A fact that is already there takes the early return, and supersedes nothing.
dup_supersedes_nothing :
    let again = record correction { text = "uses tls" } in
    recalled "api" (upsert_observation env again two_facts).1.nodes ≡ "obs_1" ∷ "obs_2" ∷ []
unfolding upsert_observation touch_dup link_refs is_node is_recalled find_dup is_dup stripped
dup_supersedes_nothing = refl

upsert_observation-dedupes_example :
    let g = (upsert_observation env correction two_facts).1 in
    ((upsert_observation env correction g).0.deduped ≡ true)
    × (length (upsert_observation env correction g).1.nodes ≡ length g.nodes)
unfolding stripped
upsert_observation-dedupes_example =
    upsert_observation-dedupes env correction correction two_facts refl refl refl refl
