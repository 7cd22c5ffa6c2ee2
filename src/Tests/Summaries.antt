-- ===== src/Tests/Summaries.antt =====
-- The summaries of symbols and files, and the digest of memories, at concrete inputs.
use ai_forge_memory.Prelude.{
  ℕ, refl, ◌≤◌, String, true, false, none, some, List, [], ◌∷◌, ◌≡◌, ◌↔◌, ◌⊎◌, inl, length, min,
  drop, map, leb, All, arith, if◌then◌else◌,
}
use ai_forge_memory.Prelude.Dict.{lookup}
use ai_forge_memory.Prelude.Sort.{In}
use ai_forge_memory.Prelude.Text.{codes}
use ai_forge_memory.Prelude.Insertion.{sorted_by}
use ai_forge_memory.Chunk.Embed.{Content}
use ai_forge_memory.Symbol.Summarise.Candidates.{Symbol, SourceFile, Limits, Candidate, candidates}
use ai_forge_memory.Symbol.Summarise.Candidates.Largest.{IsCandidate, candidates-AreLargest}
use ai_forge_memory.Symbol.Summarise.Answer.{Settings, Llm, failed, process_one}
use ai_forge_memory.Symbol.Summarise.Run.{is_error, summarise_symbols}
use ai_forge_memory.Symbol.Summarise.Run.Window.{HasWindow}
use ai_forge_memory.Symbol.Summarise.Run.Aborts.{summarise_symbols_raises_iff}
use ai_forge_memory.Json as Json
use ai_forge_memory.File as File
use ai_forge_memory.File.Store.{FileNode, write_summaries}
use ai_forge_memory.File.Store.Paired.{IsPaired, AreKept, summarize_files-ArePaired}
use ai_forge_memory.Memory.Store.{Node, Graph, Env}
use ai_forge_memory.Memory.Digest.{Row, group_rows, select_cold, list_memory, run_digest}
use ai_forge_memory.Memory.Digest.Cold.{cold_of, select_cold_lem}
use ai_forge_memory.Memory.Digest.Nothing.{run_digest_nothing}

abbrev method : String → ℕ → ℕ → Symbol
method fqname first last = record {
  fqname = fqname;
  kind = "method";
  signature = fqname;
  line_start = first;
  line_end = last;
}

abbrev walked : List SourceFile
walked =
    record {
      path = "app.py";
      parse_error = false;
      symbols = method "app::run" 1 20 ∷ method "app::stop" 21 60 ∷ method "app::id" 61 62 ∷ [];
    }
    ∷ []

abbrev content : Content
content = record { bytes = 900; lines = codes "def run():" ∷ codes "    pass" ∷ [] }

abbrev limits : Limits
limits = record { allowed_kinds = codes "method" ∷ []; min_lines = 8; max_file_bytes = 262144 }

abbrev stop_method : Candidate
stop_method = record { content = content; sym = method "app::stop" 21 60; n_lines = 40 }

abbrev found : ℕ → List Candidate
found n = candidates (λ p. some content) (λ s. false) limits none (some n) walked

candidates-AreLargest_example :
    let all = candidates (λ p. some content) (λ s. false) limits none none walked in
    (IsCandidate (λ p. some content) (λ s. false) limits 8 walked stop_method
      ↔ (In stop_method (found 1) ⊎ In stop_method (drop 1 all)))
    × (length (found 1) ≡ min 1 (length all))
    × All (λ (d : Candidate). All (λ (e : Candidate). e.n_lines ≤ d.n_lines) (drop 1 all)) (found 1)
candidates-AreLargest_example =
    candidates-AreLargest (λ p. some content) (λ s. false) limits none walked 1 stop_method

abbrev settings : Settings
settings = record { head_lines = 30; tail_lines = 5; retry_max = 1 }

-- A model that answers no request.
abbrev silent : Llm
silent = record {
  post = λ c body k. failed;
  strip_fences = λ t. t;
  loads = λ t. none;
  extract = λ t. none;
  unescape = λ t. none;
}

summarise_symbols_raises_iff_example :
    let r =
      (summarise_symbols
        (λ p. some content)
        (λ s. false)
        limits
        settings
        silent
        (λ l. l)
        1
        2
        none
        none
        walked).result in
    let answers =
      map
        (process_one settings silent)
        (candidates (λ p. some content) (λ s. false) limits none none walked) in
    ((r ≡ none) ⊎ (r ≡ some answers)) × ((r ≡ none) ↔ HasWindow 2 2 (map is_error answers))
summarise_symbols_raises_iff_example =
    summarise_symbols_raises_iff (λ p. some content) (λ s. false) limits settings silent (λ l. l) 1
      2 none none walked (omega arith)

abbrev machine : File.Machine
machine = record {
  read = λ p. some (record { bytes = 40; text = "x = 1" });
  complete = λ strict f text. some "answer";
  loads = λ raw. some (Json.obj (Json.pair "summary" (Json.str "Sets x.") Json.no_pair));
  str = λ v. "Sets x.";
}

abbrev node : FileNode
node = record {
  repo = "api";
  path = "app.py";
  summary = some "Runs the app.";
  purpose_tags = some (codes "app" ∷ []);
  skipped_reason = none;
}

abbrev file : File.SourceFile
file = record { path = "app.py"; lang = "python"; parse_error = false; has_symbols = true }

summarize_files-ArePaired_example :
    let after =
      (write_summaries "api"
        (File.summarize_files machine 32768 (file ∷ []))
        (node ∷ [])
        (record { updated = 0; skipped = 0 })).1 in
    AreKept (node ∷ []) after × All IsPaired after
summarize_files-ArePaired_example =
    summarize_files-ArePaired machine 32768 (file ∷ []) "api" (node ∷ [])
      (record { updated = 0; skipped = 0 }) (inl ((λ e. cc), omega arith), tt)

abbrev old : String → Row
old id = record { id = some id; created_at_epoch = some 0; tags = "tls" ∷ []; kind = ""; text = id }

select_cold_lem_example :
    let cold = cold_of 10000000 90 "tls" (old "a" ∷ old "b" ∷ []) in
    lookup "tls" (select_cold 10000000 90 2 (old "a" ∷ old "b" ∷ []))
    ≡ (if leb 2 (length cold) then some cold else none)
select_cold_lem_example = select_cold_lem 10000000 90 2 (old "a" ∷ old "b" ∷ []) "tls" (omega arith)

abbrev env : Env
env = record {
  text_hash = λ t. t;
  is_symbol = λ r s. false;
  is_file = λ r p. false;
  has_apoc = false;
  now = 10000000;
}

-- Five facts of one topic, recorded long before `env.now`.
abbrev fact : String → Node
fact id = record {
  label = "Observation_v2";
  id = id;
  repo = "api";
  kind = "note";
  text = id;
  text_hash = some id;
  tags = "tls" ∷ [];
  status = none;
  seen_count = some 1;
  superseded_by = none;
  created_at = some 100;
  updated_at = some 100;
  last_seen_at = none;
  deleted_at = none;
}

abbrev old_facts : Graph
old_facts = record {
  nodes = fact "a" ∷ fact "b" ∷ fact "c" ∷ fact "d" ∷ fact "e" ∷ [];
  supersedes = [];
  mentions = [];
}

run_digest_nothing_example :
    run_digest env (λ n. "obs_9") none true "api" old_facts
    ≡ (record { groups = 0; digests = 0; archived = 0 }, old_facts)
run_digest_nothing_example = run_digest_nothing env (λ n. "obs_9") none true "api" old_facts

-- The rows of these facts are all listed, and with the times of their records they are one group.
abbrev dated : Row → Row
dated r = record r { created_at_epoch = some 100; tags = "tls" ∷ [] }

listed_facts : length (list_memory "api" "Observation_v2" 1000 old_facts) ≡ 5
unfolding list_memory sorted_by
listed_facts = refl

dated_facts :
    select_cold env.now 90 5 (map dated (list_memory "api" "Observation_v2" 1000 old_facts))
    ≡ ("tls", map dated (list_memory "api" "Observation_v2" 1000 old_facts)) ∷ []
unfolding select_cold group_rows list_memory sorted_by
dated_facts = refl
