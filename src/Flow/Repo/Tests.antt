-- ===== src/Flow/Repo/Tests.antt =====
-- features/flow/runner.py: `ingest_repo` at concrete inputs.
use ai_forge_memory.Prelude.{
  ℕ, suc, String, true, false, none, some, [], ◌∷◌, ◌≡◌, ◌≢◌, refl, ◌⊎◌, Option, is_some,
}
use ai_forge_memory.Exec.{Exec, pure, lift, attempt, ◌>>=◌}
use ai_forge_memory.State.{empty_db, get_repo_pack_sha, get_file_hashes}
use ai_forge_memory.Symbol.Walk.{WalkedFile}
use ai_forge_memory.Delta.Detect.{Checkout, cold, changed_files}
use ai_forge_memory.Delta.GitDiff.{raised}
use ai_forge_memory.Delta.Ingest.{
  Driver, Stages, Stored, on_graph, on_db, write_chunks, fresh_hashes,
}
use ai_forge_memory.Flow.Repo.{
  Writers, Readers, Options, is_unchanged, ingest_repo, run_packed, index_repo, finish_repo,
  write_repo, write_services, write_symbols, write_file_summaries, write_file_chunks, record_head,
}
use ai_forge_memory.Flow.Repo.Outcome.{WalkedBy}
use ai_forge_memory.Flow.Repo.Retry.{ingest_repo_not_stuck}

-- A graph that counts the calls of its writers.
abbrev counted : {A : Type 0} → A → Exec ℕ A
counted a n = (some a, suc n)

abbrev counter : Driver ℕ String String
counter = record {
  detach_files = λ r ps. counted tt;
  upsert_files_and_symbols = λ r ws. counted (record { files = 1; symbols = 2; imports = 0 });
  upsert_call_edges = λ r es ps. counted 0;
  write_summaries = λ r ss. counted 0;
  upsert_chunks = λ r cs. counted 1;
  update_git_meta = λ r sha. counted tt;
}

abbrev writers : Writers ℕ String String String String
writers = record {
  common = counter;
  upsert_repo = λ r a sha h. counted tt;
  upsert_services = λ r ds. counted (1, 0);
  write_summaries = λ r ss. counted (1, 0);
  summarized_paths = λ r. counted [];
}

abbrev main_file : WalkedFile
main_file = record { path = "a.py"; hash = "9"; lang = "python"; lines = 3; parse_error = false }

abbrev stages : Stages String String
stages = record {
  walk_repo = some (main_file ∷ []);
  resolve_calls = λ ws. some [];
  lsp_resolve = λ ws. none;
  summarize_files = λ ws. some ("a" ∷ []);
  chunk_and_embed = λ ws. some ("a" ∷ [], []);
  git_meta = none;
  rows_saved = true;
  head_saved = true;
}

abbrev readers : Readers String String String String String
readers = record {
  common = stages;
  pack = some ("text", "1f");
  summarize = λ p. some p;
  git_meta = some ("f00", "main");
  extract_services = λ p. some [];
  git_meta_after = none;
  pack_saved = true;
}

-- The write of the pack's hash fails.
abbrev no_disk : Readers String String String String String
no_disk = record readers { pack_saved = false }

abbrev options : Options
options = record {
  force = false;
  skip_services = false;
  skip_symbols = false;
  skip_summaries = false;
  skip_chunks = false;
  use_lsp = false;
}

abbrev start : Stored ℕ
start = record { graph = 0; db = empty_db }

abbrev checkout : Checkout
checkout = record {
  rev_parse = raised;
  abbrev_ref = raised;
  diff = λ a b. raised;
  hashes = ("a.py", "9") ∷ [];
}

answered : {A : Type 0} (o : Option A) → is_some o ≡ true → o ≢ none
answered none h e = cc
answered (some a) h e = cc

it_answers : is_some (ingest_repo writers readers options "api" start).0 ≡ true
unfolding ingest_repo run_packed index_repo finish_repo write_repo write_services write_symbols
    write_file_summaries write_file_chunks record_head ◌>>=◌ lift pure attempt on_graph on_db
    get_repo_pack_sha get_file_hashes write_chunks fresh_hashes
it_answers = refl

ingested : (ingest_repo writers readers options "api" start).0 ≢ none
ingested = answered _ it_answers

ingest_repo_not_stuck_example :
    let db' = (ingest_repo writers readers options "api" start).1.db in
    (is_unchanged "1f" (get_repo_pack_sha "api" db') ≡ false)
    ⊎ (((changed_files checkout "api" db').method ≢ cold) ⊎ WalkedBy readers options [])
unfolding get_repo_pack_sha
ingest_repo_not_stuck_example =
    ingest_repo_not_stuck writers readers options "api" checkout start "text" "1f" refl refl
      ingested
