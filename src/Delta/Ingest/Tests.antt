-- ===== src/Delta/Ingest/Tests.antt =====
-- features/delta/extract.py: `ingest_delta` at concrete inputs.
use ai_forge_memory.Prelude.{
  ℕ, suc, String, true, false, none, some, [], ◌∷◌, ◌≡◌, ◌≢◌, refl, if◌then◌else◌,
}
use ai_forge_memory.Prelude.Dict.{Dict, lookup}
use ai_forge_memory.Prelude.Sort.{In, contains}
use ai_forge_memory.Exec.{Exec}
use ai_forge_memory.State.{Db, empty_db, get_file_hashes}
use ai_forge_memory.Symbol.Walk.{WalkedFile}
use ai_forge_memory.Delta.Hashes.{diff_hashes}
use ai_forge_memory.Delta.GitDiff.{raised, exited}
use ai_forge_memory.Delta.Detect.{git, ChangedSet, Checkout}
use ai_forge_memory.Delta.Ingest.{Driver, Stages, Flags, Stored, save_state, ingest_delta}
use ai_forge_memory.Delta.Ingest.Stale.{last_hash, save_state-lookup, ingest_delta_reports_again}

-- A graph that counts the calls of its writers.
abbrev counted : {A : Type 0} → A → Exec ℕ A
counted a n = (some a, suc n)

abbrev counter : Driver ℕ String String
counter = record {
  detach_files = λ r ps. counted tt;
  upsert_files_and_symbols = λ r ws. counted (record { files = 1; symbols = 2; imports = 0 });
  upsert_call_edges = λ r es ps. counted 0;
  write_summaries = λ r ss. counted 0;
  upsert_chunks = λ r cs. counted 1;
  update_git_meta = λ r sha. counted tt;
}

-- The walk raises.
abbrev broken : Stages String String
broken = record {
  walk_repo = none;
  resolve_calls = λ ws. some [];
  lsp_resolve = λ ws. none;
  summarize_files = λ ws. some [];
  chunk_and_embed = λ ws. some ([], []);
  git_meta = none;
  rows_saved = true;
  head_saved = true;
}

abbrev file_of : String → String → WalkedFile
file_of path hash = record {
  path = path;
  hash = hash;
  lang = "python";
  lines = 3;
  parse_error = false;
}

-- The write of the head fails.
abbrev no_disk : Stages String String
no_disk = record broken { walk_repo = some (file_of "a.py" "9" ∷ []); head_saved = false }

abbrev all_on : Flags
all_on = record { skip_summaries = false; skip_chunks = false; use_lsp = true }

-- Two rows are stored, `a.py` has changed, `b.py` is gone, and there is no git.
abbrev old_rows : Dict String
old_rows = ("a.py", "1") ∷ ("b.py", "2") ∷ []

abbrev stored_db : Db
stored_db = record empty_db { merkle_files = λ r. old_rows }

abbrev checkout : Checkout
checkout = record {
  rev_parse = raised;
  abbrev_ref = raised;
  diff = λ a b. raised;
  hashes = ("a.py", "9") ∷ [];
}

abbrev start : Stored ℕ
start = record { graph = 0; db = stored_db }

-- The same tree, in a git repository.
abbrev with_commit : Checkout
with_commit = record checkout { rev_parse = exited true "f00"; abbrev_ref = exited true "main" }

abbrev head_change : ChangedSet
head_change = record {
  method = git;
  changes = record { added = []; modified = "a.py" ∷ "b.py" ∷ []; deleted = [] };
  head_sha = "f00";
  branch = "main";
}

-- The embedding of `b.py` failed, so that its old hash stays.
save_state-lookup_example :
    lookup "b.py" (
      get_file_hashes "api" (
        save_state "api" head_change
          (file_of "a.py" "9" ∷ file_of "b.py" "8" ∷ [])
          ("b.py" ∷ [])
          stored_db))
    ≡ (if contains "b.py" ("b.py" ∷ [])
        then lookup "b.py" (get_file_hashes "api" stored_db)
        else last_hash "b.py"
            (file_of "a.py" "9" ∷ file_of "b.py" "8" ∷ [])
            (lookup "b.py" (get_file_hashes "api" stored_db)))
save_state-lookup_example =
    save_state-lookup "api" "b.py" head_change (file_of "a.py" "9" ∷ file_of "b.py" "8" ∷ [])
      ("b.py" ∷ []) stored_db

row_of_b : lookup "b.py" (get_file_hashes "api" stored_db) ≢ none
unfolding get_file_hashes
row_of_b e = cc

ingest_delta_reports_again_example :
    In "b.py"
      (diff_hashes
        (get_file_hashes "api" (ingest_delta counter broken all_on "api" checkout start).1.db)
        (("a.py", "9") ∷ [])).deleted
ingest_delta_reports_again_example =
    ingest_delta_reports_again counter broken all_on "api" checkout start "b.py"
      (("a.py", "9") ∷ []) row_of_b refl
