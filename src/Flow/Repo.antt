-- ===== src/Flow/Repo.antt =====
-- features/flow/runner.py: `ingest_repo` and `_files_needing_summary`. As in `ingest_delta`, the
-- graph's writers and the stages that read the repository are parameters, and each may raise; those
-- that the two ingests share are shared here.
pub mod Outcome
pub mod Retry
mod Tests
use ai_forge_memory.Prelude.{
  ℕ, String, Bool, true, false, not, ◌||◌, ◌&&◌, Option, none, some, List, [], ◌∷◌, ◌==◌, map, keep,
  if◌then◌else◌,
}
use ai_forge_memory.Prelude.Dict.{Dict, lookup}
use ai_forge_memory.Prelude.Sort.{contains}
use ai_forge_memory.Exec.{Exec, pure, lift, attempt, rescue, ◌>>=◌, ◌>>◌}
use ai_forge_memory.Ingest.{IngestResult, ingest_result}
use ai_forge_memory.State.{
  Db, get_file_hashes, get_repo_pack_sha, set_repo_pack_sha, set_repo_git_head,
}
use ai_forge_memory.Symbol.Walk.{WalkedFile}
use ai_forge_memory.Delta.Ingest.{
  Driver, Stages, SymbolCounts, Stored, null, is_blank, on_graph, on_db, fresh_hashes, save_rows,
  layered, write_chunks,
}

-- The writers that only the full ingest uses, and its read of the paths that have a summary.
pub record Writers (G Summary Chunk About Draft : Type 0) : Type 0 where
  pub common : Driver G Summary Chunk
  pub upsert_repo : String → About → String → String × String → Exec G (Unit {0})
  pub upsert_services : String → List Draft → Exec G (ℕ × ℕ)
  pub write_summaries : String → List Summary → Exec G (ℕ × ℕ)
  pub summarized_paths : String → Exec G (List String)

-- The stages that only the full ingest has. `pack` gives a text and its hash; `git_meta` and
-- `git_meta_after` are the head and the branch that the two reads give; `pack_saved` tells whether the
-- write of the pack's hash succeeds.
pub record Readers (Pack Summary Chunk About Draft : Type 0) : Type 0 where
  pub common : Stages Summary Chunk
  pub pack : Option (Pack × String)
  pub summarize : Pack → Option About
  pub git_meta : Option (String × String)
  pub extract_services : Pack → Option (List Draft)
  pub git_meta_after : Option (String × String)
  pub pack_saved : Bool

pub record Options : Type 0 where
  pub force : Bool
  pub skip_services : Bool
  pub skip_symbols : Bool
  pub skip_summaries : Bool
  pub skip_chunks : Bool
  pub use_lsp : Bool

-- `prev_hashes.get(wf.path) != wf.hash or wf.path not in summarized`
abbrev pub has_hash : String → Option String → Bool
has_hash h none = false
has_hash h (some k) = k == h

unfoldable pub needs_summary : Dict String → List String → WalkedFile → Bool
needs_summary prev summarized wf =
    not (has_hash wf.hash (lookup wf.path prev)) || not (contains wf.path summarized)

-- The test of the cold-loop guard: every file failed.
abbrev pub all_failed : List WalkedFile → List String → Bool
all_failed walked bad = not (null walked) && null (fresh_hashes bad walked) && not (null bad)

-- The hash of the pack, unless every file failed.
unfoldable pub save_pack : String → String → List WalkedFile → List String → Db → Db
save_pack repo sha walked bad db =
    if all_failed walked bad then db else set_repo_pack_sha repo sha db

-- The rows of the files that did not fail, and the hash of the pack, unless every file failed.
unfoldable pub persist : String → String → List WalkedFile → List String → Db → Db
persist repo sha walked bad db = save_pack repo sha walked bad (save_rows repo walked bad db)

abbrev pub is_unchanged : String → Option String → Bool
is_unchanged sha none = false
is_unchanged sha (some prev) = prev == sha

abbrev no_counts : SymbolCounts
no_counts = record { files = 0; symbols = 0; imports = 0 }

module _ {G Pack Summary Chunk About Draft : Type 0} (d : Writers G Summary Chunk About Draft)
    (t : Readers Pack Summary Chunk About Draft) where
  pub files_needing_summary : String → List WalkedFile → Exec (Stored G) (List WalkedFile)
  files_needing_summary repo walked s =
      let prev = get_file_hashes repo s.db in
      if null prev
      then (some walked, s)
      else rescue walked
          (do
            paths ← on_graph (d.summarized_paths repo)
            pure (keep (needs_summary prev paths) walked))
          s

  -- Stage 2.
  pub write_repo : String → Pack → String → Exec (Stored G) (Unit {0})
  write_repo repo text sha = do
    about ← lift (t.summarize text)
    head ← lift t.git_meta
    on_graph (d.upsert_repo repo about sha head)

  -- Stage 3.
  pub write_services : Options → String → Pack → Exec (Stored G) (ℕ × ℕ)
  write_services o repo text =
      if o.skip_services
      then pure (0, 0)
      else (do drafts ← lift (t.extract_services text); on_graph (d.upsert_services repo drafts))

  -- Stages 4 and 5: the walked files, their counts, and the count of the call edges.
  pub write_symbols : Options → String → Exec (Stored G) (List WalkedFile × SymbolCounts × ℕ)
  write_symbols o repo = if o.skip_symbols then pure ([], no_counts, 0) else (do
    walked ← lift t.common.walk_repo
    counts ← on_graph (d.common.upsert_files_and_symbols repo walked)
    edges ← lift (t.common.resolve_calls walked)
    calls ← on_graph (
        d.common.upsert_call_edges repo (layered o.use_lsp edges (t.common.lsp_resolve walked))
          (map (λ wf. wf.path) walked))
    pure (walked, counts, calls))

  summarize_some : String → List WalkedFile → Exec (Stored G) (ℕ × ℕ)
  summarize_some repo todo = if null todo then pure (0, 0) else (do
    summaries ← lift (t.common.summarize_files todo)
    on_graph (d.write_summaries repo summaries))

  -- Stage 6.
  pub write_file_summaries : Options → String → List WalkedFile → Exec (Stored G) (ℕ × ℕ)
  unfolding summarize_some files_needing_summary
  write_file_summaries o repo walked =
      if o.skip_summaries || null walked
      then pure (0, 0)
      else (do todo ← files_needing_summary repo walked; summarize_some repo todo)

  -- Stage 7: the count of the chunks, and the files whose embedding failed.
  pub write_file_chunks : Options → String → List WalkedFile → Exec (Stored G) (ℕ × List String)
  write_file_chunks o repo walked = if o.skip_chunks || null walked then pure (0, []) else (do
    pieces ← lift (t.common.chunk_and_embed walked)
    write_chunks d.common t.common repo pieces)

  -- The second read of git's state.
  pub record_head : String → Exec (Stored G) (Unit {0})
  record_head repo = attempt (do
    head ← lift t.git_meta_after
    if is_blank head.0
        then pure tt
        else on_db t.common.head_saved (set_repo_git_head repo head.0 head.1))

  -- What follows the test of the pack's hash, up to the writes of the state database.
  pub index_repo :
      Options
      → String
      → Pack
      → String
      → Exec (Stored G) (IngestResult × List WalkedFile × List String)
  unfolding write_repo write_services write_symbols write_file_summaries write_file_chunks
  index_repo o repo text sha = do
    write_repo repo text sha
    services ← write_services o repo text
    walked ← write_symbols o repo
    summaries ← write_file_summaries o repo walked.0
    chunked ← write_file_chunks o repo walked.0
    pure (
      record (ingest_result "indexed" sha repo) {
        services_count = services.0;
        file_edges_count = services.1;
        files_count = walked.1.files;
        symbols_count = walked.1.symbols;
        imports_count = walked.1.imports;
        calls_count = walked.2;
        summaries_updated = summaries.0;
        summaries_skipped = summaries.1;
        chunks_count = chunked.0;
      },
      walked.0,
      chunked.1,
    )

  -- The rest of the run.
  pub finish_repo :
      String → String → IngestResult × List WalkedFile × List String → Exec (Stored G) IngestResult
  unfolding record_head
  finish_repo repo sha done = do
    on_db (t.common.rows_saved || null (fresh_hashes done.2 done.1)) (save_rows repo done.1 done.2)
    on_db (t.pack_saved || all_failed done.1 done.2) (save_pack repo sha done.1 done.2)
    record_head repo
    pure done.0

  run_packed : Options → String → Pack × String → Exec (Stored G) IngestResult
  unfolding index_repo finish_repo
  run_packed o repo packed s =
      if is_unchanged packed.1 (get_repo_pack_sha repo s.db) && not o.force
      then (some (ingest_result "skipped_unchanged" packed.1 repo), s)
      else (do done ← index_repo o repo packed.0 packed.1; finish_repo repo packed.1 done) s

  pub ingest_repo : Options → String → Exec (Stored G) IngestResult
  unfolding run_packed
  ingest_repo o repo = do packed ← lift t.pack; run_packed o repo packed
