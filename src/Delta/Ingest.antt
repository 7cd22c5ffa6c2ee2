-- ===== src/Delta/Ingest.antt =====
-- features/delta/extract.py: `ingest_delta`. The graph and the stages that read the files are
-- parameters: each call may raise, and a call of the graph may have changed it before it does. A
-- write of the state database is committed on its own, or raises and changes nothing; the reads of the
-- state database do not raise.
pub mod Store
pub mod Progress
pub mod Stale
mod Tests
use ai_forge_memory.Prelude.{
  ℕ, String, Bool, true, false, not, ◌||◌, ◌&&◌, Option, none, some, List, [], ◌∷◌, ◌++◌, ◌==◌, map,
  keep, if◌then◌else◌,
}
use ai_forge_memory.Prelude.Dict.{Dict}
use ai_forge_memory.Prelude.Sort.{contains, sorted}
use ai_forge_memory.Exec.{Exec, pure, lift, attempt, modify, ◌>>=◌, ◌>>◌}
use ai_forge_memory.Ingest.{IngestResult, ingest_result}
use ai_forge_memory.State.{Db, set_repo_git_head, upsert_file_hashes}
use ai_forge_memory.Symbol.Walk.{WalkedFile}
use ai_forge_memory.Flow.Calls.{CallEdge, merge_calls}
use ai_forge_memory.Delta.Hashes.{Changes}
use ai_forge_memory.Delta.Detect.{git, merkle, cold, ChangedSet, Checkout, changed_files, to_index}

pub record SymbolCounts : Type 0 where
  pub files : ℕ
  pub symbols : ℕ
  pub imports : ℕ

-- The writers of the graph, over any graph, summaries and chunks.
pub record Driver (G Summary Chunk : Type 0) : Type 0 where
  pub detach_files : String → List String → Exec G (Unit {0})
  pub upsert_files_and_symbols : String → List WalkedFile → Exec G SymbolCounts
  pub upsert_call_edges : String → List CallEdge → List String → Exec G ℕ
  pub write_summaries : String → List Summary → Exec G ℕ
  pub upsert_chunks : String → List Chunk → Exec G ℕ
  pub update_git_meta : String → String → Exec G (Unit {0})

-- The stages that read the files; `none` where one raises. `chunk_and_embed` also names the files
-- whose embedding failed, `git_meta` is the head that it reads. `rows_saved` and `head_saved` tell
-- whether the writes of the rows of merkle_files and of the git head succeed.
pub record Stages (Summary Chunk : Type 0) : Type 0 where
  pub walk_repo : Option (List WalkedFile)
  pub resolve_calls : List WalkedFile → Option (List CallEdge)
  pub lsp_resolve : List WalkedFile → Option (List CallEdge)
  pub summarize_files : List WalkedFile → Option (List Summary)
  pub chunk_and_embed : List WalkedFile → Option (List Chunk × List String)
  pub git_meta : Option String
  pub rows_saved : Bool
  pub head_saved : Bool

pub record Flags : Type 0 where
  pub skip_summaries : Bool
  pub skip_chunks : Bool
  pub use_lsp : Bool

pub record Stored (G : Type 0) : Type 0 where
  pub graph : G
  pub db : Db

abbrev pub null {ℓ} : {A : Type ℓ} → List A → Bool
null [] = true
null (x ∷ xs) = false

abbrev pub is_blank : String → Bool
is_blank s = s == ""

unfoldable pub on_graph : {G A : Type 0} → Exec G A → Exec (Stored G) A
on_graph m s = let (r, g) = m s.graph in (r, record s { graph = g })

unfoldable pub on_db : {G : Type 0} → Bool → (Db → Db) → Exec (Stored G) (Unit {0})
on_db ok f s = if ok then (some tt, record s { db = f s.db }) else (none, s)

-- `[wf for wf in walked if wf.path in target]`, as `_walk_subset`.
unfoldable pub walk_subset : List String → List WalkedFile → List WalkedFile
walk_subset paths = keep (λ wf. contains wf.path paths)

-- `{wf.path: wf.hash for wf in walked if wf.path not in failed}`
unfoldable pub fresh_hashes : List String → List WalkedFile → Dict String
fresh_hashes bad [] = []
fresh_hashes bad (wf ∷ ws) =
    let rest = fresh_hashes bad ws in
    if contains wf.path bad then rest else (wf.path, wf.hash) ∷ rest

-- The edges of the heuristic, with those of the language server where it is used and does not raise.
abbrev pub layered : Bool → List CallEdge → Option (List CallEdge) → List CallEdge
layered false edges lsp = edges
layered true edges none = edges
layered true edges (some more) = merge_calls edges more

-- The rows of the files that did not fail.
unfoldable pub save_rows : String → List WalkedFile → List String → Db → Db
save_rows repo walked bad db =
    if null walked then db else upsert_file_hashes repo (fresh_hashes bad walked) db

-- The git head, if one was read.
abbrev pub save_head : String → ChangedSet → Db → Db
save_head repo cs db =
    if is_blank cs.head_sha then db else set_repo_git_head repo cs.head_sha cs.branch db

-- The two writes of the state database that close a run.
unfoldable pub save_state : String → ChangedSet → List WalkedFile → List String → Db → Db
save_state repo cs walked bad db = save_head repo cs (save_rows repo walked bad db)

module _ {G Summary Chunk : Type 0} (d : Driver G Summary Chunk) (t : Stages Summary Chunk) where
  unfoldable pub write_chunks :
      String → List Chunk × List String → Exec (Stored G) (ℕ × List String)
  write_chunks repo ([], bad) = pure (0, bad)
  write_chunks repo (c ∷ cs, bad) = do n ← on_graph (d.upsert_chunks repo (c ∷ cs)); pure (n, bad)

  -- The block under the first `if walked`: the counts, and the files whose embedding failed.
  pub index_walked : Flags → String → List WalkedFile → Exec (Stored G) (IngestResult × List String)
  unfolding write_chunks
  index_walked o repo walked = do
    counts ← on_graph (d.upsert_files_and_symbols repo walked)
    edges ← lift (t.resolve_calls walked)
    calls ← on_graph (
        d.upsert_call_edges repo (layered o.use_lsp edges (t.lsp_resolve walked))
          (map (λ wf. wf.path) walked))
    updated ← if o.skip_summaries then pure 0 else (do
      summaries ← lift (t.summarize_files walked)
      on_graph (d.write_summaries repo summaries))
    chunked ←
        if o.skip_chunks
        then pure (0, [])
        else (do pieces ← lift (t.chunk_and_embed walked); write_chunks repo pieces)
    pure (
      record (ingest_result "delta_applied" "" repo) {
        files_count = counts.files;
        symbols_count = counts.symbols;
        imports_count = counts.imports;
        calls_count = calls;
        summaries_updated = updated;
        chunks_count = chunked.0;
      },
      chunked.1,
    )

  index_if_any : Flags → String → List WalkedFile → Exec (Stored G) (IngestResult × List String)
  unfolding index_walked
  index_if_any o repo [] = pure (ingest_result "delta_applied" "" repo, [])
  index_if_any o repo (w ∷ ws) = index_walked o repo (w ∷ ws)

  -- The refresh of the Repo node.
  refresh_meta : String → Exec (Stored G) (Unit {0})
  refresh_meta repo = attempt (do
    sha ← lift t.git_meta
    if is_blank sha then pure tt else on_graph (d.update_git_meta repo sha))

  -- What follows the block under the first `if walked`.
  close_run :
      String
      → ChangedSet
      → List WalkedFile
      → IngestResult × List String
      → Exec (Stored G) IngestResult
  unfolding refresh_meta
  close_run repo cs subset indexed = do
    on_db (t.rows_saved || null (fresh_hashes indexed.1 subset)) (save_rows repo subset indexed.1)
    on_db (t.head_saved || is_blank cs.head_sha) (save_head repo cs)
    refresh_meta repo
    pure (record (indexed.0) { pack_sha = cs.head_sha })

  index_subset : Flags → String → ChangedSet → List WalkedFile → Exec (Stored G) IngestResult
  unfolding index_if_any close_run
  index_subset o repo cs walked = do
    let subset = walk_subset (sorted (to_index cs.changes)) walked
    indexed ← index_if_any o repo subset
    close_run repo cs subset indexed

  detach_deleted : String → ChangedSet → Exec (Stored G) (Unit {0})
  detach_deleted repo cs =
      if null cs.changes.deleted then pure tt else on_graph (d.detach_files repo cs.changes.deleted)

  walk_and_index : Flags → String → ChangedSet → Exec (Stored G) IngestResult
  unfolding index_subset
  walk_and_index o repo cs = do walked ← lift t.walk_repo; index_subset o repo cs walked

  -- The run after the two early returns.
  pub apply_changes : Flags → String → ChangedSet → Exec (Stored G) IngestResult
  unfolding detach_deleted walk_and_index
  apply_changes o repo cs = do detach_deleted repo cs; walk_and_index o repo cs

  -- A run that finds nothing to do.
  touch_head : String → ChangedSet → Exec (Stored G) IngestResult
  touch_head repo cs = do
    on_db (t.head_saved || is_blank cs.head_sha) (save_head repo cs)
    pure (ingest_result "no_changes" "" repo)

  dispatch : Flags → String → ChangedSet → Exec (Stored G) IngestResult
  unfolding touch_head apply_changes
  dispatch o repo cs = elim cs.method [
    | cold ↦ pure (ingest_result "cold_start_required" "" repo)
    | _ ↦
        if null (to_index cs.changes) && null cs.changes.deleted
        then touch_head repo cs
        else apply_changes o repo cs
  ]

  pub ingest_delta : Flags → String → Checkout → Exec (Stored G) IngestResult
  unfolding dispatch
  ingest_delta o repo c s = dispatch o repo (changed_files c repo s.db) s
