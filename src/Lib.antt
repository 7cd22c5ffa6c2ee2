-- ===== src/Lib.antt =====
-- A model of AiForge Memory, which keeps a graph of code and of recorded facts about repositories.
-- A scheduler visits each configured repository, brings it up to date with git, and runs a delta
-- ingest in a worker thread: it finds the changed files, walks and parses them, writes symbols, call
-- edges, summaries and chunks to the graph, and records the hashes of the files in a state database.
-- Once a day the scheduler archives facts that nothing has used again. A question about a repository
-- is answered by a context bundle: a translator finds candidate files and symbols and lets a language
-- model choose among them, and the bundle is filled from the graph and cut to a token budget.
--
-- Files and code, by paths from the repository's root:
--   Prelude: lists and texts as Python uses them (`sorted`, with a key in Prelude/Insertion, dicts,
--     `str` methods, `int`).
--   Exec: code that works on a state and may raise; Exec/Yields what holds of its results.
--   Ingest: `IngestResult` of aiforge_memory/features/flow/runner.py.
--   State: the tables of aiforge_memory/core/state.py. State/Rows: the two ways to write rows.
--   Symbol/Walk: `walk_repo`, `lang_for` and their tables of
--     aiforge_memory/features/symbol/extract.py, with `_hash_repo` of
--     aiforge_memory/features/delta/extract.py, which decides the same question.
--   Symbol/Calls: `resolve_calls_with_source` of aiforge_memory/features/symbol/extract_calls.py,
--     with `_resolve_imports_to_files` in Symbol/Calls/Imports.
--   Flow/Calls: `_merge_calls` of aiforge_memory/features/flow/runner.py. Flow/Repo: `ingest_repo`
--     and `_files_needing_summary` of the same file.
--   Delta: aiforge_memory/features/delta/extract.py. Hashes is `_diff_hashes`, GitDiff `_git_diff`,
--     Detect `changed_files` and `_git_head`, Ingest `ingest_delta`; the children hold the proofs.
--   Chunk/Split, Chunk/Embed: `_split` and `_split_doc`, and `chunk_and_embed`, of
--     aiforge_memory/features/chunk/embed.py.
--   Scheduler: aiforge_memory/features/scheduler/runner.py. Config is the list of repositories,
--     Fetch the git polling, Lock the lock files, Timeout `_effective_timeout`, Tick `tick_repo`
--     with its statuses in Tick/Report and its threads as a step relation in Tick/Threads, Loop
--     `run_loop`.
--   Memory/Decay: aiforge_memory/features/memory/decay.py. Memory/Store: the observations of
--     aiforge_memory/features/memory/store.py.
--   Query/Fastpath: aiforge_memory/query/fastpath.py. Query/Translate:
--     aiforge_memory/query/translator.py; Tokens is the query expansion, Rank the fusion and the
--     rerank, Candidates `translate` up to the candidates, Ground the rest of it with `_call_llm`'s
--     payload and `_parse`. Query/Bundle: aiforge_memory/query/bundle.py; Render is the method
--     `render`, Anchors and Fill are `query`, Trim is `_trim_to_budget`. `query` takes the
--     translator as a function.
--   External: aiforge_memory/features/external_ingest/ingest.py. Link:
--     aiforge_memory/features/link/extract.py.
--   Symbol/Summarise: aiforge_memory/features/symbol/summarise.py; Candidates is the choice of the
--     symbols, Answer `_process_one` with its helpers, Run the serial and the concurrent loop. File:
--     aiforge_memory/features/file/extract.py, with File/Store for store.py beside it.
--   Service: aiforge_memory/features/service/extract.py. Json: the values that it and File look at.
--   Lsp: aiforge_memory/features/lsp; Adapters, Client and Resolver are the files of these names, and
--     Index is the resolver's ranges of symbols.
--   Memory/Digest: aiforge_memory/features/memory/digest.py. Eval:
--     aiforge_memory/features/eval/harness.py, over the bundles of Query; Eval/Report is `aggregate`.
--   Tests, Delta/Ingest/Tests and Flow/Repo/Tests: concrete runs.
--
-- Numbers are natural. The scheduler works in milliseconds; a confidence and `per_file_seconds` are in
-- thousandths; configured numbers but the overlap of
-- chunks are taken as not negative. Three loops run on fuel. The windows of a
-- file in Chunk/Split get a round for every line and one more, which is enough for every overlap
-- since the loop advances by a line at least. The headers and the messages in Lsp/Client get a round
-- for every byte of the stream and one more, and each round takes a byte at least; a number is printed
-- with as many rounds as its value and one more. Git, the operating system, the database driver, the
-- parser, the language server, the models, the embedding and the rerank service are parameters: what
-- they answer, or that they raise. So are float arithmetic in Query, where a float is given by the
-- text that Python prints for it, JSON, the tokenizer, and the matches of regular expressions. A
-- write of the state database is committed on its own, or raises and changes nothing; the reads of the
-- state database do not fail.
--
-- One scheduler process is modelled; what another process does between the test of a lock file and
-- its writing is not.
--
-- Not modelled: the command line, the web interface, the Cypher statements and their stores (but
-- for those of the decay, the observations, the digest and the file summaries; those that Query reads
-- by are parameters), the connectors, the process of a language server and its pending requests,
-- prompts and calls of models, backup and health checks, log files, and the daemon's process control.
pub mod Prelude
pub mod Exec
pub mod Ingest
pub mod State
pub mod Symbol
pub mod Flow
pub mod Delta
pub mod Chunk
pub mod Scheduler
pub mod Memory
pub mod Query
pub mod External
pub mod Link
pub mod Json
pub mod Lsp
pub mod Service
pub mod File
pub mod Eval
pub mod Tests
