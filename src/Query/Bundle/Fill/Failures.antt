-- ===== src/Query/Bundle/Fill/Failures.antt =====
-- query/bundle.py: the reads of `query` that raised, as the texts that a bundle notes.
use ai_forge_memory.Prelude.{String, Option, List, [], ◌∷◌, ◌++◌, take, if◌then◌else◌}
use ai_forge_memory.Prelude.Text.{◌&◌}
use ai_forge_memory.Query.{Reply, replied, raised, failure}
use ai_forge_memory.Query.Fastpath.{FastpathHit}
use ai_forge_memory.Query.Translate.{Grounding}
use ai_forge_memory.Query.Bundle.{ContextBundle, SymbolRow}
use ai_forge_memory.Query.Bundle.Anchors.{Reads, guess_symbols, is_nil, or_blank, file_paths}
use ai_forge_memory.Query.Bundle.Fill.{
  call_neighbours, anchor_paths, anchor_symbols, has_anchors, embed_query,
}

-- A read that is made only if it has names to ask for.
abbrev pub asked {ℓ} : {A : Type ℓ} → List A → List String → List String
asked [] errors = []
asked (x ∷ xs) errors = errors

-- The failed reads that bring the symbols: after a failed guess, no other is made.
abbrev pub named_errors : Reads → List String → Reply (List SymbolRow) → List String
named_errors db names (raised exc) = ("symbols: " & exc) ∷ []
named_errors db names (replied rows) = asked names (failure "symbols" (db.symbols_named names))

abbrev pub symbol_errors : Reads → Option FastpathHit → List String → List String
symbol_errors db h names = named_errors db names (guess_symbols db h)

abbrev pub call_errors : Reads → List SymbolRow → List String
call_errors db [] = []
call_errors db (s ∷ ss) = failure "calls" (call_neighbours db s.fqname)

-- The failed reads that bring the anchors.
abbrev pub anchor_errors : Reads → Option FastpathHit → Grounding → List String
anchor_errors db h g =
    let paths = file_paths h g.files in
    asked g.services (failure "services" (db.services_named g.services))
    ++ asked paths (failure "files" (db.files_at paths))
    ++ symbol_errors db h g.symbols

-- The failed reads about the anchors that a bundle has, the embedding of the question among them.
abbrev pub memory_errors : Reads → ContextBundle → List String
memory_errors db b =
    let paths = anchor_paths b in
    let fqnames = anchor_symbols b in
    if has_anchors b
    then failure "decisions" (db.decisions_on (or_blank paths) (or_blank fqnames) 5)
      ++ failure "observations" (db.observations_on (or_blank paths) (or_blank fqnames) 5)
      ++ failure "vector_observations" (embed_query "")
    else []

abbrev pub note_errors : Reads → ContextBundle → List String
note_errors db b =
    let paths = anchor_paths b in
    let fqnames = anchor_symbols b in
    if has_anchors b
    then failure "notes" (db.notes_on paths fqnames 5)
      ++ failure "docs" (db.docs_on paths fqnames 5)
    else []

abbrev pub chunk_errors : Reads → ContextBundle → List String
chunk_errors db b =
    if is_nil (anchor_paths b)
    then []
    else failure "chunks" (db.chunks_at (take 3 (anchor_paths b)) 5)

abbrev pub context_errors : Reads → List String → ContextBundle → List String
context_errors db paths b =
    call_errors db b.symbols
    ++ failure "repo_docs" db.repo_docs
    ++ asked paths (failure "repo_map" (db.defined_at paths))
    ++ chunk_errors db b
    ++ memory_errors db b
    ++ note_errors db b
    ++ failure "cross_repo" (db.linked_repos 8)
