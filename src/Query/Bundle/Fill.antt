-- ===== src/Query/Bundle/Fill.antt =====
-- query/bundle.py: `query` fills a `ContextBundle`, source by source, and trims it.
pub mod Failures
pub mod Kept
pub mod Trace
use ai_forge_memory.Prelude.{
  ℕ, String, Bool, true, false, not, ◌&&◌, ◌||◌, Option, none, some, List, [], ◌∷◌, ◌++◌, ◌==◌, map,
  take, if◌then◌else◌, eqb,
}
use Prim.Native.Char.{code}
use ai_forge_memory.Prelude.Dict.{Dict, lookup}
use ai_forge_memory.Prelude.Sort.{contains}
use ai_forge_memory.Prelude.Text.{◌&◌, join_with}
use ai_forge_memory.Query.{Reply, replied, raised, failure, or_else, success}
use ai_forge_memory.Query.Fastpath.{HitKind, FastpathHit, Searches, detect, show_hit}
use ai_forge_memory.Query.Bundle.Trim.{trim_to_budget}
use ai_forge_memory.Query.Translate.{Grounding}
use ai_forge_memory.Query.Bundle.{
  ServiceRow, FileRow, SymbolRow, NeighbourRow, ChunkRow, DecisionRow, ObservationRow, NoteRow,
  DocRow, CrossRepoRow, ContextBundle, empty_bundle,
}
use ai_forge_memory.Query.Bundle.Anchors.{
  Reads, last_part, is_nil, or_blank, source_if, source_if_text, note, file_paths, fill_services,
  fill_files, fill_symbols,
}

neighbour : String → String → NeighbourRow
neighbour anchor fqname = record { fqname = fqname; anchor = anchor }

-- `_call_neighbours`: neither list is kept where one of the two reads raises.
unfoldable pub call_neighbours : Reads → String → Reply (List NeighbourRow × List NeighbourRow)
unfolding neighbour
call_neighbours db fqname = elim (db.callers_of fqname) [
  | raised exc ↦ raised exc
  | replied callers ↦ elim (db.callees_of fqname) [
    | raised exc ↦ raised exc
    | replied callees ↦ replied (map (neighbour fqname) callers, map (neighbour fqname) callees)
  ]
]

-- The callers and callees of the first symbol.
unfoldable pub add_calls : Reads → List SymbolRow → ContextBundle → ContextBundle
add_calls db [] b = b
add_calls db (s ∷ ss) b =
    let found = call_neighbours db s.fqname in
    let both = or_else (b.callers, b.callees) found in
    note (success "calls" found) (failure "calls" found)
      (record b { callers = both.0; callees = both.1 })

unfoldable pub fill_calls : Reads → ContextBundle → ContextBundle
fill_calls db b = add_calls db b.symbols b

-- `_repo_docs_for`: two empty texts where the repository has no node.
unfoldable pub repo_docs_of : Reply (Option (String × String)) → Reply (String × String)
repo_docs_of (raised exc) = raised exc
repo_docs_of (replied none) = replied ("", "")
repo_docs_of (replied (some d)) = replied d

unfoldable pub fill_repo_docs : Reads → ContextBundle → ContextBundle
fill_repo_docs db b =
    let found = repo_docs_of db.repo_docs in
    let both = or_else (b.runbook_md, b.conventions_md) found in
    note (source_if_text "runbook" both.0 ++ source_if_text "conventions" both.1)
      (failure "repo_docs" found) (record b { runbook_md = both.0; conventions_md = both.1 })

-- `_repo_map_for`: a line for each file, and one for each of its symbols that has a name.
abbrev map_lines : List (String × List String) → List String
map_lines [] = []
map_lines ((path, symbols) ∷ rows) = (path & ":") ∷ (symbol_lines symbols ++ map_lines rows)
  where
    symbol_lines : List String → List String
    symbol_lines [] = []
    symbol_lines (s ∷ ss) =
        let more = symbol_lines ss in if s == "" then more else ("  - " & last_part s s) ∷ more

abbrev map_of : Reply (List (String × List String)) → String
map_of (replied rows) = join_with "\n" (map_lines rows)
map_of (raised exc) = ""

unfoldable pub fill_repo_map : Reads → List String → ContextBundle → ContextBundle
fill_repo_map db [] b = b
fill_repo_map db (p ∷ paths) b =
    let rows = db.defined_at (p ∷ paths) in
    let shown = map_of rows in
    note (source_if_text "repo_map" shown) (failure "repo_map" rows) (record b { repo_map = shown })

abbrev pub anchor_paths : ContextBundle → List String
anchor_paths b = map (λ (f : FileRow). f.path) b.files

abbrev pub anchor_symbols : ContextBundle → List String
anchor_symbols b = map (λ (s : SymbolRow). s.fqname) b.symbols

-- The chunks of the first three files.
unfoldable pub fill_chunks : Reads → ContextBundle → ContextBundle
fill_chunks db b =
    let rows = db.chunks_at (take 3 (anchor_paths b)) 5 in
    let chunks = or_else [] rows in
    if is_nil (anchor_paths b)
    then b
    else note (source_if "chunks" chunks) (failure "chunks" rows) (record b { chunks = chunks })

-- `translator._embed_query(text)`: the translator declares no such function.
unfoldable pub embed_query : String → Reply (List String)
embed_query text = raised "module 'aiforge_memory.query.translator' has no attribute '_embed_query'"

-- `_vector_observations`: the rows, and the errors of the reads that raised.
unfoldable pub vector_observations : Reads → List String → List ObservationRow × List String
vector_observations db vec = elim (db.recall_ppr vec) [
  | replied rows ↦ elim rows [ [] ↦ nearest [] | r ∷ rs ↦ (r ∷ rs, []) ]
  | raised exc ↦ nearest (("vector_observations(ppr): " & exc) ∷ [])
]
  where
    nearest : List String → List ObservationRow × List String
    nearest errors =
        let rows = db.nearest_observations vec in
        (or_else [] rows, errors ++ failure "vector_observations" rows)

-- The ids of the observations that have one.
abbrev known_ids : List ObservationRow → List String
known_ids [] = []
known_ids (o ∷ os) = if o.id == "" then known_ids os else o.id ∷ known_ids os

-- The recalled observations whose id is not known.
abbrev pub unknown : List String → List ObservationRow → List ObservationRow
unknown ids [] = []
unknown ids (o ∷ os) = if contains o.id ids then unknown ids os else o ∷ unknown ids os

-- The observations, with those that the vector of the question recalls.
unfoldable pub add_recalled :
    Reads → Reply (List String) → List ObservationRow → List ObservationRow × List String
add_recalled db (raised exc) linked = (linked, ("vector_observations: " & exc) ∷ [])
add_recalled db (replied []) linked = (linked, [])
add_recalled db (replied (x ∷ vec)) linked =
    let found = vector_observations db (x ∷ vec) in
    (linked ++ unknown (known_ids linked) found.0, found.1)

abbrev pub has_anchors : ContextBundle → Bool
has_anchors b = not (is_nil (anchor_paths b)) || not (is_nil (anchor_symbols b))

-- The decisions and observations about the anchors.
unfoldable pub fill_memory : Reads → String → ContextBundle → ContextBundle
fill_memory db text b =
    let paths = or_blank (anchor_paths b) in
    let fqnames = or_blank (anchor_symbols b) in
    let decided = db.decisions_on paths fqnames 5 in
    let linked = db.observations_on paths fqnames 5 in
    let decisions = or_else [] decided in
    let both = add_recalled db (embed_query text) (or_else [] linked) in
    if has_anchors b
    then note (source_if "decisions" decisions ++ source_if "observations" both.0)
        (failure "decisions" decided ++ failure "observations" linked ++ both.1)
        (record b { decisions = decisions; observations = both.0 })
    else b

-- The notes and documents about the anchors.
unfoldable pub fill_notes : Reads → ContextBundle → ContextBundle
fill_notes db b =
    let noted = db.notes_on (anchor_paths b) (anchor_symbols b) 5 in
    let read = db.docs_on (anchor_paths b) (anchor_symbols b) 5 in
    let notes = or_else [] noted in
    let docs = or_else [] read in
    if has_anchors b
    then note (source_if "notes" notes ++ source_if "docs" docs)
        (failure "notes" noted ++ failure "docs" read) (record b { notes = notes; docs = docs })
    else b

unfoldable pub fill_cross_repo : Reads → ContextBundle → ContextBundle
fill_cross_repo db b =
    let rows = db.linked_repos 8 in
    let linked = or_else [] rows in
    note (source_if "cross_repo" linked) (failure "cross_repo" rows)
      (record b { cross_repo = linked })

-- The bundle with the answer of the translator in it.
unfoldable pub start_bundle : String → Option FastpathHit → Grounding → ContextBundle
start_bundle repo h g =
    note (translator_source g.errors) g.errors
      (record (empty_bundle repo) { fastpath_hit = show_hit h; intent = g.intent })
  where
    translator_source : List String → List String
    translator_source [] = "translator" ∷ []
    translator_source (e ∷ es) = "translator(partial)" ∷ []

-- The anchors: services, files, symbols.
unfoldable pub fill_anchors : Reads → Option FastpathHit → Grounding → ContextBundle → ContextBundle
fill_anchors db h g b =
    fill_symbols db g.symbol_scores h g.symbols
      (fill_files db g.file_scores (file_paths h g.files) (fill_services db g.services b))

-- What stands around the anchors: calls, the repository's texts, chunks, memory, linked repositories.
unfoldable pub fill_context :
    Reads → String → Option FastpathHit → Grounding → ContextBundle → ContextBundle
fill_context db text h g b = fill_cross_repo db (
    fill_notes db (
      fill_memory db text (
        fill_chunks db
          (fill_repo_map db (file_paths h g.files) (fill_repo_docs db (fill_calls db b))))))

-- The bundle before it is trimmed.
unfoldable pub fill : Reads → String → String → Option FastpathHit → Grounding → ContextBundle
fill db repo text h g = fill_context db text h g (fill_anchors db h g (start_bundle repo h g))

-- `query`: an exception of the translator is not caught.
unfoldable pub query :
    (String → Reply ℕ)
    → Reads
    → Searches
    → (String → Reply Grounding)
    → String
    → String
    → ℕ
    → Reply ContextBundle
query count db re translate text repo token_budget = elim (translate text) [
  | raised exc ↦ raised exc
  | replied g ↦ trim_to_budget count token_budget (fill db repo text (detect re text) g)
]
