-- ===== src/Query/Bundle/Anchors.antt =====
-- query/bundle.py: the reads of `query`, and the rows of the services, files and symbols that the
-- question is about. A read of the graph database is a parameter: what its Cypher query gives for
-- the repository, or the exception.
use ai_forge_memory.Prelude.{
  ℕ, String, Bool, true, false, ◌&&◌, Option, none, some, List, [], ◌∷◌, ◌++◌, ◌==◌, map,
  if◌then◌else◌, eqb,
}
use Prim.Native.Char.{code}
use ai_forge_memory.Prelude.Dict.{Dict, lookup}
use ai_forge_memory.Prelude.Text.{◌&◌}
use ai_forge_memory.Query.{Reply, replied, raised, failure, or_else, success}
use ai_forge_memory.Query.Fastpath.{HitKind, FastpathHit}
use ai_forge_memory.Query.Bundle.{
  ServiceRow, FileRow, SymbolRow, ChunkRow, DecisionRow, ObservationRow, NoteRow, DocRow,
  CrossRepoRow, ContextBundle,
}

-- The reads that `query` makes: `_services_rows`, `_files_rows`, `_symbols_rows`,
-- `_symbols_by_terminal_name` (by the suffix), the two queries of `_call_neighbours`, then those of
-- `_repo_docs_for`, `_repo_map_for` (a file's path and its symbols), `_chunks_for`,
-- `_decisions_for`, `_observations_for`, the two of `_vector_observations` (for a vector, by
-- personalized PageRank and by distance alone), `_notes_for`, `_docs_for` and `_cross_repo_for`. A number
-- is the `LIMIT`.
pub record Reads : Type 0 where
  pub services_named : List String → Reply (List ServiceRow)
  pub files_at : List String → Reply (List FileRow)
  pub symbols_named : List String → Reply (List SymbolRow)
  pub symbols_ending : String → Reply (List SymbolRow)
  pub callers_of : String → Reply (List String)
  pub callees_of : String → Reply (List String)
  pub repo_docs : Reply (Option (String × String))
  pub defined_at : List String → Reply (List (String × List String))
  pub chunks_at : List String → ℕ → Reply (List ChunkRow)
  pub decisions_on : List String → List String → ℕ → Reply (List DecisionRow)
  pub observations_on : List String → List String → ℕ → Reply (List ObservationRow)
  pub recall_ppr : List String → Reply (List ObservationRow)
  pub nearest_observations : List String → Reply (List ObservationRow)
  pub notes_on : List String → List String → ℕ → Reply (List NoteRow)
  pub docs_on : List String → List String → ℕ → Reply (List DocRow)
  pub linked_repos : ℕ → Reply (List CrossRepoRow)

-- `s.split("::")[-1]`: `part` is what follows the last separator seen so far.
abbrev pub last_part : String → String → String
last_part part String.[] = part
last_part part (String.◌∷◌ c String.[]) = part
last_part part (String.◌∷◌ c (String.◌∷◌ d s)) =
    let split = last_part s s in
    let on = last_part part (String.◌∷◌ d s) in
    if eqb (code c) b':' && eqb (code d) b':' then split else on

-- `s.rsplit(".", 1)[-1]`
abbrev after_dot : String → String → String
after_dot part String.[] = part
after_dot part (String.◌∷◌ c s) = if eqb (code c) b'.' then after_dot s s else after_dot part s

pub terminal_name : String → String
terminal_name s = after_dot s s

-- `if not paths and not fqnames: return []`
abbrev pub is_nil {ℓ} : {A : Type ℓ} → List A → Bool
is_nil [] = true
is_nil (x ∷ xs) = false

-- `paths or [""]`
abbrev pub or_blank : List String → List String
or_blank [] = "" ∷ []
or_blank (x ∷ xs) = x ∷ xs

-- A source's name, if there are rows of it.
abbrev pub source_if {ℓ} : {A : Type ℓ} → String → List A → List String
source_if name [] = []
source_if name (x ∷ xs) = name ∷ []

-- A source's name, if there is a text of it.
abbrev pub source_if_text : String → String → List String
source_if_text name s = if s == "" then [] else name ∷ []

-- `bundle.sources_used` and `bundle.errors` after a source.
abbrev pub note : List String → List String → ContextBundle → ContextBundle
note sources errors b = record b {
  sources_used = b.sources_used ++ sources;
  errors = b.errors ++ errors;
}

-- The services that the grounding names.
unfoldable pub fill_services : Reads → List String → ContextBundle → ContextBundle
fill_services db [] b = b
fill_services db (n ∷ names) b =
    let rows = db.services_named (n ∷ names) in
    note (success "services" rows) (failure "services" rows)
      (record b { services = or_else b.services rows })

-- `float(scores.get(name, 0.0))`
abbrev score_of : Dict String → String → String
score_of scores name = elim (lookup name scores) [ none ↦ "0.0" | some s ↦ s ]

abbrev pub score_file : Dict String → FileRow → FileRow
score_file scores row = record row { score = score_of scores row.path }

abbrev pub score_symbol : Dict String → SymbolRow → SymbolRow
score_symbol scores row = record row { score = score_of scores row.fqname }

-- The paths that are asked for: the one of the question goes first.
abbrev pub file_paths : Option FastpathHit → List String → List String
file_paths none files = files
file_paths (some h) files = elim h.kind [
  | HitKind.file ↦ h.value ∷ files
  | HitKind.symbol ↦ files
  | HitKind.ticket ↦ files
]

unfoldable pub fill_files : Reads → Dict String → List String → ContextBundle → ContextBundle
fill_files db scores [] b = b
fill_files db scores (p ∷ paths) b =
    let rows = db.files_at (p ∷ paths) in
    note (success "files" rows) (failure "files" rows)
      (record b { files = or_else b.files (scored rows) })
  where
    scored : Reply (List FileRow) → Reply (List FileRow)
    scored (replied rows) = replied (map (score_file scores) rows)
    scored (raised exc) = raised exc

-- The read of the symbols that the question itself names, if it names one.
unfoldable pub guess_by : HitKind → String → Reads → Reply (List SymbolRow)
guess_by HitKind.symbol value db = db.symbols_ending ("::" & terminal_name value)
guess_by HitKind.ticket value db = replied []
guess_by HitKind.file value db = replied []

abbrev pub guess_symbols : Reads → Option FastpathHit → Reply (List SymbolRow)
guess_symbols db none = replied []
guess_symbols db (some h) = guess_by h.kind h.value db

-- The symbols that the question itself names, and then before them those of the grounding: a read
-- that raises leaves what was read before it.
unfoldable pub add_named :
    Reads → List String → Reply (List SymbolRow) → ContextBundle → ContextBundle
add_named db names (raised exc) b = note [] (("symbols: " & exc) ∷ []) b
add_named db [] (replied guessed) b = record b { symbols = guessed }
add_named db (n ∷ names) (replied guessed) b =
    let rows = db.symbols_named (n ∷ names) in
    note (success "symbols" rows) (failure "symbols" rows)
      (record b { symbols = or_else [] rows ++ guessed })

abbrev score_symbols : Dict String → ContextBundle → ContextBundle
score_symbols scores b = record b { symbols = map (score_symbol scores) b.symbols }

unfoldable pub fill_symbols :
    Reads → Dict String → Option FastpathHit → List String → ContextBundle → ContextBundle
fill_symbols db scores h names b = score_symbols scores (add_named db names (guess_symbols db h) b)
