-- ===== src/Tests/Outside.antt =====
-- The external sources and the edges between repositories at concrete inputs.
use ai_forge_memory.Prelude.{String, true, none, List, [], ◌∷◌, ◌≡◌, ◌≢◌, ◌↔◌, refl}
use ai_forge_memory.Prelude.Sort.{In, sorted, insert_sorted}
use ai_forge_memory.Prelude.Text.{stripped}
use ai_forge_memory.Query.{replied}
use ai_forge_memory.External.{
  Outside, Fetched, FileRead, resolve_source, Ingested, paragraphs, merge, chunk, call_upsert_doc,
  write_doc, write_note, write_notes, is_ok, ingest_external_source,
}
use ai_forge_memory.External.Chunks.{IsGrouping, chunk-IsGrouping}
use ai_forge_memory.External.Answer.{ingest_external_source_no_document}
use ai_forge_memory.Link.{
  RepoEvidence, CrossRepoEdge, Via, served_by, shared_by, edges_from, compute_edges,
}
use ai_forge_memory.Link.Edges.{Links, compute_edges_iff}

-- A file of three paragraphs.
abbrev outside : Outside
outside = record {
  fetch = λ s. Fetched.url_error "down";
  read_file = λ s. FileRead.read "one\n\ntwo\n\nthree" s;
  split_blank = λ t. "one" ∷ " two " ∷ "" ∷ "three" ∷ [];
  upsert_note = λ title body tags. replied "note_1";
  embed_fn = none;
  str = λ n. "0";
  uuid_hex = "0123456789";
}

chunks_of_three : chunk outside 8 "one\n\ntwo\n\nthree" ≡ "one\n\ntwo" ∷ "three" ∷ []
unfolding chunk merge stripped
chunks_of_three = refl

chunk-IsGrouping_example :
    IsGrouping 8
      (paragraphs ("one" ∷ " two " ∷ "" ∷ "three" ∷ []))
      (chunk outside 8 "one\n\ntwo\n\nthree")
unfolding stripped
chunk-IsGrouping_example = chunk-IsGrouping outside 8 "one\n\ntwo\n\nthree" refl

abbrev answer : Ingested
answer = record {
  ok = true;
  doc_id = none;
  note_ids = "note_1" ∷ "note_1" ∷ [];
  errors = "upsert_doc_failed: upsert_doc() got an unexpected keyword argument 'summary'" ∷ [];
}

ingest_external_source_no_document_example :
    (answer.doc_id ≡ none) × (answer.errors ≢ []) × (answer.ok ≡ is_ok answer.note_ids)
unfolding ingest_external_source resolve_source chunk merge stripped write_doc call_upsert_doc
    write_notes write_note
ingest_external_source_no_document_example =
    ingest_external_source_no_document outside 8 "notes.txt" "manual" none [] answer refl

abbrev silent : String → RepoEvidence
silent repo = record {
  repo = repo;
  http_emits = [];
  http_consumes = [];
  nats_emits = [];
  nats_consumes = [];
  collections = [];
}

-- `web` calls a path that `api` serves, and both use one collection.
abbrev both : List RepoEvidence
both =
    record (silent "api") { http_emits = "/users" ∷ "/auth" ∷ []; collections = "users" ∷ [] }
    ∷ record (silent "web") { http_consumes = "/users" ∷ []; collections = "users" ∷ [] }
    ∷ []

abbrev users_edge : CrossRepoEdge
users_edge = record {
  src = "api";
  dst = "web";
  via = Via.http;
  evidence = "/users" ∷ [];
  overlap = 1;
  universe = 2;
}

edges_of_both :
    compute_edges both
    ≡ users_edge
      ∷ record users_edge { via = Via.shared_collection; evidence = "users" ∷ []; universe = 1 }
      ∷ []
unfolding compute_edges edges_from served_by shared_by sorted insert_sorted
edges_of_both = refl

compute_edges_iff_example :
    In users_edge (compute_edges both)
    ↔ ((a : RepoEvidence) × In a both × ((b : RepoEvidence) × In b both × Links a b users_edge))
compute_edges_iff_example = compute_edges_iff both users_edge
