-- ===== src/Ingest.antt =====
-- features/flow/runner.py: what an ingest reports. `delta_applied`, `no_changes`, `indexed`,
-- `skipped_unchanged` and `cold_start_required` are the statuses that the two ingests return.
use ai_forge_memory.Prelude.{ℕ, String}

pub record IngestResult : Type 0 where
  pub status : String
  pub pack_sha : String
  pub repo : String
  pub services_count : ℕ
  pub file_edges_count : ℕ
  pub files_count : ℕ
  pub symbols_count : ℕ
  pub imports_count : ℕ
  pub calls_count : ℕ
  pub summaries_updated : ℕ
  pub summaries_skipped : ℕ
  pub chunks_count : ℕ

-- The dataclass's defaults.
abbrev pub ingest_result : String → String → String → IngestResult
ingest_result status sha repo = record {
  status = status;
  pack_sha = sha;
  repo = repo;
  services_count = 0;
  file_edges_count = 0;
  files_count = 0;
  symbols_count = 0;
  imports_count = 0;
  calls_count = 0;
  summaries_updated = 0;
  summaries_skipped = 0;
  chunks_count = 0;
}
