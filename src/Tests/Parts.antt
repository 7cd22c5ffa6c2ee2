-- ===== src/Tests/Parts.antt =====
-- The walk, the chunks, the call edges and the decay at concrete inputs.
use ai_forge_memory.Prelude.{
  ℕ, false, inl, inr, ◌==◌, if◌then◌else◌, ◌-◌, ◌*◌, ◌≤◌, min, true, none, some, List, [], ◌∷◌,
  ◌++◌, ◌≡◌, refl, arith,
}
use ai_forge_memory.Prelude.Dict.{insert_all}
use ai_forge_memory.Prelude.Text.{Text, codes}
use ai_forge_memory.Symbol.Walk.{WalkedFile, FileEntry, walk_repo, hash_repo, is_skipped}
use ai_forge_memory.Symbol.Walk.Agreement.{hashes_of, hash_repo-walk_repo}
use ai_forge_memory.Flow.Calls.{CallEdge, merge_calls}
use ai_forge_memory.Flow.Calls.Best.{highest, count, merge_calls_best}
use ai_forge_memory.Chunk.Split.{pos, negsuc, split, all_windows, windows}
use ai_forge_memory.Chunk.Embed.{Machine, Sizes, chunk_and_embed}
use ai_forge_memory.Chunk.Embed.Runs.{IsChunking, chunk_and_embed-IsChunking}
use ai_forge_memory.Chunk.Embed.Whole.{Returns, chunk_and_embed_lines}
use ai_forge_memory.Memory.Decay.{Observation, day, run_decay}
use ai_forge_memory.Memory.Decay.Drain.{count_stale, run_decay_counts}

abbrev five_lines : List Text
five_lines = codes "a" ∷ codes "b" ∷ codes "c" ∷ codes "d" ∷ codes "e" ∷ []

abbrev walked_files : List WalkedFile
walked_files =
    record { path = "b.py"; hash = "1"; lang = "python"; lines = 9; parse_error = true }
    ∷ record { path = "a.py"; hash = "2"; lang = "python"; lines = 5; parse_error = false }
    ∷ []

abbrev a_py : WalkedFile
a_py = record { path = "a.py"; hash = "2"; lang = "python"; lines = 5; parse_error = false }

abbrev disk : Machine
disk = record {
  read = λ p. if p == "a.py" then some (record { bytes = 9; lines = five_lines }) else none;
  sha256 = λ s. s;
  str = λ n. "n";
}

abbrev sizes : Sizes
sizes = record {
  max_file_bytes = 100;
  doc_max_file_bytes = 100;
  chunk_lines = 2;
  doc_chunk_lines = 2;
  chunk_overlap = pos 1;
}

chunk_and_embed-IsChunking_example :
    IsChunking disk sizes "api" walked_files (chunk_and_embed disk sizes "api" walked_files)
chunk_and_embed-IsChunking_example =
    chunk_and_embed-IsChunking disk sizes "api" walked_files (omega arith, omega arith, tt)

-- With an overlap of -1 the third line is in no chunk.
lost_line :
    split 2 (negsuc 0) five_lines
    ≡ some (
        record { text = codes "a\nb"; line_start = 1; line_end = 2 }
        ∷ record { text = codes "d\ne"; line_start = 4; line_end = 5 }
        ∷ [])
unfolding split all_windows windows
lost_line = refl

chunk_and_embed_lines_example :
    Returns "a.py" five_lines 4 (chunk_and_embed disk sizes "api" walked_files)
chunk_and_embed_lines_example =
    chunk_and_embed_lines disk sizes "api" walked_files a_py
      (record { bytes = 9; lines = five_lines }) 4 (omega arith, omega arith, tt) (inr (inl refl))
      refl refl refl refl (omega arith)

abbrev edge : ℕ → CallEdge
edge n = record { caller = "f"; callee = "g"; confidence = n }

merge_calls_best_example :
    (count "f" "g" (merge_calls (edge 500 ∷ []) (edge 900 ∷ [])) ≤ 1)
    × (highest "f" "g" (merge_calls (edge 500 ∷ []) (edge 900 ∷ []))
        ≡ highest "f" "g" ((edge 500 ∷ []) ++ (edge 900 ∷ [])))
merge_calls_best_example = merge_calls_best "f" "g" (edge 500 ∷ []) (edge 900 ∷ [])

-- A fact of the first day, and one that was seen again.
abbrev facts : List Observation
facts =
    record {
      id = "obs_1";
      status = none;
      seen_count = some 1;
      created_at = some 0;
      last_seen_at = none;
      archived_at = none;
    }
    ∷ record {
      id = "obs_2";
      status = some "active";
      seen_count = some 4;
      created_at = some 0;
      last_seen_at = some 9;
      archived_at = none;
    }
    ∷ []

abbrev day_40 : ℕ
day_40 = 40 * day

run_decay_counts_example :
    ((run_decay (λ _. day_40) 30 500 facts).1 ≡ min 25000 (count_stale day_40 30 facts))
    × (count_stale day_40 30 (run_decay (λ _. day_40) 30 500 facts).0
        ≡ count_stale day_40 30 facts - 25000)
run_decay_counts_example = run_decay_counts day_40 30 500 facts

abbrev source_file : FileEntry
source_file = record {
  path = "app/main.py";
  parts = "app" ∷ "main.py" ∷ [];
  name = "main.py";
  suffix = ".py";
  is_file = true;
  content = some ("9f", 12);
  parses = true;
}

hash_repo-walk_repo_example :
    hash_repo (source_file ∷ []) []
    ≡ insert_all (hashes_of (walk_repo ("srv" ∷ "api" ∷ []) [] (source_file ∷ []))) []
unfolding is_skipped
hash_repo-walk_repo_example =
    hash_repo-walk_repo ("srv" ∷ "api" ∷ []) [] (source_file ∷ []) [] refl (refl, tt)
