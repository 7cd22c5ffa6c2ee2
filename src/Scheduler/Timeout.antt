-- ===== src/Scheduler/Timeout.antt =====
-- features/scheduler/runner.py: `_count_ingest_files` and `_effective_timeout`.
use ai_forge_memory.Prelude.{
  ℕ, suc, ◌+◌, ◌*◌, ◌/◌, String, Bool, false, ◌||◌, Option, none, some, List, [], ◌∷◌, eqb,
  if◌then◌else◌, min, max, ◌≤◌, ◌<◌, arith,
}
use ai_forge_memory.Prelude.Text.{Text, codes, is_prefix}
use ai_forge_memory.Prelude.Sort.{contains}
use mathlib.Core.List.{reverse}
use ai_forge_memory.Scheduler.Config.{RepoSchedule}

-- `_INGEST_EXT`
abbrev pub ingest_ext : List String
ingest_ext =
    ".py" ∷ ".js" ∷ ".jsx" ∷ ".ts" ∷ ".tsx" ∷ ".mjs" ∷ ".cjs" ∷ ".java" ∷ ".kt" ∷ ".kts" ∷ ".scala"
    ∷ ".go" ∷ ".rs" ∷ ".rb" ∷ ".php" ∷ ".swift" ∷ ".c" ∷ ".h" ∷ ".cc" ∷ ".cpp" ∷ ".hpp" ∷ ".cs"
    ∷ ".m" ∷ ".mm" ∷ ".md" ∷ ".rst" ∷ ".adoc" ∷ ".txt" ∷ ".yml" ∷ ".yaml" ∷ ".json" ∷ ".toml" ∷ []

-- `skip_dirs` of `_count_ingest_files`.
abbrev pub skip_dirs : List String
skip_dirs =
    ".git" ∷ "node_modules" ∷ ".venv" ∷ "venv" ∷ "target" ∷ "build" ∷ "dist" ∷ ".idea" ∷ ".vscode"
    ∷ ".aiforge" ∷ ".aiforge-worktrees" ∷ "graphify-out" ∷ "__pycache__" ∷ "coverage" ∷ []

-- What `os.walk` meets below a directory: file names and named directories.
pub data Tree : Type 0 where
  nil : Tree
  file : String → Tree → Tree
  dir : String → Tree → Tree → Tree

-- `name.endswith(ext)` for one of the extensions.
abbrev ends_with_any : Text → List String → Bool
ends_with_any name [] = false
ends_with_any name (e ∷ es) = is_prefix (reverse (codes e)) (reverse name) || ends_with_any name es

unfoldable pub is_ingest_file : String → Bool
is_ingest_file name = ends_with_any (codes name) ingest_ext

pub count_ingest_files : Tree → ℕ
count_ingest_files nil = 0
count_ingest_files (file name rest) =
    if is_ingest_file name then suc (count_ingest_files rest) else count_ingest_files rest
count_ingest_files (dir name below rest) =
    if contains name skip_dirs
    then count_ingest_files rest
    else count_ingest_files below + count_ingest_files rest

-- `cap` is the value that `int` reads from AIFORGE_SCHEDULER_MAX_TIMEOUT_S, `none` if it raises.
-- The pair is the timeout and the file count.
unfoldable pub effective_timeout : RepoSchedule → Tree → Option ℕ → ℕ × ℕ
effective_timeout rs tree cap =
    if eqb rs.per_file_millis 0
    then (rs.timeout_seconds, 0)
    else let file_count = count_ingest_files tree in
      let scaled = file_count * rs.per_file_millis / 1000 in
      let limit : ℕ = elim cap [ none ↦ 14400 | some c ↦ c ] in
      (min limit (max rs.timeout_seconds scaled), file_count)

abbrev pub limit_of : Option ℕ → ℕ
limit_of none = 14400
limit_of (some c) = c

-- With a per-file budget, the timeout is never above the cap; it is at least the configured one,
-- unless the cap cuts it, and at least the budget of the counted files, unless the cap cuts it.
effective_timeout_bounds :
    (rs : RepoSchedule) (tree : Tree) (cap : Option ℕ)
    → 0 < rs.per_file_millis
    → ((effective_timeout rs tree cap).0 ≤ limit_of cap)
      × (min (limit_of cap) rs.timeout_seconds ≤ (effective_timeout rs tree cap).0)
      × (min (limit_of cap) (count_ingest_files tree * rs.per_file_millis / 1000)
          ≤ (effective_timeout rs tree cap).0)
unfolding effective_timeout
effective_timeout_bounds rs tree cap h =
    let n = count_ingest_files tree * rs.per_file_millis / 1000 in
    (ground arith, ground arith, ground arith)
