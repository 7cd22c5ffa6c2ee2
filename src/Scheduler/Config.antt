-- ===== src/Scheduler/Config.antt =====
-- features/scheduler/runner.py: the configured repositories, and the edits of the list. Clock
-- readings are whole milliseconds; configured numbers are not negative; `per_file_seconds` is in
-- thousandths of a second.
pub mod Edits
use ai_forge_memory.Prelude.{
  ℕ, String, Bool, true, false, not, List, [], ◌∷◌, ◌++◌, ◌==◌, length, keep, ltb,
}

pub record RepoSchedule : Type 0 where
  pub name : String
  pub path : String
  pub interval_seconds : ℕ
  pub pull : Bool
  pub skip_services : Bool
  pub skip_summaries : Bool
  pub skip_chunks : Bool
  pub use_lsp : Bool
  pub timeout_seconds : ℕ
  pub per_file_millis : ℕ

-- The dataclass's defaults.
abbrev pub repo_schedule : String → String → RepoSchedule
repo_schedule name path = record {
  name = name;
  path = path;
  interval_seconds = 600;
  pull = true;
  skip_services = false;
  skip_summaries = false;
  skip_chunks = false;
  use_lsp = false;
  timeout_seconds = 1800;
  per_file_millis = 0;
}

abbrev pub named : String → RepoSchedule → Bool
named name r = r.name == name

abbrev pub others : String → List RepoSchedule → List RepoSchedule
others name = keep (λ r. not (named name r))

-- `add_repo` between the load and the save of the file.
unfoldable pub add_repo : RepoSchedule → List RepoSchedule → List RepoSchedule
add_repo rs repos = others rs.name repos ++ rs ∷ []

-- `remove_repo`: the list that is saved, and whether it is shorter.
unfoldable pub remove_repo : String → List RepoSchedule → List RepoSchedule × Bool
remove_repo name repos = let kept = others name repos in (kept, ltb (length kept) (length repos))
