-- ===== src/Delta/Detect.antt =====
-- features/delta/extract.py: `_git_head` and `changed_files`, the choice of the detection method.
pub mod Choice
use ai_forge_memory.Prelude.{
  String, Bool, true, false, not, Option, none, some, List, [], ◌∷◌, ◌++◌, ◌==◌, if◌then◌else◌,
}
use ai_forge_memory.Prelude.Text.{stripped}
use ai_forge_memory.Prelude.Dict.{Dict}
use ai_forge_memory.State.{Db, get_repo_git_head, get_file_hashes}
use ai_forge_memory.Delta.Hashes.{Changes, diff_hashes}
use ai_forge_memory.Delta.GitDiff.{Ran, raised, exited, no_changes, git_diff}

pub data Method : Type 0 where
  git merkle cold : Method

pub record ChangedSet : Type 0 where
  pub method : Method
  pub changes : Changes
  pub head_sha : String
  pub branch : String

-- What the working tree answers: `git rev-parse HEAD`, the same with `--abbrev-ref`, `git diff`
-- between two commits, and the hashes of the source files that stand there.
pub record Checkout : Type 0 where
  pub rev_parse : Ran
  pub abbrev_ref : Ran
  pub diff : String → String → Ran
  pub hashes : Dict String

-- `_git_head`
unfoldable pub git_head : Ran → Ran → Option (String × String)
git_head (exited true sha) (exited true branch) = some (stripped sha, stripped branch)
git_head _ _ = none

abbrev pub sha_of : Option (String × String) → String
sha_of none = ""
sha_of (some (sha, branch)) = sha

abbrev pub branch_of : Option (String × String) → String
branch_of none = ""
branch_of (some (sha, branch)) = branch

-- `head and prev and prev[0] != head[0]`
abbrev pub head_moved : Option (String × String) → Option (String × String) → Bool
head_moved (some h) (some p) = not (p.0 == h.0)
head_moved _ _ = false

-- The merkle fallback, or a cold start where no hash is stored.
unfoldable pub by_hashes : Option (String × String) → Dict String → Dict String → ChangedSet
by_hashes head [] cur = record {
  method = cold;
  changes = no_changes;
  head_sha = sha_of head;
  branch = branch_of head;
}
by_hashes head (p ∷ prev) cur = record {
  method = merkle;
  changes = diff_hashes (p ∷ prev) cur;
  head_sha = sha_of head;
  branch = branch_of head;
}

unfoldable pub changed_files : Checkout → String → Db → ChangedSet
unfolding by_hashes
changed_files c repo db =
    let head = git_head c.rev_parse c.abbrev_ref in
    let prev = get_repo_git_head repo db in
    if head_moved head prev
    then record {
      method = git;
      changes = git_diff (c.diff (sha_of prev) (sha_of head));
      head_sha = sha_of head;
      branch = branch_of head;
    }
    else by_hashes head (get_file_hashes repo db) c.hashes

-- `set(self.added) | set(self.modified)`, read by membership and emptiness only.
abbrev pub to_index : Changes → List String
to_index c = c.added ++ c.modified
