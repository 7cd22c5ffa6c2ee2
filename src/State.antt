-- ===== src/State.antt =====
-- core/state.py: the tables of the state database, by repository. The time stamps are written and
-- never read, and are left out.
pub mod Rows
use ai_forge_memory.Prelude.{String, Option, none, some, List, [], ◌∷◌}
use ai_forge_memory.Prelude.Map.{put}
use ai_forge_memory.Prelude.Dict.{Dict, insert, insert_all}

-- merkle_repo, git_state (head, branch) and merkle_files (path, hash).
pub record Db : Type 0 where
  pub merkle_repo : String → Option String
  pub git_state : String → Option (String × String)
  pub merkle_files : String → Dict String

abbrev pub empty_db : Db
empty_db = record { merkle_repo = λ r. none; git_state = λ r. none; merkle_files = λ r. [] }

unfoldable pub set_repo_pack_sha : String → String → Db → Db
set_repo_pack_sha repo sha db = record db { merkle_repo = put repo (some sha) db.merkle_repo }

unfoldable pub get_repo_pack_sha : String → Db → Option String
get_repo_pack_sha repo db = db.merkle_repo repo

unfoldable pub get_repo_git_head : String → Db → Option (String × String)
get_repo_git_head repo db = db.git_state repo

unfoldable pub set_repo_git_head : String → String → String → Db → Db
set_repo_git_head repo sha branch db = record db {
  git_state = put repo (some (sha, branch)) db.git_state;
}

unfoldable pub get_file_hashes : String → Db → Dict String
get_file_hashes repo db = db.merkle_files repo

unfoldable pub upsert_file_hash : String → String → String → Db → Db
upsert_file_hash repo path hash db = record db {
  merkle_files = put repo (insert path hash (db.merkle_files repo)) db.merkle_files;
}

-- The batch does nothing where it is empty.
unfoldable pub upsert_file_hashes : String → Dict String → Db → Db
upsert_file_hashes repo [] db = db
upsert_file_hashes repo (h ∷ hs) db = record db {
  merkle_files = put repo (insert_all (h ∷ hs) (db.merkle_files repo)) db.merkle_files;
}
