-- ===== src/Delta/Detect/Choice.antt =====
-- features/delta/extract.py: when each detection method is used, and what the fallback finds.
use ai_forge_memory.Prelude.{String, true, false, [], ◌≡◌, ◌↔◌, arith}
use ai_forge_memory.State.{Db, get_repo_git_head, get_file_hashes}
use ai_forge_memory.Delta.Detect.{git, cold, Checkout, git_head, head_moved, changed_files}

-- Git's diff is used exactly if the checkout and the database both know a head and the two differ;
-- a cold start is reported exactly if that is not so and no hash is stored for the repository.
pub changed_files-method_iff :
    (c : Checkout) (repo : String) (db : Db)
    → let moved = head_moved (git_head c.rev_parse c.abbrev_ref) (get_repo_git_head repo db) in
      (((changed_files c repo db).method ≡ git) ↔ (moved ≡ true))
      × (((changed_files c repo db).method ≡ cold)
          ↔ ((moved ≡ false) × (get_file_hashes repo db ≡ [])))
unfolding changed_files
changed_files-method_iff c repo db =
    ((λ h. ground arith, λ h. ground arith), (λ h. ground arith, λ h. ground arith))
