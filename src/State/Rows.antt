-- ===== src/State/Rows.antt =====
-- core/state.py: the bulk write is the single write for each row, and no write touches another
-- repository or another table.
use ai_forge_memory.Prelude.{String, [], ◌∷◌, ◌≡◌, refl, ◌≢◌, ap, sym, ◌∙◌}
use ai_forge_memory.Prelude.Map.{put_self, put_ne}
use ai_forge_memory.Prelude.Dict.{Dict, insert, insert_all}
use ai_forge_memory.State.{
  Db, get_file_hashes, upsert_file_hash, upsert_file_hashes, get_repo_git_head, get_repo_pack_sha,
}

-- The rows one at a time, as `upsert_file_hash` writes them.
abbrev pub upsert_each : String → Dict String → Db → Db
upsert_each repo [] db = db
upsert_each repo ((p, h) ∷ hs) db = upsert_each repo hs (upsert_file_hash repo p h db)

upsert_each-lem :
    (repo : String) (hs : Dict String) (db : Db)
    → get_file_hashes repo (upsert_each repo hs db) ≡ insert_all hs (get_file_hashes repo db)
unfolding get_file_hashes upsert_file_hash
upsert_each-lem repo [] db = refl
upsert_each-lem repo ((p, h) ∷ hs) db =
    upsert_each-lem repo hs (upsert_file_hash repo p h db)
    ∙ ap (insert_all hs) (put_self repo (insert p h (db.merkle_files repo)) db.merkle_files)

pub get-upsert :
    (repo : String) (hs : Dict String) (db : Db)
    → get_file_hashes repo (upsert_file_hashes repo hs db) ≡ insert_all hs (get_file_hashes repo db)
unfolding get_file_hashes upsert_file_hashes
get-upsert repo [] db = refl
get-upsert repo (h ∷ hs) db =
    put_self repo (insert_all (h ∷ hs) (db.merkle_files repo)) db.merkle_files

-- The bulk upsert leaves the same rows as one upsert for each of them, and the rows of every other
-- repository, the heads and the pack hashes as they were.
upsert_file_hashes-upsert_each :
    (repo other r : String) (hs : Dict String) (db : Db)
    → repo ≢ other
    → let db' = upsert_file_hashes repo hs db in
      (get_file_hashes repo db' ≡ get_file_hashes repo (upsert_each repo hs db))
      × (get_file_hashes other db' ≡ get_file_hashes other db)
      × (get_repo_git_head r db' ≡ get_repo_git_head r db)
      × (get_repo_pack_sha r db' ≡ get_repo_pack_sha r db)
unfolding get_file_hashes upsert_file_hashes get_repo_git_head get_repo_pack_sha
upsert_file_hashes-upsert_each repo o r [] db n =
    (sym (upsert_each-lem repo [] db), refl, refl, refl)
upsert_file_hashes-upsert_each repo o r (h ∷ hs) db n = (
  get-upsert repo (h ∷ hs) db ∙ sym (upsert_each-lem repo (h ∷ hs) db),
  put_ne repo o (insert_all (h ∷ hs) (db.merkle_files repo)) db.merkle_files n,
  refl,
  refl,
)
