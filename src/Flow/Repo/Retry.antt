-- ===== src/Flow/Repo/Retry.antt =====
-- features/flow/runner.py: what a full ingest means for the scheduler's next visit.
use ai_forge_memory.Prelude.{
  String, true, false, Option, none, some, List, [], ◌∷◌, ◌≡◌, ◌≢◌, refl, sym, ap, ◌⊎◌, ◌∙◌,
  Bool-cases, inl, inr, arith,
}
use ai_forge_memory.Prelude.Dict.{Dict, insert, insert_all}
use ai_forge_memory.State.{
  Db, get_repo_pack_sha, set_repo_pack_sha, get_file_hashes, set_repo_git_head, upsert_file_hashes,
}
use ai_forge_memory.State.Rows.{get-upsert}
use ai_forge_memory.Symbol.Walk.{WalkedFile}
use ai_forge_memory.Delta.Ingest.{Stored, null, fresh_hashes, save_rows}
use ai_forge_memory.Delta.Ingest.Store.{FailedBy}
use ai_forge_memory.Delta.Detect.{Checkout, cold, changed_files}
use ai_forge_memory.Delta.Detect.Choice.{changed_files-method_iff}
use ai_forge_memory.Flow.Repo.{
  Writers, Readers, Options, persist, save_pack, all_failed, is_unchanged, ingest_repo,
}
use ai_forge_memory.Flow.Repo.Outcome.{
  Ended, unsaved, skipped, indexed, half, head_after, WalkedBy, with_git, ingest_repo-Ended,
}

with_git-pack :
    (repo : String) (h : Option (String × String)) (db : Db)
    → get_repo_pack_sha repo (with_git repo h db) ≡ get_repo_pack_sha repo db
unfolding get_repo_pack_sha set_repo_git_head
with_git-pack repo none db = refl
with_git-pack repo (some h) db = ground arith

with_git-rows :
    (repo : String) (h : Option (String × String)) (db : Db)
    → get_file_hashes repo (with_git repo h db) ≡ get_file_hashes repo db
unfolding get_file_hashes set_repo_git_head
with_git-rows repo none db = refl
with_git-rows repo (some h) db = ground arith

set_pack-rows :
    (repo sha : String) (db : Db)
    → get_file_hashes repo (set_repo_pack_sha repo sha db) ≡ get_file_hashes repo db
unfolding get_file_hashes set_repo_pack_sha
set_pack-rows repo sha db = refl

upsert-pack :
    (repo : String) (rows : Dict String) (db : Db)
    → get_repo_pack_sha repo (upsert_file_hashes repo rows db) ≡ get_repo_pack_sha repo db
unfolding get_repo_pack_sha upsert_file_hashes
upsert-pack repo [] db = refl
upsert-pack repo (r ∷ rows) db = refl

-- Where no row is left of a file that was walked, some file failed.
failed_some :
    (bad : List String) (w : WalkedFile) (ws : List WalkedFile)
    → null (fresh_hashes bad (w ∷ ws)) ≡ true
    → null bad ≡ false
unfolding fresh_hashes
failed_some [] w ws h = cc
failed_some (b ∷ bad) w ws h = refl

insert-filled : (k v : String) (d : Dict String) → null (insert k v d) ≡ false
insert-filled k v [] = refl
insert-filled k v ((j, w) ∷ d) = ground arith

insert_all-filled : (rows d : Dict String) → null d ≡ false → null (insert_all rows d) ≡ false
insert_all-filled [] d h = h
insert_all-filled ((k, v) ∷ rows) d h = insert_all-filled rows (insert k v d) (insert-filled k v d)

filled : (rows d : Dict String) → null rows ≡ false → insert_all rows d ≢ []
filled [] d h e = cc
filled ((k, v) ∷ rows) d h e = cc (insert_all-filled rows (insert k v d) (insert-filled k v d))

-- What the writes at the end leave for walked files: the pack's hash as it was, or rows.
persist-cases :
    (repo sha : String) (w : WalkedFile) (ws : List WalkedFile) (bad : List String) (db : Db)
    → (get_repo_pack_sha repo (persist repo sha (w ∷ ws) bad db) ≡ get_repo_pack_sha repo db)
      ⊎ (get_file_hashes repo (persist repo sha (w ∷ ws) bad db) ≢ [])
unfolding persist save_pack save_rows
persist-cases repo sha w ws bad db =
    let rows : Dict String = fresh_hashes bad (w ∷ ws) in
    elim (Bool-cases (null rows)) [
      | inl n ↦ rw (n, failed_some bad w ws n) (inl (upsert-pack repo rows db))
      | inr f ↦ rw f (
          inr (λ e. filled rows (get_file_hashes repo db) f (
            sym (set_pack-rows repo sha (upsert_file_hashes repo rows db) ∙ get-upsert repo rows db)
            ∙ e)))
    ]

module _ {G Pack Summary Chunk About Draft : Type 0} (d : Writers G Summary Chunk About Draft)
    (t : Readers Pack Summary Chunk About Draft) (o : Options) (repo : String) where
  -- What a full ingest that raises leaves of the state database: all of it; or, where the write of the
  -- pack's hash failed, all but the rows of the walked files, which are saved.
  abbrev pub Left : Db → Db → Type 0
  Left db db' =
      (db' ≡ db)
      ⊎ ((t.pack_saved ≡ false)
          × (walked : List WalkedFile) × (bad : List String) × WalkedBy t o walked
          × (all_failed walked bad ≡ false)
          × FailedBy t.common walked bad
          × (db' ≡ save_rows repo walked bad db))

  not_cold :
      (c : Checkout) (db : Db)
      → get_file_hashes repo db ≢ []
      → (changed_files c repo db).method ≢ cold
  not_cold c db h e = h ((changed_files-method_iff c repo db).1.0 e).1

  -- After a full ingest of a pack whose hash was not on record, and that does not raise, the
  -- repository is not stuck: the hash is still not on record, so that the next full ingest is not
  -- skipped; or the next change detection, on any checkout, is no cold start; or the walk found no
  -- file or was switched off.
  pub ingest_repo_not_stuck :
      (c : Checkout) (s : Stored G) (text : Pack) (sha : String)
      → t.pack ≡ some (text, sha)
      → is_unchanged sha (get_repo_pack_sha repo s.db) ≡ false
      → (ingest_repo d t o repo s).0 ≢ none
      → let db' = (ingest_repo d t o repo s).1.db in
        (is_unchanged sha (get_repo_pack_sha repo db') ≡ false)
        ⊎ (((changed_files c repo db').method ≢ cold) ⊎ WalkedBy t o [])
  ingest_repo_not_stuck c s text sha e fresh ok = free (ingest_repo-Ended d t o repo s)
    where
      after : Db
      after = (ingest_repo d t o repo s).1.db

      free :
          Ended t o repo s.db (ingest_repo d t o repo s)
          → (is_unchanged sha (get_repo_pack_sha repo after) ≡ false)
            ⊎ (((changed_files c repo after).method ≢ cold) ⊎ WalkedBy t o [])
      free (unsaved n k) = absurd (ok n)
      free (half text' sha' walked bad p w f g b n k) = absurd (ok n)
      free (skipped text' sha' p u k) = inl (rw k fresh)
      free (indexed text' sha' [] bad res p w r k) = inr (inr w)
      free (indexed text' sha' (x ∷ xs) bad res p w r k) =
          elim (persist-cases repo sha' x xs bad s.db) [
            | inl same ↦ inl (
                rw
                  (k, with_git-pack repo (head_after t) (persist repo sha' (x ∷ xs) bad s.db), same)
                  fresh)
            | inr some_rows ↦ inr (
                inl (
                  not_cold c after (λ z. some_rows (
                    sym (with_git-rows repo (head_after t) (persist repo sha' (x ∷ xs) bad s.db))
                    ∙ sym (ap (get_file_hashes repo) k)
                    ∙ z))))
          ]
