-- ===== src/Delta/Ingest/Stale.antt =====
-- features/delta/extract.py: the rows of merkle_files after a run of `ingest_delta`.
use ai_forge_memory.Prelude.{
  String, Option, none, some, List, [], ◌∷◌, ◌==◌, if◌then◌else◌, ◌≡◌, ◌≢◌, refl, sym, ◌∙◌, ap,
  arith, Bool-cases, inl, inr, text_cases,
}
use ai_forge_memory.Prelude.Dict.{Dict, lookup, insert, insert_all, lookup-insert}
use ai_forge_memory.Prelude.Sort.{sorted, In, contains}
use ai_forge_memory.State.{Db, get_file_hashes, upsert_file_hashes, set_repo_git_head}
use ai_forge_memory.State.Rows.{get-upsert}
use ai_forge_memory.Symbol.Walk.{WalkedFile}
use ai_forge_memory.Delta.Hashes.{diff_hashes, diff_hashes_iff}
use ai_forge_memory.Delta.Detect.{ChangedSet, Checkout, changed_files, to_index}
use ai_forge_memory.Delta.Ingest.{
  Driver, Stages, Flags, Stored, walk_subset, fresh_hashes, save_state, save_rows, save_head,
  ingest_delta,
}
use ai_forge_memory.Delta.Ingest.Progress.{
  Ending, untouched, headed, stored, half, ingest_delta-Ending,
}

save_head-rows :
    (repo : String) (cs : ChangedSet) (db : Db)
    → get_file_hashes repo (save_head repo cs db) ≡ get_file_hashes repo db
unfolding get_file_hashes set_repo_git_head
save_head-rows repo cs db = ground arith

-- The rows after `save_state`: those of the walked files are written over the old ones.
pub save_state-rows :
    (repo : String) (cs : ChangedSet) (ws : List WalkedFile) (bad : List String) (db : Db)
    → get_file_hashes repo (save_state repo cs ws bad db)
      ≡ insert_all (fresh_hashes bad ws) (get_file_hashes repo db)
unfolding save_state save_rows fresh_hashes
save_state-rows repo cs [] bad db = save_head-rows repo cs db
save_state-rows repo cs (w ∷ ws) bad db =
    save_head-rows repo cs (upsert_file_hashes repo (fresh_hashes bad (w ∷ ws)) db)
    ∙ get-upsert repo (fresh_hashes bad (w ∷ ws)) db

insert_all-keeps :
    (p : String) (rows d : Dict String) → lookup p d ≢ none → lookup p (insert_all rows d) ≢ none
insert_all-keeps p [] d h = h
insert_all-keeps p ((k, v) ∷ rows) d h = insert_all-keeps p rows (insert k v d) (λ e.
    elim (Bool-cases (k == p)) [
      | inl t ↦ cc (lookup-insert k p v d, t)
      | inr f ↦ h (cc (lookup-insert k p v d, f))
    ])

-- The last hash that the walked files give a path.
abbrev pub last_hash : String → List WalkedFile → Option String → Option String
last_hash p [] before = before
last_hash p (w ∷ ws) before = last_hash p ws (if w.path == p then some w.hash else before)

-- One row more, at the path `q`: it is written unless the embedding of `q` failed.
lookup-one_row :
    (p q h : String) (bad : List String) (rows d : Dict String)
    (after : Option String → Option String)
    → ((d' : Dict String)
        → lookup p (insert_all rows d')
          ≡ (if contains p bad then lookup p d' else after (lookup p d')))
    → lookup p (insert_all (if contains q bad then rows else (q, h) ∷ rows) d)
      ≡ (if contains p bad then lookup p d else after (if q == p then some h else lookup p d))
lookup-one_row p q h bad rows d after ih = elim (Bool-cases (contains q bad)) [
  | inl t ↦
      rw (t, ih d)
        (elim (text_cases q p) [
          | inl e ↦ rw (ap (λ (x : String). contains x bad) (sym e) ∙ t)
          | inr e ↦ rw e.0
        ])
  | inr f ↦
      rw (f, ih (insert q h d), lookup-insert q p h d)
        (elim (text_cases q p) [
          | inl e ↦ rw (ap (λ (x : String). contains x bad) (sym e) ∙ f)
          | inr e ↦ rw e.0
        ])
]

lookup-fresh_hashes :
    (p : String) (bad : List String) (ws : List WalkedFile) (d : Dict String)
    → lookup p (insert_all (fresh_hashes bad ws) d)
      ≡ (if contains p bad then lookup p d else last_hash p ws (lookup p d))
unfolding fresh_hashes
lookup-fresh_hashes p bad [] d = ground arith
lookup-fresh_hashes p bad (w ∷ ws) d =
    lookup-one_row p w.path w.hash bad (fresh_hashes bad ws) d (last_hash p ws)
      (lookup-fresh_hashes p bad ws)

-- The rows after a run that saves: a path among the changed files that were walked has its new
-- hash, unless its embedding failed; a path whose embedding failed, and every other path, keeps the
-- row that it had, if any.
pub save_state-lookup :
    (repo p : String) (cs : ChangedSet) (ws : List WalkedFile) (bad : List String) (db : Db)
    → lookup p (get_file_hashes repo (save_state repo cs ws bad db)) ≡ (
        if contains p bad
        then lookup p (get_file_hashes repo db)
        else last_hash p ws (lookup p (get_file_hashes repo db)))
save_state-lookup repo p cs ws bad db =
    ap (lookup p) (save_state-rows repo cs ws bad db)
    ∙ lookup-fresh_hashes p bad ws (get_file_hashes repo db)

-- The rows that an interrupted save leaves.
save_rows-rows :
    (repo : String) (ws : List WalkedFile) (bad : List String) (db : Db)
    → get_file_hashes repo (save_rows repo ws bad db)
      ≡ insert_all (fresh_hashes bad ws) (get_file_hashes repo db)
unfolding save_rows fresh_hashes
save_rows-rows repo [] bad db = refl
save_rows-rows repo (w ∷ ws) bad db = get-upsert repo (fresh_hashes bad (w ∷ ws)) db

module _ {G Summary Chunk : Type 0} (d : Driver G Summary Chunk) (t : Stages Summary Chunk)
    (o : Flags) (repo : String) (c : Checkout) (s : Stored G) (p : String) where
  abbrev rows_after : Dict String
  rows_after = get_file_hashes repo (ingest_delta d t o repo c s).1.db

  row_kept :
      Ending t repo (changed_files c repo s.db) s.db (ingest_delta d t o repo c s)
      → lookup p (get_file_hashes repo s.db) ≢ none
      → lookup p rows_after ≢ none
  row_kept (untouched k) h = rw k h
  row_kept (headed res r k) h = rw (k, save_head-rows repo (changed_files c repo s.db) s.db) h
  row_kept (stored walked bad res w r k) h =
      rw
        (
          k,
          save_state-rows repo (changed_files c repo s.db)
              (walk_subset (sorted (to_index (changed_files c repo s.db).changes)) walked) bad s.db,
        )
        (insert_all-keeps p
          (fresh_hashes bad
            (walk_subset (sorted (to_index (changed_files c repo s.db).changes)) walked))
          (get_file_hashes repo s.db) h)
  row_kept (half walked bad w f b n k) h =
      rw
        (
          k,
          save_rows-rows repo
              (walk_subset (sorted (to_index (changed_files c repo s.db).changes)) walked) bad s.db,
        )
        (insert_all-keeps p
          (fresh_hashes bad
            (walk_subset (sorted (to_index (changed_files c repo s.db).changes)) walked))
          (get_file_hashes repo s.db) h)

  -- No run of `ingest_delta`, whatever it does, drops a row of merkle_files. So a path that has a row
  -- and no file any more is reported as deleted by the hash comparison after the run too, against
  -- any tree `cur` that lacks it: the deletion is never settled.
  pub ingest_delta_reports_again :
      (cur : Dict String)
      → lookup p (get_file_hashes repo s.db) ≢ none
      → lookup p cur ≡ none
      → In p (diff_hashes rows_after cur).deleted
  ingest_delta_reports_again cur h gone =
      (diff_hashes_iff rows_after cur p).2.1 (row_kept (ingest_delta-Ending d t o repo c s) h, gone)
