-- ===== src/Delta/Ingest/Progress.antt =====
-- features/delta/extract.py: what a run of `ingest_delta` means for the next one.
use ai_forge_memory.Prelude.{
  String, Bool, true, false, ◌&&◌, ◌||◌, ◌⊎◌, Option, none, some, List, if◌then◌else◌, ◌≡◌, refl,
}
use ai_forge_memory.Prelude.Sort.{sorted}
use ai_forge_memory.Exec.{pure, ◌>>=◌, ◌>>◌}
use ai_forge_memory.Ingest.{IngestResult, ingest_result}
use ai_forge_memory.State.{Db}
use ai_forge_memory.Symbol.Walk.{WalkedFile}
use ai_forge_memory.Delta.Detect.{
  Method, git, merkle, cold, ChangedSet, Checkout, changed_files, to_index,
}
use ai_forge_memory.Delta.Ingest.{
  Driver, Stages, Flags, Stored, null, is_blank, on_db, walk_subset, save_state, save_rows,
  save_head, apply_changes, touch_head, dispatch, ingest_delta,
}
use ai_forge_memory.Delta.Ingest.Store.{FailedBy, Outcome, unsaved, saved, apply_changes-Outcome}
use ai_forge_memory.Prelude.Dict.{Dict}

-- How `ingest_delta` can end: as it began, after a cold start or an exception; with the head written;
-- with the rows of the changed files and the head saved; or with these rows saved and an exception of
-- the head's write.
pub data Ending {G Summary Chunk : Type 0} (t : Stages Summary Chunk) (repo : String)
    (cs : ChangedSet) (db : Db) (r : Option IngestResult × Stored G) : Type 0 where
  untouched : r.1.db ≡ db → Ending t repo cs db r
  headed :
      (res : IngestResult) → r.0 ≡ some res → r.1.db ≡ save_head repo cs db → Ending t repo cs db r
  stored :
      (walked : List WalkedFile) (bad : List String) (res : IngestResult)
      → t.walk_repo ≡ some walked
      → r.0 ≡ some res
      → r.1.db ≡ save_state repo cs (walk_subset (sorted (to_index cs.changes)) walked) bad db
      → Ending t repo cs db r
  half :
      (walked : List WalkedFile) (bad : List String)
      → t.walk_repo ≡ some walked
      → t.head_saved ≡ false
      → FailedBy t (walk_subset (sorted (to_index cs.changes)) walked) bad
      → r.0 ≡ none
      → r.1.db ≡ save_rows repo (walk_subset (sorted (to_index cs.changes)) walked) bad db
      → Ending t repo cs db r

module _ {G Summary Chunk : Type 0} (d : Driver G Summary Chunk) (t : Stages Summary Chunk)
    (o : Flags) (repo : String) where
  of_Outcome :
      (cs : ChangedSet) (db : Db) (r : Option IngestResult × Stored G)
      → Outcome t repo cs db r
      → Ending t repo cs db r
  of_Outcome cs db r (unsaved e k) = untouched k
  of_Outcome cs db r (saved walked bad res w e k) = stored walked bad res w e k
  of_Outcome cs db r (Outcome.half walked bad w f b n k) = half walked bad w f b n k

  -- The only write of a run that finds nothing to do, which succeeds or raises.
  write-Ending :
      (cs : ChangedSet) (s : Stored G) (ok : Bool)
      → Ending t repo cs s.db
          ((do on_db ok (save_head repo cs); pure (ingest_result "no_changes" "" repo)) s)
  unfolding ◌>>=◌ on_db pure
  write-Ending cs s true = headed (ingest_result "no_changes" "" repo) refl refl
  write-Ending cs s false = untouched refl

  touch_head-Ending :
      (cs : ChangedSet) (s : Stored G) → Ending t repo cs s.db (touch_head d t repo cs s)
  unfolding touch_head
  touch_head-Ending cs s = write-Ending cs s (t.head_saved || is_blank cs.head_sha)

  run-Ending :
      (cs : ChangedSet) (s : Stored G) (b : Bool)
      → Ending t repo cs s.db
          ((if b then touch_head d t repo cs else apply_changes d t o repo cs) s)
  run-Ending cs s true = touch_head-Ending cs s
  run-Ending cs s false =
      of_Outcome cs s.db (apply_changes d t o repo cs s) (apply_changes-Outcome d t repo cs o s)

  dispatch-Ending :
      (cs : ChangedSet) (m : Method) (s : Stored G)
      → cs.method ≡ m
      → Ending t repo cs s.db (dispatch d t o repo cs s)
  unfolding dispatch pure
  dispatch-Ending cs cold s e = simp (e, dispatch) (untouched refl)
  dispatch-Ending cs git s e =
      simp (e, dispatch) (run-Ending cs s (null (to_index cs.changes) && null cs.changes.deleted))
  dispatch-Ending cs merkle s e =
      simp (e, dispatch) (run-Ending cs s (null (to_index cs.changes) && null cs.changes.deleted))

  pub ingest_delta-Ending :
      (c : Checkout) (s : Stored G)
      → Ending t repo (changed_files c repo s.db) s.db (ingest_delta d t o repo c s)
  unfolding ingest_delta
  ingest_delta-Ending c s =
      dispatch-Ending (changed_files c repo s.db) (changed_files c repo s.db).method s refl

  -- What a run that raises leaves of the state database: all of it; or, where the write of the git
  -- head failed, all but the rows of the changed files, which are saved.
  abbrev pub Left : ChangedSet → Db → Db → Type 0
  Left cs db db' =
      (db' ≡ db)
      ⊎ ((t.head_saved ≡ false)
          × (walked : List WalkedFile) × (bad : List String) × (t.walk_repo ≡ some walked)
          × FailedBy t (walk_subset (sorted (to_index cs.changes)) walked) bad
          × (db' ≡ save_rows repo (walk_subset (sorted (to_index cs.changes)) walked) bad db))
