-- ===== src/Flow/Repo/Outcome.antt =====
-- features/flow/runner.py: what `ingest_repo` leaves in the state database.
use ai_forge_memory.Prelude.{
  String, Bool, false, subst, ◌||◌, true, not, ◌&&◌, Option, none, some, List, if◌then◌else◌, ◌≡◌,
  refl, ◌⊎◌, Option-cases, Bool-cases, inl, inr,
}
use ai_forge_memory.Exec.{Exec, pure, lift, attempt, rescue, ◌>>=◌, ◌>>◌}
use ai_forge_memory.Exec.Yields.{Yields, Yields-pure, Yields-lift, Yields-any, Yields-bind}
use ai_forge_memory.Ingest.{IngestResult}
use ai_forge_memory.State.{Db, get_repo_pack_sha, get_file_hashes, set_repo_git_head}
use ai_forge_memory.Symbol.Walk.{WalkedFile}
use ai_forge_memory.Delta.Ingest.{Stored, on_db, null, is_blank, fresh_hashes, save_rows}
use ai_forge_memory.Delta.Ingest.Store.{
  KeepsDb, KeepsDb-bind, KeepsDb-on_graph, KeepsDb-pure, keeps, write_chunks-KeepsDb, FailedBy,
  chunked-Yields,
}
use ai_forge_memory.Flow.Repo.{
  Writers, Readers, Options, persist, save_pack, all_failed, is_unchanged, files_needing_summary,
  write_repo, write_services, write_symbols, summarize_some, write_file_summaries,
  write_file_chunks, record_head, index_repo, finish_repo, run_packed, ingest_repo,
}

module _ {G A : Type 0} where
  KeepsDb-rescue : (a : A) (m : Exec (Stored G) A) → KeepsDb m → KeepsDb (rescue a m)
  unfolding rescue
  KeepsDb-rescue a m h = record {
    at = λ s. elim (Option-cases (m s).0) [
      | inl e ↦ rw (e, rescue) (h.at s)
      | inr (b, e) ↦ rw (e, rescue) (h.at s)
    ];
  }

module _ {G Pack Summary Chunk About Draft : Type 0} (d : Writers G Summary Chunk About Draft)
    (t : Readers Pack Summary Chunk About Draft) where
  write_repo-KeepsDb :
      (repo : String) (text : Pack) (sha : String) → KeepsDb (write_repo d t repo text sha)
  unfolding write_repo
  write_repo-KeepsDb repo text sha = search keeps

  write_services-KeepsDb :
      (o : Options) (repo : String) (text : Pack) → KeepsDb (write_services d t o repo text)
  unfolding write_services
  write_services-KeepsDb o repo text = search keeps

  write_symbols-KeepsDb : (o : Options) (repo : String) → KeepsDb (write_symbols d t o repo)
  unfolding write_symbols
  write_symbols-KeepsDb o repo = search keeps depth 14

  summarize_some-KeepsDb :
      (repo : String) (ws : List WalkedFile) → KeepsDb (summarize_some d t repo ws)
  unfolding summarize_some
  summarize_some-KeepsDb repo ws = search keeps

  write_file_chunks-KeepsDb :
      (o : Options) (repo : String) (ws : List WalkedFile)
      → KeepsDb (write_file_chunks d t o repo ws)
  unfolding write_file_chunks
  write_file_chunks-KeepsDb o repo ws = search (keeps, write_chunks-KeepsDb)

  files_needing_summary-KeepsDb :
      (repo : String) (ws : List WalkedFile) → KeepsDb (files_needing_summary d t repo ws)
  unfolding files_needing_summary
  files_needing_summary-KeepsDb repo ws = record {
    at = λ s. elim (Bool-cases (null (get_file_hashes repo s.db))) [
      | inl e ↦ rw (e, files_needing_summary) refl
      | inr f ↦
          rw (f, files_needing_summary)
            ((KeepsDb-rescue ws _ (KeepsDb-bind _ _ (KeepsDb-on_graph _) (λ a. KeepsDb-pure _))).at
              s)
    ];
  }

  write_file_summaries-KeepsDb :
      (o : Options) (repo : String) (ws : List WalkedFile)
      → KeepsDb (write_file_summaries d t o repo ws)
  unfolding write_file_summaries
  write_file_summaries-KeepsDb o repo ws =
      search (keeps, files_needing_summary-KeepsDb, summarize_some-KeepsDb)

  index_repo-KeepsDb :
      (o : Options) (repo : String) (text : Pack) (sha : String)
      → KeepsDb (index_repo d t o repo text sha)
  unfolding index_repo
  index_repo-KeepsDb o repo text sha =
      search
        (
          keeps, write_repo-KeepsDb, write_services-KeepsDb, write_symbols-KeepsDb,
          write_file_summaries-KeepsDb, write_file_chunks-KeepsDb,
        )
        depth 14

-- The walk gave the files, or it was skipped and there are none.
abbrev pub WalkedBy :
    {Pack Summary Chunk About Draft : Type 0}
    → Readers Pack Summary Chunk About Draft
    → Options
    → List WalkedFile
    → Type 0
WalkedBy t o walked = (o.skip_symbols ≡ true) ⊎ (t.common.walk_repo ≡ some walked)

-- The state database after the second read of git's state.
abbrev pub with_git : String → Option (String × String) → Db → Db
with_git repo none db = db
with_git repo (some head) db =
    if is_blank head.0 then db else set_repo_git_head repo head.0 head.1 db

-- The head and the branch that the end of a full ingest writes, where the write succeeds.
abbrev pub head_after :
    {Pack Summary Chunk About Draft : Type 0}
    → Readers Pack Summary Chunk About Draft
    → Option (String × String)
head_after t = if t.common.head_saved then t.git_meta_after else none

-- How a full ingest can end: it raised, or it had nothing to do, and the database is as it was; or
-- it stored the rows of the walked files but for those whose embedding failed; or it stored these
-- rows, and raised at the write of the pack's hash.
pub data Ended {G Pack Summary Chunk About Draft : Type 0}
    (t : Readers Pack Summary Chunk About Draft) (o : Options) (repo : String) (db : Db)
    (r : Option IngestResult × Stored G) : Type 0 where
  unsaved : r.0 ≡ none → r.1.db ≡ db → Ended t o repo db r
  skipped :
      (text : Pack) (sha : String)
      → t.pack ≡ some (text, sha)
      → (is_unchanged sha (get_repo_pack_sha repo db) && not o.force) ≡ true
      → r.1.db ≡ db
      → Ended t o repo db r
  indexed :
      (text : Pack) (sha : String) (walked : List WalkedFile) (bad : List String)
      (res : IngestResult)
      → t.pack ≡ some (text, sha)
      → WalkedBy t o walked
      → r.0 ≡ some res
      → r.1.db ≡ with_git repo (head_after t) (persist repo sha walked bad db)
      → Ended t o repo db r
  half :
      (text : Pack) (sha : String) (walked : List WalkedFile) (bad : List String)
      → t.pack ≡ some (text, sha)
      → WalkedBy t o walked
      → t.pack_saved ≡ false
      → all_failed walked bad ≡ false
      → FailedBy t.common walked bad
      → r.0 ≡ none
      → r.1.db ≡ save_rows repo walked bad db
      → Ended t o repo db r

or_false : (a b : Bool) → (a || b) ≡ false → (a ≡ false) × (b ≡ false)
or_false true b h = cc
or_false false b h = (refl, h)

module _ {G Pack Summary Chunk About Draft : Type 0} (d : Writers G Summary Chunk About Draft)
    (t : Readers Pack Summary Chunk About Draft) (o : Options) (repo : String) where
  write_symbols-Yields : Yields (write_symbols d t o repo) (λ w. WalkedBy t o w.0)
  unfolding write_symbols
  write_symbols-Yields = elim (Bool-cases o.skip_symbols) [
    | inl e ↦ rw (e, write_symbols) (Yields-pure _ _ (inl refl))
    | inr f ↦
        rw (f, write_symbols)
          (Yields-bind _ _ _ _ (Yields-lift t.common.walk_repo) (λ walked e.
            Yields-bind _ _ _ _ (Yields-any _) (λ c u.
              Yields-bind _ _ _ _ (Yields-any _)
                (λ x u'. Yields-bind _ _ _ _ (Yields-any _) (λ n u''. Yields-pure _ _ (inr e))))))
  ]

  index_repo-Yields :
      (text : Pack) (sha : String)
      → Yields (index_repo d t o repo text sha) (λ r. WalkedBy t o r.1 × FailedBy t.common r.1 r.2)
  unfolding index_repo write_file_chunks
  index_repo-Yields text sha = Yields-bind _ _ _ _ (Yields-any _) (λ u u'.
      Yields-bind _ _ _ _ (Yields-any _) (λ v v'. Yields-bind _ _ _ _ write_symbols-Yields (λ w h.
        Yields-bind _ _ _ _ (Yields-any _) (λ x x'.
          Yields-bind _ _ _ _
            (chunked-Yields d.common t.common repo w.0 (o.skip_chunks || null w.0))
            (λ y y'. Yields-pure _ _ (h, y'))))))

  record_head-db :
      (s : Stored G) → (record_head d t repo s).1.db ≡ with_git repo (head_after t) s.db
  unfolding record_head attempt ◌>>=◌ lift on_db pure
  record_head-db s = elim (Option-cases t.git_meta_after) [
    | inl e ↦ elim (Bool-cases t.common.head_saved) [
      | inl ok ↦ simp (e, ok, ◌>>=◌)
      | inr bad ↦ simp (e, bad, ◌>>=◌)
    ]
    | inr (h, e) ↦ elim (Bool-cases (is_blank h.0)) [
      | inl b ↦ elim (Bool-cases t.common.head_saved) [
        | inl ok ↦ simp (e, b, ok, ◌>>=◌)
        | inr bad ↦ simp (e, b, bad, ◌>>=◌)
      ]
      | inr b ↦ elim (Bool-cases t.common.head_saved) [
        | inl ok ↦ simp (e, b, ok, ◌>>=◌)
        | inr bad ↦ simp (e, b, bad, ◌>>=◌)
      ]
    ]
  ]

  -- The end of a full ingest, where the two writes of the database succeed or raise.
  module _ (text : Pack) (sha : String) (done : IngestResult × List WalkedFile × List String)
      (p : t.pack ≡ some (text, sha)) (w : WalkedBy t o done.1)
      (b : FailedBy t.common done.1 done.2) where
    writes-Ended :
        (rows_ok pack_ok : Bool) (s : Stored G)
        → (pack_ok ≡ false → (t.pack_saved ≡ false) × (all_failed done.1 done.2 ≡ false))
        → Ended t o repo s.db (
            (do
              on_db rows_ok (save_rows repo done.1 done.2)
              on_db pack_ok (save_pack repo sha done.1 done.2)
              record_head d t repo
              pure done.0)
              s)
    unfolding ◌>>=◌ on_db pure record_head attempt persist
    writes-Ended false pack_ok s h = unsaved refl refl
    writes-Ended true false s h =
        let (f, some_saved) = h refl in half text sha done.1 done.2 p w f some_saved b refl refl
    writes-Ended true true s h =
        indexed text sha done.1 done.2 done.0 p w refl
          (record_head-db (record s { db = persist repo sha done.1 done.2 s.db }))

    finish_repo-Ended : (s : Stored G) → Ended t o repo s.db (finish_repo d t repo sha done s)
    unfolding finish_repo
    finish_repo-Ended s =
        writes-Ended (t.common.rows_saved || null (fresh_hashes done.2 done.1))
          (t.pack_saved || all_failed done.1 done.2) s
          (or_false t.pack_saved (all_failed done.1 done.2))

  run_packed-Ended :
      (text : Pack) (sha : String) (s : Stored G)
      → t.pack ≡ some (text, sha)
      → Ended t o repo s.db (run_packed d t o repo (text, sha) s)
  unfolding run_packed ◌>>=◌
  run_packed-Ended text sha s e =
      elim (Bool-cases (is_unchanged sha (get_repo_pack_sha repo s.db) && not o.force)) [
        | inl u ↦ rw (u, run_packed) (skipped text sha e u refl)
        | inr c ↦
            let kept : (index_repo d t o repo text sha s).1.db ≡ s.db =
              (index_repo-KeepsDb d t o repo text sha).at s in
            elim (Option-cases (index_repo d t o repo text sha s).0) [
              | inl n ↦ rw (c, run_packed) (simp (n, ◌>>=◌) (unsaved refl kept))
              | inr (done, p) ↦
                  let (w, b) = (index_repo-Yields text sha).at s done p in
                  let s' = (index_repo d t o repo text sha s).1 in
                  rw (c, run_packed)
                    (simp (p, ◌>>=◌)
                      (subst (λ (b : Db). Ended t o repo b (finish_repo d t repo sha done s')) kept
                        (finish_repo-Ended text sha done e w b s')))
            ]
      ]

  pub ingest_repo-Ended : (s : Stored G) → Ended t o repo s.db (ingest_repo d t o repo s)
  unfolding ingest_repo ◌>>=◌ lift
  ingest_repo-Ended s = elim (Option-cases t.pack) [
    | inl n ↦ simp (n, ◌>>=◌) (unsaved refl refl)
    | inr ((text, sha), e) ↦ simp (e, ◌>>=◌) (run_packed-Ended text sha s e)
  ]
