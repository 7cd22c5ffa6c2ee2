-- ===== src/Delta/Ingest/Store.antt =====
-- features/delta/extract.py: what `ingest_delta` leaves in the state database.
use ai_forge_memory.Prelude.{
  String, Bool, true, false, ◌||◌, Option, none, some, List, [], ◌∷◌, if◌then◌else◌, ◌≡◌, refl,
  subst, ◌⊎◌, ◌∙◌, Option-cases, inl, inr,
}
use ai_forge_memory.Prelude.Sort.{sorted}
use ai_forge_memory.Exec.{Exec, pure, lift, attempt, ◌>>=◌, ◌>>◌}
use ai_forge_memory.Exec.Yields.{Yields, Yields-pure, Yields-lift, Yields-any, Yields-bind}
use ai_forge_memory.Ingest.{IngestResult}
use ai_forge_memory.State.{Db}
use ai_forge_memory.Symbol.Walk.{WalkedFile}
use ai_forge_memory.Delta.Detect.{ChangedSet, to_index}
use ai_forge_memory.Delta.Ingest.{
  Driver, Stages, Flags, Stored, on_graph, on_db, walk_subset, write_chunks, index_walked,
  index_if_any, save_state, save_rows, save_head, fresh_hashes, null, is_blank, refresh_meta,
  close_run, index_subset, detach_deleted, walk_and_index, apply_changes,
}

-- The action leaves the state database as it is, whether it returns or raises.
pub record KeepsDb {G A : Type 0} (m : Exec (Stored G) A) : Type 0 where
  pub at : (s : Stored G) → (m s).1.db ≡ s.db

module _ {G A : Type 0} where
  pub KeepsDb-pure : (a : A) → KeepsDb (pure {S = Stored G} a)
  unfolding pure
  KeepsDb-pure a = record { at = λ s. refl }

  pub KeepsDb-lift : (o : Option A) → KeepsDb (lift {S = Stored G} o)
  unfolding lift
  KeepsDb-lift o = record { at = λ s. refl }

  pub KeepsDb-on_graph : (m : Exec G A) → KeepsDb (on_graph m)
  unfolding on_graph
  KeepsDb-on_graph m = record { at = λ s. refl }

  pub KeepsDb-attempt : (m : Exec (Stored G) A) → KeepsDb m → KeepsDb (attempt m)
  unfolding attempt
  KeepsDb-attempt m h = record { at = h.at }

  pub KeepsDb-if :
      (b : Bool) (m k : Exec (Stored G) A) → KeepsDb m → KeepsDb k → KeepsDb (if b then m else k)
  KeepsDb-if true m k h h' = h
  KeepsDb-if false m k h h' = h'

module _ {G A B : Type 0} where
  pub KeepsDb-bind :
      (m : Exec (Stored G) A) (f : A → Exec (Stored G) B)
      → KeepsDb m
      → ((a : A) → KeepsDb (f a))
      → KeepsDb (m >>= f)
  unfolding ◌>>=◌
  KeepsDb-bind m f h k = record {
    at = λ s. elim (Option-cases (m s).0) [
      | inl e ↦ rw (e, ◌>>=◌) (h.at s)
      | inr (a, e) ↦ rw (e, ◌>>=◌) ((k a).at (m s).1 ∙ h.at s)
    ];
  }

pub ruleset keeps =
    (KeepsDb-pure, KeepsDb-lift, KeepsDb-on_graph, KeepsDb-attempt, KeepsDb-if, KeepsDb-bind)

module _ {G Summary Chunk : Type 0} (d : Driver G Summary Chunk) (t : Stages Summary Chunk) where
  pub write_chunks-KeepsDb :
      (repo : String) (p : List Chunk × List String) → KeepsDb (write_chunks d t repo p)
  unfolding write_chunks
  write_chunks-KeepsDb repo ([], bad) = search keeps
  write_chunks-KeepsDb repo (c ∷ cs, bad) = search keeps

  index_walked-KeepsDb :
      (o : Flags) (repo : String) (ws : List WalkedFile) → KeepsDb (index_walked d t o repo ws)
  unfolding index_walked
  index_walked-KeepsDb o repo ws = search (keeps, write_chunks-KeepsDb) depth 14

  index_if_any-KeepsDb :
      (o : Flags) (repo : String) (ws : List WalkedFile) → KeepsDb (index_if_any d t o repo ws)
  unfolding index_if_any
  index_if_any-KeepsDb o repo [] = search keeps
  index_if_any-KeepsDb o repo (w ∷ ws) = index_walked-KeepsDb o repo (w ∷ ws)

  refresh_meta-KeepsDb : (repo : String) → KeepsDb (refresh_meta d t repo)
  unfolding refresh_meta
  refresh_meta-KeepsDb repo = search keeps

-- The files whose embedding failed: those that the chunking names, or none where it was skipped or
-- there was nothing to chunk.
abbrev pub FailedBy :
    {Summary Chunk : Type 0} → Stages Summary Chunk → List WalkedFile → List String → Type 0
FailedBy {Chunk = Chunk} t walked bad =
    (bad ≡ []) ⊎ ((chunks : List Chunk) × (t.chunk_and_embed walked ≡ some (chunks, bad)))

module _ {G Summary Chunk : Type 0} (d : Driver G Summary Chunk) (t : Stages Summary Chunk)
    (repo : String) (ws : List WalkedFile) where
  write_chunks-Yields :
      (p : List Chunk × List String)
      → t.chunk_and_embed ws ≡ some p
      → Yields (write_chunks d t repo p) (λ r. FailedBy t ws r.1)
  unfolding write_chunks
  write_chunks-Yields ([], bad) e = Yields-pure _ _ (inr ([], e))
  write_chunks-Yields (c ∷ cs, bad) e =
      Yields-bind _ _ _ _ (Yields-any _) (λ n u. Yields-pure _ _ (inr (c ∷ cs, e)))

  pub chunked-Yields :
      (skip : Bool)
      → Yields
          (if skip
            then pure (0, [])
            else (do pieces ← lift (t.chunk_and_embed ws); write_chunks d t repo pieces))
          (λ r. FailedBy t ws r.1)
  chunked-Yields true = Yields-pure _ _ (inl refl)
  chunked-Yields false =
      Yields-bind _ _ _ _ (Yields-lift (t.chunk_and_embed ws)) write_chunks-Yields

  index_walked-Yields : (o : Flags) → Yields (index_walked d t o repo ws) (λ r. FailedBy t ws r.1)
  unfolding index_walked
  index_walked-Yields o = Yields-bind _ _ _ _ (Yields-any _) (λ c u.
      Yields-bind _ _ _ _ (Yields-any _) (λ e u'. Yields-bind _ _ _ _ (Yields-any _) (λ n u''.
        Yields-bind _ _ _ _ (Yields-any _)
          (λ k v. Yields-bind _ _ _ _ (chunked-Yields o.skip_chunks) (λ p h. Yields-pure _ _ h)))))

index_if_any-Yields :
    {G Summary Chunk : Type 0} (d : Driver G Summary Chunk) (t : Stages Summary Chunk)
    (repo : String) (ws : List WalkedFile) (o : Flags)
    → Yields (index_if_any d t o repo ws) (λ r. FailedBy t ws r.1)
unfolding index_if_any
index_if_any-Yields d t repo [] o = Yields-pure _ _ (inl refl)
index_if_any-Yields d t repo (w ∷ ws) o = index_walked-Yields d t repo (w ∷ ws) o

-- How a run of `apply_changes` can end: it raised and the database is as it was; or the walk gave
-- some files, and the database is what `save_state` makes of it for those that changed; or the write
-- of the head raised, after that of their rows.
pub data Outcome {G Summary Chunk : Type 0} (t : Stages Summary Chunk) (repo : String)
    (cs : ChangedSet) (db : Db) (r : Option IngestResult × Stored G) : Type 0 where
  unsaved : r.0 ≡ none → r.1.db ≡ db → Outcome t repo cs db r
  saved :
      (walked : List WalkedFile) (bad : List String) (res : IngestResult)
      → t.walk_repo ≡ some walked
      → r.0 ≡ some res
      → r.1.db ≡ save_state repo cs (walk_subset (sorted (to_index cs.changes)) walked) bad db
      → Outcome t repo cs db r
  half :
      (walked : List WalkedFile) (bad : List String)
      → t.walk_repo ≡ some walked
      → t.head_saved ≡ false
      → FailedBy t (walk_subset (sorted (to_index cs.changes)) walked) bad
      → r.0 ≡ none
      → r.1.db ≡ save_rows repo (walk_subset (sorted (to_index cs.changes)) walked) bad db
      → Outcome t repo cs db r

or_left : (a b : Bool) → (a || b) ≡ false → a ≡ false
or_left true b h = h
or_left false b h = refl

pub bind_split :
    {S A B : Type 0} (m : Exec S A) (f : A → Exec S B) (s : S)
    → (((m >>= f) s ≡ (none, (m s).1))
        ⊎ ((a : A) × ((m s).0 ≡ some a) × ((m >>= f) s ≡ f a (m s).1)))
unfolding ◌>>=◌
bind_split m f s = elim (Option-cases (m s).0) [
  | inl e ↦ inl (rw (e, ◌>>=◌))
  | inr (a, e) ↦ inr (a, e, rw (e, ◌>>=◌))
]

module _ {G Summary Chunk : Type 0} (d : Driver G Summary Chunk) (t : Stages Summary Chunk)
    (repo : String) (cs : ChangedSet) where
  abbrev subset_of : List WalkedFile → List WalkedFile
  subset_of walked = walk_subset (sorted (to_index cs.changes)) walked

  -- The end of a run, where the two writes of the database succeed or raise.
  writes-Outcome :
      (walked : List WalkedFile) (indexed : IngestResult × List String) (s : Stored G)
      (rows_ok head_ok : Bool)
      → t.walk_repo ≡ some walked
      → FailedBy t (subset_of walked) indexed.1
      → (head_ok ≡ false → t.head_saved ≡ false)
      → Outcome t repo cs s.db (
          (do
            on_db rows_ok (save_rows repo (subset_of walked) indexed.1)
            on_db head_ok (save_head repo cs)
            refresh_meta d t repo
            pure (record (indexed.0) { pack_sha = cs.head_sha }))
            s)
  unfolding ◌>>=◌ on_db pure attempt refresh_meta save_state
  writes-Outcome walked indexed s false head_ok e b h = unsaved refl refl
  writes-Outcome walked indexed s true false e b h = half walked indexed.1 e (h refl) b refl refl
  writes-Outcome walked indexed s true true e b h =
      saved walked indexed.1 (record (indexed.0) { pack_sha = cs.head_sha }) e refl
        ((refresh_meta-KeepsDb d t repo).at
          (record s { db = save_state repo cs (subset_of walked) indexed.1 s.db }))

  close_run-Outcome :
      (walked : List WalkedFile) (indexed : IngestResult × List String) (s : Stored G)
      → t.walk_repo ≡ some walked
      → FailedBy t (subset_of walked) indexed.1
      → Outcome t repo cs s.db (close_run d t repo cs (subset_of walked) indexed s)
  unfolding close_run
  close_run-Outcome walked indexed s e b =
      writes-Outcome walked indexed s
        (t.rows_saved || null (fresh_hashes indexed.1 (subset_of walked)))
        (t.head_saved || is_blank cs.head_sha) e b (or_left t.head_saved (is_blank cs.head_sha))

  detach_deleted-KeepsDb : KeepsDb (detach_deleted d t repo cs)
  unfolding detach_deleted
  detach_deleted-KeepsDb = search keeps

  module _ (o : Flags) where
    -- What a step that kept the database hands on to the rest.
    Outcome-after :
        {A : Type 0} (m : Exec (Stored G) A) (f : A → Exec (Stored G) IngestResult) (s : Stored G)
        (P : A → Type 0)
        → KeepsDb m
        → Yields m P
        → ((a : A) (s' : Stored G) → P a → Outcome t repo cs s'.db (f a s'))
        → Outcome t repo cs s.db ((m >>= f) s)
    Outcome-after m f s P k y rest = elim (bind_split m f s) [
      | inl q ↦ rw q (unsaved refl (k.at s))
      | inr (a, p, q) ↦
          rw q (
            subst (λ db. Outcome t repo cs db (f a (m s).1)) (k.at s) (rest a (m s).1 (y.at s a p)))
    ]

    index_subset-Outcome :
        (walked : List WalkedFile) (s : Stored G)
        → t.walk_repo ≡ some walked
        → Outcome t repo cs s.db (index_subset d t o repo cs walked s)
    unfolding index_subset
    index_subset-Outcome walked s e =
        Outcome-after (index_if_any d t o repo (subset_of walked))
          (close_run d t repo cs (subset_of walked)) s (λ r. FailedBy t (subset_of walked) r.1)
          (index_if_any-KeepsDb d t o repo (subset_of walked))
          (index_if_any-Yields d t repo (subset_of walked) o)
          (λ a s' b. close_run-Outcome walked a s' e b)

    walk_and_index-Outcome :
        (s : Stored G) → Outcome t repo cs s.db (walk_and_index d t o repo cs s)
    unfolding walk_and_index ◌>>=◌ lift
    walk_and_index-Outcome s = elim (Option-cases t.walk_repo) [
      | inl e ↦ simp (e, ◌>>=◌) (unsaved refl refl)
      | inr (walked, e) ↦ simp (e, ◌>>=◌) (index_subset-Outcome walked s e)
    ]

    pub apply_changes-Outcome :
        (s : Stored G) → Outcome t repo cs s.db (apply_changes d t o repo cs s)
    unfolding apply_changes
    apply_changes-Outcome s =
        Outcome-after (detach_deleted d t repo cs) (λ u. walk_and_index d t o repo cs) s (λ u. Unit)
          detach_deleted-KeepsDb (Yields-any _) (λ u s' v. walk_and_index-Outcome s')
