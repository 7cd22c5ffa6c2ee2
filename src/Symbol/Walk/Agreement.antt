-- ===== src/Symbol/Walk/Agreement.antt =====
-- features/symbol/extract.py and features/delta/extract.py: the walk and the hashing of the merkle
-- fallback decide in two places which files count.
use ai_forge_memory.Prelude.{
  String, true, false, not, ◌||◌, ◌&&◌, is_some, List, [], ◌∷◌, ◌++◌, ◌≡◌, refl, arith, Bool-cases,
  Option-cases, inl, inr, All,
}
use ai_forge_memory.Prelude.Sort.{contains}
use ai_forge_memory.Prelude.Dict.{Dict, insert, insert_all}
use ai_forge_memory.Symbol.Walk.{
  FileEntry, WalkedFile, code_lang, doc_lang, is_manifest, lang_for, meets_skip, is_source,
  walk_repo, hash_repo,
}

-- The rows that an ingest stores for walked files.
abbrev pub hashes_of : List WalkedFile → Dict String
hashes_of [] = []
hashes_of (w ∷ ws) = (w.path, w.hash) ∷ hashes_of ws

meets_skip-append : (ps qs : List String) → meets_skip (ps ++ qs) ≡ (meets_skip ps || meets_skip qs)
meets_skip-append [] qs = refl
meets_skip-append (p ∷ ps) qs = ground (arith, meets_skip-append ps qs)

lang_for_known :
    (e : FileEntry)
    → is_some (lang_for e)
      ≡ (is_some (code_lang e.suffix) || is_some (doc_lang e.suffix) || is_manifest e.name)
unfolding lang_for
lang_for_known e = ground arith

-- One file counts for both, or for neither.
same_test :
    (root : List String) (e : FileEntry)
    → meets_skip root ≡ false
    → is_source root e ≡ (e.is_file && not (meets_skip e.parts) && is_some (lang_for e))
same_test root e h = rw (meets_skip-append root e.parts, h, lang_for_known e) (ground arith)

-- Where no part of the root's own path is a skipped directory and git ignores none of the files,
-- the merkle fallback hashes exactly the files that the walk takes, so that the rows an ingest
-- stores and those it later compares agree.
pub hash_repo-walk_repo :
    (root ignored : List String) (es : List FileEntry) (out : Dict String)
    → meets_skip root ≡ false
    → All (λ e. contains e.path ignored ≡ false) es
    → hash_repo es out ≡ insert_all (hashes_of (walk_repo root ignored es)) out
unfolding hash_repo walk_repo
hash_repo-walk_repo root ignored [] out h g = refl
hash_repo-walk_repo root ignored (e ∷ es) out h (here, g) =
    let ih : (o : Dict String)
        → hash_repo es o ≡ insert_all (hashes_of (walk_repo root ignored es)) o =
      λ o. hash_repo-walk_repo root ignored es o h g in
    rw (here, same_test root e h)
      (elim (Bool-cases (e.is_file && not (meets_skip e.parts) && is_some (lang_for e))) [
        | inl t ↦ rw t (elim (Option-cases e.content) [
          | inl u ↦ rw u (ih out)
          | inr (c, r) ↦ rw r (ih (insert e.path c.0 out))
        ])
        | inr f ↦ rw f (ih out)
      ])

-- A root below a directory with a skipped name (`build`, `target`, `dist` and so on) is walked as if
-- it held no file at all, whatever it holds.
walk_repo-skipped_root :
    (root ignored : List String) (es : List FileEntry)
    → meets_skip root ≡ true
    → walk_repo root ignored es ≡ []
unfolding walk_repo
walk_repo-skipped_root root ignored [] h = refl
walk_repo-skipped_root root ignored (e ∷ es) h =
    rw (meets_skip-append root e.parts, h) (walk_repo-skipped_root root ignored es h)
