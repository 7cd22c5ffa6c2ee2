-- ===== src/External/Answer.antt =====
-- features/external_ingest/ingest.py: what `ingest_external_source` answers.
use ai_forge_memory.Prelude.{
  ℕ, suc, String, Option, none, some, List, [], ◌∷◌, ◌++◌, ◌≡◌, ◌≢◌, refl, subst, ◌+◌,
}
use ai_forge_memory.Prelude.Text.{◌&◌}
use ai_forge_memory.Query.{Reply, replied, raised}
use ai_forge_memory.External.{
  Outside, resolve_source, Resolved, resolved, runtime_error, other_error, Ingested, add_error,
  call_upsert_doc, write_doc, embedded, embedding, write_note, write_notes, is_ok, start,
  ingest_chunks, ingest_resolved, title_of, tags_of, or_else_text, noted, chunk,
  ingest_external_source,
}

-- The answer has an error and no document.
abbrev Fails : Ingested → Type 0
Fails r = (r.doc_id ≡ none) × (r.errors ≢ [])

grown : {A : Type 0} (xs : List A) (x : A) → xs ++ (x ∷ []) ≢ []
grown [] x e = cc
grown (y ∷ xs) x e = cc

add_error-Fails : (e : String) (r : Ingested) → Fails r → Fails (add_error e r)
add_error-Fails e r (d, n) = (d, grown r.errors e)

embedded-Fails :
    (out : Outside) (idx : ℕ) (r : Ingested) (found : Option (Reply (Unit {0})))
    → Fails r
    → Fails (embedded out idx r found)
embedded-Fails out idx r none h = h
embedded-Fails out idx r (some (replied u)) h = h
embedded-Fails out idx r (some (raised exc)) h = add_error-Fails _ r h

write_note-Fails :
    (out : Outside) (title : String) (tags : List String) (idx : ℕ) (body : String) (r : Ingested)
    → Fails r
    → Fails (write_note out title tags idx body r)
unfolding write_note
write_note-Fails out title tags idx body r h = noted_as (
    out.upsert_note (title & " #" & out.str (idx + 1)) body
      (tags ++ ("chunk_idx:" & out.str idx ∷ "doc_id:" & or_else_text r.doc_id "-" ∷ [])))
  where
    noted_as : (reply : Reply String) → Fails (noted out idx body r reply)
    noted_as (raised exc) = add_error-Fails _ r h
    noted_as (replied id) =
        embedded-Fails out idx (record r { note_ids = r.note_ids ++ (id ∷ []) })
          (embedding out.embed_fn body) h

write_notes-Fails :
    (out : Outside) (title : String) (tags : List String) (idx : ℕ) (bodies : List String)
    (r : Ingested)
    → Fails r
    → Fails (write_notes out title tags idx bodies r)
unfolding write_notes
write_notes-Fails out title tags idx [] r h = h
write_notes-Fails out title tags idx (body ∷ bodies) r h =
    write_notes-Fails out title tags (suc idx) bodies _
      (write_note-Fails out title tags idx body r h)

ingest_chunks-Fails :
    (out : Outside) (title text : String) (uri : Option String) (tags chunks : List String)
    → Fails (ingest_chunks out title text uri tags chunks)
unfolding write_doc call_upsert_doc
ingest_chunks-Fails out title text uri tags [] = (refl, grown [] "empty_source")
ingest_chunks-Fails out title text uri tags (c ∷ cs) =
    write_notes-Fails out title tags 0 (c ∷ cs) (write_doc out text title uri tags start)
      (refl, grown [] _)

ingest_chunks_ok :
    (out : Outside) (title text : String) (uri : Option String) (tags chunks : List String)
    → let r = ingest_chunks out title text uri tags chunks in r.ok ≡ is_ok r.note_ids
ingest_chunks_ok out title text uri tags [] = refl
ingest_chunks_ok out title text uri tags (c ∷ cs) = refl

-- What holds of an answer, if there is one.
abbrev Answers : Reply Ingested → Type 0
Answers (raised exc) = Unit
Answers (replied r) = (r.doc_id ≡ none) × (r.errors ≢ []) × (r.ok ≡ is_ok r.note_ids)

-- Whatever the source and however the writers behave, an answer of `ingest_external_source` has no
-- document and at least one error; it says `ok` exactly when a note was written.
pub ingest_external_source_no_document :
    (out : Outside) (target : ℕ) (source type : String) (title : Option String) (tags : List String)
    (r : Ingested)
    → ingest_external_source out target source type title tags ≡ replied r
    → (r.doc_id ≡ none) × (r.errors ≢ []) × (r.ok ≡ is_ok r.note_ids)
unfolding ingest_external_source
ingest_external_source_no_document out target source type title tags r e =
    subst Answers e (answered (resolve_source out source))
  where
    answered : (found : Resolved) → Answers (ingest_resolved out target type title tags found)
    answered (runtime_error exc) = (refl, grown [] exc, refl)
    answered (other_error exc) = tt
    answered (resolved text kind uri) =
        let title' = title_of title uri type in
        let tags' = tags_of tags type kind uri in
        let (d, n) = ingest_chunks-Fails out title' text uri tags' (chunk out target text) in
        (d, n, ingest_chunks_ok out title' text uri tags' (chunk out target text))
