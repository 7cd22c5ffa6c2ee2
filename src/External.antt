-- ===== src/External.antt =====
-- features/external_ingest/ingest.py: `_resolve_source`, `_chunk` and `ingest_external_source`. The file system and the
-- network, the regular expression that splits at blank lines, the note's writer, the embedding, and
-- the texts that Python makes of a number and of a new uuid are parameters.
pub mod Chunks
pub mod Answer
use ai_forge_memory.Prelude.{
  ℕ, suc, ◌||◌, ◌+◌, String, Bool, true, false, Option, none, some, List, [], ◌∷◌, ◌++◌, ◌==◌, ltb,
  leb, if◌then◌else◌, length,
}
use ai_forge_memory.Prelude.Text.{codes, starts_with, stripped, clip, ◌&◌}
use ai_forge_memory.Query.{Reply, replied, raised}

-- What `_resolve_source` does: a text, its kind and its URI; a `RuntimeError`; or another exception.
pub data Resolved : Type 0 where
  resolved : String → String → Option String → Resolved
  runtime_error : String → Resolved
  other_error : String → Resolved

-- What opening a URL gives: a body, a `URLError` or `TimeoutError`, or another exception.
pub data Fetched : Type 0 where
  fetched : String → Fetched
  url_error : String → Fetched
  fetch_error : String → Fetched

-- What reading a path gives: a text and the path with `~` expanded, no file, or an exception.
pub data FileRead : Type 0 where
  read : String → String → FileRead
  no_file : FileRead
  read_error : String → FileRead

pub record Outside : Type 0 where
  pub fetch : String → Fetched
  pub read_file : String → FileRead
  pub split_blank : String → List String
  pub upsert_note : String → String → List String → Reply String
  pub embed_fn : Option (String → Reply (Unit {0}))
  pub str : ℕ → String
  pub uuid_hex : String

-- `_resolve_source`: a source that is neither a URL nor a file is the text itself.
unfoldable pub resolve_source : Outside → String → Resolved
resolve_source out source =
    if starts_with "http://" source || starts_with "https://" source
    then elim (out.fetch source) [
      | fetched body ↦ resolved body "http" (some source)
      | url_error exc ↦ runtime_error ("http_fetch_failed: " & exc)
      | fetch_error exc ↦ other_error exc
    ]
    else elim (out.read_file source) [
      | read text path ↦ resolved text "file" (some path)
      | no_file ↦ resolved source "raw" none
      | read_error exc ↦ other_error exc
    ]

abbrev pub size : String → ℕ
size s = length (codes s)

-- `[p.strip() for p in … if p.strip()]`
abbrev pub paragraphs : List String → List String
paragraphs [] = []
paragraphs (p ∷ ps) =
    let rest = paragraphs ps in if stripped p == "" then rest else stripped p ∷ rest

-- The paragraph goes to the current chunk, or opens the next: the chunk that is closed, and the
-- current one then.
abbrev pub place : ℕ → String → String → List String × String
place target current para =
    if current == ""
    then ([], para)
    else (if leb (size current + 2 + size para) target
        then ([], current & "\n\n" & para)
        else (current ∷ [], para))

-- The loop, from the chunk `current` on.
unfoldable pub merge : ℕ → String → List String → List String
merge target current [] = if current == "" then [] else current ∷ []
merge target current (para ∷ paras) =
    let (closed, next) = place target current para in closed ++ merge target next paras

-- `_chunk`
unfoldable pub chunk : Outside → ℕ → String → List String
chunk out target text =
    if stripped text == ""
    then []
    else merge target "" (paragraphs (out.split_blank (stripped text)))

pub record Ingested : Type 0 where
  pub ok : Bool
  pub doc_id : Option String
  pub note_ids : List String
  pub errors : List String

abbrev pub start : Ingested
start = record { ok = false; doc_id = none; note_ids = []; errors = [] }

abbrev pub add_error : String → Ingested → Ingested
add_error e r = record r { errors = r.errors ++ (e ∷ []) }

-- `upsert_doc(driver, repo=…, url=…, title=…, summary=…, tags=…)`: `upsert_doc` of the memory store
-- has no parameter `summary`.
unfoldable pub call_upsert_doc : String → String → String → List String → Reply String
call_upsert_doc url title summary tags =
    raised "upsert_doc() got an unexpected keyword argument 'summary'"

-- `x or y`
abbrev pub or_else_text : Option String → String → String
or_else_text none y = y
or_else_text (some x) y = if x == "" then y else x

-- `text[:280] + ("…" if len(text) > 280 else "")`
abbrev summary_of : String → String
summary_of text = clip 280 text & (if ltb 280 (size text) then "…" else "")

unfoldable pub write_doc :
    Outside → String → String → Option String → List String → Ingested → Ingested
write_doc out text title uri tags r =
    elim (call_upsert_doc (or_else_text uri ("raw:" & clip 8 out.uuid_hex)) title (summary_of text)
      tags) [
        | raised exc ↦ add_error ("upsert_doc_failed: " & exc) r
        | replied id ↦ record r { doc_id = some id }
      ]

-- The call of the embedding, if one is asked for.
abbrev pub embedding : Option (String → Reply (Unit {0})) → String → Option (Reply (Unit {0}))
embedding none body = none
embedding (some f) body = some (f body)

-- The answer after the embedding of a note that was written.
abbrev pub embedded : Outside → ℕ → Ingested → Option (Reply (Unit {0})) → Ingested
embedded out idx r none = r
embedded out idx r (some (replied u)) = r
embedded out idx r (some (raised exc)) =
    add_error ("upsert_note_failed[" & out.str idx & "]: " & exc) r

abbrev pub noted : Outside → ℕ → String → Ingested → Reply String → Ingested
noted out idx body r (raised exc) = add_error ("upsert_note_failed[" & out.str idx & "]: " & exc) r
noted out idx body r (replied id) =
    embedded out idx (record r { note_ids = r.note_ids ++ (id ∷ []) }) (embedding out.embed_fn body)

-- One chunk's note.
unfoldable pub write_note : Outside → String → List String → ℕ → String → Ingested → Ingested
write_note out title tags idx body r = noted out idx body r (
    out.upsert_note (title & " #" & out.str (idx + 1)) body
      (tags ++ ("chunk_idx:" & out.str idx ∷ "doc_id:" & or_else_text r.doc_id "-" ∷ [])))

unfoldable pub write_notes : Outside → String → List String → ℕ → List String → Ingested → Ingested
write_notes out title tags idx [] r = r
write_notes out title tags idx (body ∷ bodies) r =
    write_notes out title tags (suc idx) bodies (write_note out title tags idx body r)

abbrev pub is_ok : List String → Bool
is_ok [] = false
is_ok (id ∷ ids) = true

abbrev pub close : Ingested → Ingested
close r = record r { ok = is_ok r.note_ids }

abbrev uri_tags : Option String → List String
uri_tags none = []
uri_tags (some u) = if u == "" then [] else "uri:" & u ∷ []

-- The texts of the tags, and what `title or uri or f"external:{source_type}"` gives.
abbrev pub tags_of : List String → String → String → Option String → List String
tags_of tags type kind uri =
    tags ++ ("source_type:" & type ∷ "ingest_kind:" & kind ∷ []) ++ uri_tags uri

abbrev pub title_of : Option String → Option String → String → String
title_of title uri type = or_else_text title (or_else_text uri ("external:" & type))

abbrev pub ingest_chunks :
    Outside → String → String → Option String → List String → List String → Ingested
ingest_chunks out title text uri tags [] = add_error "empty_source" start
ingest_chunks out title text uri tags (c ∷ cs) =
    close (write_notes out title tags 0 (c ∷ cs) (write_doc out text title uri tags start))

-- An exception of `_resolve_source` that is no `RuntimeError` is not caught.
abbrev pub ingest_resolved :
    Outside → ℕ → String → Option String → List String → Resolved → Reply Ingested
ingest_resolved out target type title tags (runtime_error exc) = replied (add_error exc start)
ingest_resolved out target type title tags (other_error exc) = raised exc
ingest_resolved out target type title tags (resolved text kind uri) = replied (
    ingest_chunks out (title_of title uri type) text uri (tags_of tags type kind uri)
      (chunk out target text))

unfoldable pub ingest_external_source :
    Outside → ℕ → String → String → Option String → List String → Reply Ingested
ingest_external_source out target source type title tags =
    ingest_resolved out target type title tags (resolve_source out source)
