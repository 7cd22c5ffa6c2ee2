-- ===== src/Chunk/Embed.antt =====
-- features/chunk/embed.py: `chunk_and_embed` and `_chunk_id`. The file system, `hashlib.sha256` and
-- the printing of a number are parameters, and so are the sizes, which the environment sets; a file
-- is read as its size and the lines of its decoded text.
pub mod Runs
pub mod Whole
use ai_forge_memory.Prelude.{
  ℕ, zero, suc, ◌*◌, String, Bool, true, false, not, ◌&&◌, ◌||◌, Option, none, some, List, [], ◌∷◌,
  ◌++◌, ◌==◌, length, leb, ltb, if◌then◌else◌,
}
use mathlib.Core.Option
use ai_forge_memory.Prelude.Text.{Text, starts_with, clip, ◌&◌}
use ai_forge_memory.Symbol.Walk.{WalkedFile}
use ai_forge_memory.Chunk.Split.{ℤ, Piece, split, split_doc}

pub record Sizes : Type 0 where
  pub max_file_bytes : ℕ
  pub doc_max_file_bytes : ℕ
  pub chunk_lines : ℕ
  pub doc_chunk_lines : ℕ
  pub chunk_overlap : ℤ

-- A file that was read: the number of its bytes, and its lines.
pub record Content : Type 0 where
  pub bytes : ℕ
  pub lines : List Text

-- `read` is `none` where `read_bytes` raises `OSError`; `sha256` is the digest in hexadecimal.
pub record Machine : Type 0 where
  pub read : String → Option Content
  pub sha256 : String → String
  pub str : ℕ → String

pub record WalkedChunk : Type 0 where
  pub id : String
  pub repo : String
  pub file_path : String
  pub text : Text
  pub token_count : ℕ
  pub line_start : ℕ
  pub line_end : ℕ

abbrev pub quarter : ℕ → ℕ
quarter (suc (suc (suc (suc n)))) = suc (quarter n)
quarter n = zero

-- `_chunk_id`
abbrev pub chunk_id : Machine → String → String → ℕ → String
chunk_id m repo path idx = clip 32 (m.sha256 (repo & "::" & path & "::" & m.str idx))

abbrev pub walked_chunk : Machine → String → String → ℕ → Piece → WalkedChunk
walked_chunk m repo path idx p = record {
  id = chunk_id m repo path idx;
  repo = repo;
  file_path = path;
  text = p.text;
  token_count = quarter (length p.text);
  line_start = p.line_start;
  line_end = p.line_end;
}

-- The loop that appends the chunks of a file, from index `idx` on.
abbrev pub numbered : Machine → String → String → ℕ → List Piece → List WalkedChunk
numbered m repo path idx [] = []
numbered m repo path idx (p ∷ ps) =
    walked_chunk m repo path idx p ∷ numbered m repo path (suc idx) ps

abbrev pub is_doc : WalkedFile → Bool
is_doc wf = starts_with "doc-" wf.lang

abbrev pub cap : Sizes → WalkedFile → ℕ
cap z wf = if is_doc wf then z.doc_max_file_bytes else z.max_file_bytes

abbrev pub pieces : Sizes → WalkedFile → List Text → Option (List Piece)
pieces z wf lines =
    if is_doc wf
    then split_doc z.doc_chunk_lines z.chunk_overlap lines
    else split z.chunk_lines z.chunk_overlap lines

-- The chunks of a file that was read; `none` where the split does not end.
abbrev pub read_chunks :
    Machine → Sizes → String → WalkedFile → Option Content → Option (List WalkedChunk)
read_chunks m z repo wf none = some []
read_chunks m z repo wf (some content) =
    if ltb (cap z wf) content.bytes
    then some []
    else Option.map (numbered m repo wf.path 0) (pieces z wf content.lines)

-- One round of the loop.
unfoldable pub file_chunks : Machine → Sizes → String → WalkedFile → Option (List WalkedChunk)
file_chunks m z repo wf =
    if wf.parse_error || (wf.lang == "other")
    then some []
    else read_chunks m z repo wf (m.read wf.path)

abbrev pub append :
    Option (List WalkedChunk)
    → Option (List WalkedChunk × List String)
    → Option (List WalkedChunk × List String)
append none r = none
append (some cs) none = none
append (some cs) (some (ds, failed)) = some (cs ++ ds, failed)

-- `chunk_and_embed`: the chunks, and the paths that failed.
unfoldable pub chunk_and_embed :
    Machine → Sizes → String → List WalkedFile → Option (List WalkedChunk × List String)
chunk_and_embed m z repo [] = some ([], [])
chunk_and_embed m z repo (wf ∷ walked) =
    append (file_chunks m z repo wf) (chunk_and_embed m z repo walked)
