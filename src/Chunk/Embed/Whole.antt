-- ===== src/Chunk/Embed/Whole.antt =====
-- features/chunk/embed.py: no line of a source file is left out of its chunks.
use ai_forge_memory.Prelude.{
  ℕ, suc, ◌+◌, ◌≤◌, ◌<◌, String, Bool, true, false, ◌||◌, Option, none, some, List, [], ◌∷◌, ◌++◌,
  ◌==◌, ◌≡◌, refl, ◌⊎◌, inl, inr, length, ltb, arith, if◌then◌else◌, All, ap,
}
use mathlib.Core.Option
use mathlib.Core.List.{map}
use ai_forge_memory.Prelude.Text.{Text}
use ai_forge_memory.Symbol.Walk.{WalkedFile}
use ai_forge_memory.Chunk.Split.{ℤ, IsNatural, Window, all_windows, piece_of, join_lines, split}
use ai_forge_memory.Chunk.Split.Cover.{IsWindow, Covers, IsCover, all_windows-IsCover}
use ai_forge_memory.Chunk.Split.Taken.{run}
use ai_forge_memory.Chunk.Split.Lines.{window_run}
use ai_forge_memory.Chunk.Embed.{
  Sizes, Content, Machine, WalkedChunk, numbered, is_doc, cap, read_chunks, file_chunks, append,
  chunk_and_embed,
}
use ai_forge_memory.Chunk.Embed.Runs.{IsPositive, IsChunking, chunk_and_embed-IsChunking}

-- Line `j`, from 0, of the file at this path, which has these lines, lies in one of the chunks, and
-- the text of that chunk is the lines that it names.
abbrev pub HasLine : String → List Text → ℕ → List WalkedChunk → Type 0
HasLine path lines j [] = ⊥
HasLine path lines j (c ∷ cs) =
    ((c.file_path ≡ path)
      × (c.line_start ≤ j + 1)
      × (j + 1 ≤ c.line_end)
      × (c.text ≡ join_lines (run lines c.line_start c.line_end)))
    ⊎ HasLine path lines j cs

abbrev pub Returns : String → List Text → ℕ → Option (List WalkedChunk × List String) → Type 0
Returns path lines j none = ⊥
Returns path lines j (some (chunks, failed)) = HasLine path lines j chunks

abbrev OwnHasLine : String → List Text → ℕ → Option (List WalkedChunk) → Type 0
OwnHasLine path lines j none = ⊥
OwnHasLine path lines j (some cs) = HasLine path lines j cs

abbrev pub IsOneOf : WalkedFile → List WalkedFile → Type 0
IsOneOf wf [] = ⊥
IsOneOf wf (w ∷ walked) = (wf ≡ w) ⊎ IsOneOf wf walked

HasLine-left :
    (path : String) (lines : List Text) (j : ℕ) (cs ds : List WalkedChunk)
    → HasLine path lines j cs
    → HasLine path lines j (cs ++ ds)
HasLine-left path lines j [] ds h = absurd h
HasLine-left path lines j (c ∷ cs) ds (inl h) = inl h
HasLine-left path lines j (c ∷ cs) ds (inr h) = inr (HasLine-left path lines j cs ds h)

HasLine-right :
    (path : String) (lines : List Text) (j : ℕ) (cs ds : List WalkedChunk)
    → HasLine path lines j ds
    → HasLine path lines j (cs ++ ds)
HasLine-right path lines j [] ds h = h
HasLine-right path lines j (c ∷ cs) ds h = inr (HasLine-right path lines j cs ds h)

numbered-HasLine :
    (m : Machine) (repo path : String) (size : ℕ) (lines : List Text) (j idx : ℕ) (ws : List Window)
    → All (IsWindow size lines) ws
    → Covers j ws
    → HasLine path lines j (numbered m repo path idx (map piece_of ws))
numbered-HasLine m repo path size lines j idx [] all h = h
numbered-HasLine m repo path size lines j idx ((i, chunk) ∷ ws) (w, all) (inl (a, b)) =
    inl (refl, omega (arith, a), omega (arith, b), ap join_lines (window_run size lines i chunk w))
numbered-HasLine m repo path size lines j idx ((i, chunk) ∷ ws) (w, all) (inr h) =
    inr (numbered-HasLine m repo path size lines j (suc idx) ws all h)

windows-HasLine :
    (m : Machine) (repo path : String) (size j : ℕ) (lines : List Text) (ws : Option (List Window))
    → j < length lines
    → IsCover size lines 0 ws
    → OwnHasLine path lines j (Option.map (numbered m repo path 0) (Option.map (map piece_of) ws))
windows-HasLine m repo path size j lines none lt c = c
windows-HasLine m repo path size j lines (some ws) lt (all, cover) =
    numbered-HasLine m repo path size lines j 0 ws all (cover j (omega arith) lt)

split-HasLine :
    (m : Machine) (repo path : String) (size : ℕ) (overlap : ℤ) (j : ℕ) (lines : List Text)
    → 1 ≤ size
    → IsNatural overlap
    → j < length lines
    → OwnHasLine path lines j (Option.map (numbered m repo path 0) (split size overlap lines))
unfolding split
split-HasLine m repo path size overlap j lines pos natural lt =
    windows-HasLine m repo path size j lines (all_windows size overlap lines) lt
      (all_windows-IsCover size overlap lines pos natural)

if_false :
    (path : String) (lines : List Text) (j : ℕ) (b : Bool) (r s : Option (List WalkedChunk))
    → b ≡ false
    → OwnHasLine path lines j r
    → OwnHasLine path lines j (if b then s else r)
if_false path lines j true r s e h = cc
if_false path lines j false r s e h = h

read_chunks-HasLine :
    (m : Machine) (z : Sizes) (repo : String) (wf : WalkedFile) (content : Content) (j : ℕ)
    → IsPositive z
    → is_doc wf ≡ false
    → ltb (cap z wf) content.bytes ≡ false
    → j < length content.lines
    → OwnHasLine wf.path content.lines j (read_chunks m z repo wf (some content))
read_chunks-HasLine m z repo wf content j (pos, doc, natural) code small lt =
    if_false wf.path content.lines j (ltb (cap z wf) content.bytes) _ (some []) small (
      rw code
        (split-HasLine m repo wf.path z.chunk_lines z.chunk_overlap j content.lines pos natural lt))

file_chunks-HasLine :
    (m : Machine) (z : Sizes) (repo : String) (wf : WalkedFile) (content : Content) (j : ℕ)
    → IsPositive z
    → (wf.parse_error || (wf.lang == "other")) ≡ false
    → is_doc wf ≡ false
    → m.read wf.path ≡ some content
    → ltb (cap z wf) content.bytes ≡ false
    → j < length content.lines
    → OwnHasLine wf.path content.lines j (file_chunks m z repo wf)
unfolding file_chunks
file_chunks-HasLine m z repo wf content j pos eligible code found small lt =
    if_false wf.path content.lines j (wf.parse_error || (wf.lang == "other")) _ (some []) eligible
      (rw found (read_chunks-HasLine m z repo wf content j pos code small lt))

append-left :
    (path : String) (lines : List Text) (j : ℕ) (m : Machine) (z : Sizes) (repo : String)
    (walked : List WalkedFile) (own : Option (List WalkedChunk))
    (rest : Option (List WalkedChunk × List String))
    → OwnHasLine path lines j own
    → IsChunking m z repo walked rest
    → Returns path lines j (append own rest)
append-left path lines j m z repo walked none rest h k = absurd h
append-left path lines j m z repo walked (some cs) none h k = absurd k
append-left path lines j m z repo walked (some cs) (some (ds, failed)) h k =
    HasLine-left path lines j cs ds h

append-right :
    (path : String) (lines : List Text) (j : ℕ) (m : Machine) (z : Sizes) (repo : String)
    (wf : WalkedFile) (own : Option (List WalkedChunk))
    (rest : Option (List WalkedChunk × List String))
    → IsChunking m z repo (wf ∷ []) (append own (some ([], [])))
    → Returns path lines j rest
    → Returns path lines j (append own rest)
append-right path lines j m z repo wf none rest h k = absurd h
append-right path lines j m z repo wf (some cs) none h k = absurd k
append-right path lines j m z repo wf (some cs) (some (ds, failed)) h k =
    HasLine-right path lines j cs ds k

-- With chunks of at least one line and an overlap that is not negative, every line of a walked source
-- file that was parsed, is of a known language and no document, can be read and is not above the cap,
-- lies between the `line_start` and the `line_end` of a chunk of that file whose text is the file's
-- lines from the one to the other, joined by line breaks.
pub chunk_and_embed_lines :
    (m : Machine) (z : Sizes) (repo : String) (walked : List WalkedFile) (wf : WalkedFile)
    (content : Content) (j : ℕ)
    → IsPositive z
    → IsOneOf wf walked
    → (wf.parse_error || (wf.lang == "other")) ≡ false
    → is_doc wf ≡ false
    → m.read wf.path ≡ some content
    → ltb (cap z wf) content.bytes ≡ false
    → j < length content.lines
    → Returns wf.path content.lines j (chunk_and_embed m z repo walked)
unfolding chunk_and_embed
chunk_and_embed_lines m z repo [] wf content j pos h eligible code found small lt = h
chunk_and_embed_lines m z repo (w ∷ walked) wf content j pos (inl e) eligible code found small lt =
    append-left wf.path content.lines j m z repo walked (file_chunks m z repo w)
      (chunk_and_embed m z repo walked)
      (rw⁻¹ e (file_chunks-HasLine m z repo wf content j pos eligible code found small lt))
      (chunk_and_embed-IsChunking m z repo walked pos)
chunk_and_embed_lines m z repo (w ∷ walked) wf content j pos (inr h) eligible code found small lt =
    append-right wf.path content.lines j m z repo w (file_chunks m z repo w)
      (chunk_and_embed m z repo walked) (chunk_and_embed-IsChunking m z repo (w ∷ []) pos)
      (chunk_and_embed_lines m z repo walked wf content j pos h eligible code found small lt)
