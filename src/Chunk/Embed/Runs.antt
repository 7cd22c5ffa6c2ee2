-- ===== src/Chunk/Embed/Runs.antt =====
-- features/chunk/embed.py: every chunk is a run of lines of a file that the walk gave.
use ai_forge_memory.Prelude.{
  ℕ, suc, Bool, ◌≤◌, String, true, false, ◌||◌, Option, none, some, List, [], ◌∷◌, ◌==◌, ◌≡◌, refl,
  ◌⊎◌, inl, inr, ltb, All, All-append, All-weaken, Bool-cases, if◌then◌else◌,
}
use mathlib.Core.Option
use ai_forge_memory.Symbol.Walk.{WalkedFile}
use ai_forge_memory.Chunk.Split.{IsNatural, Piece}
use ai_forge_memory.Chunk.Split.Lines.{IsText, IsRun, AreRuns, split-AreRuns, split_doc-AreRuns}
use ai_forge_memory.Chunk.Embed.{
  Sizes, Content, Machine, WalkedChunk, numbered, is_doc, cap, pieces, read_chunks, file_chunks,
  append, chunk_and_embed,
}

-- Every kind of file is split into chunks of at least one line, with an overlap that is not negative.
abbrev pub IsPositive : Sizes → Type 0
IsPositive z = (1 ≤ z.chunk_lines) × (1 ≤ z.doc_chunk_lines) × IsNatural z.chunk_overlap

-- The chunk is a run of lines of the file that was read, with their text.
abbrev IsRunOf : Machine → Sizes → WalkedFile → WalkedChunk → Option Content → Type 0
IsRunOf m z wf c none = ⊥
IsRunOf m z wf c (some content) =
    (ltb (cap z wf) content.bytes ≡ false)
    × IsText (is_doc wf) content.lines c.text c.line_start c.line_end

-- The chunk comes from this file, which was parsed, is of a known language and is not too large.
abbrev pub IsFrom : Machine → Sizes → String → WalkedFile → WalkedChunk → Type 0
IsFrom m z repo wf c =
    (wf.parse_error ≡ false)
    × ((wf.lang == "other") ≡ false)
    × (c.repo ≡ repo)
    × (c.file_path ≡ wf.path)
    × IsRunOf m z wf c (m.read wf.path)

abbrev pub IsFromOne : Machine → Sizes → String → List WalkedFile → WalkedChunk → Type 0
IsFromOne m z repo [] c = ⊥
IsFromOne m z repo (wf ∷ walked) c = IsFrom m z repo wf c ⊎ IsFromOne m z repo walked c

abbrev pub IsChunking :
    Machine → Sizes → String → List WalkedFile → Option (List WalkedChunk × List String) → Type 0
IsChunking m z repo walked none = ⊥
IsChunking m z repo walked (some (chunks, failed)) =
    All (IsFromOne m z repo walked) chunks × (failed ≡ [])

abbrev AreFrom : Machine → Sizes → String → WalkedFile → Option (List WalkedChunk) → Type 0
AreFrom m z repo wf none = ⊥
AreFrom m z repo wf (some cs) = All (IsFrom m z repo wf) cs

pieces-AreRuns :
    (z : Sizes) (wf : WalkedFile) (content : Content)
    → IsPositive z
    → AreRuns (is_doc wf) content.lines (pieces z wf content.lines)
pieces-AreRuns z wf content (code, doc, natural) = elim (Bool-cases (is_doc wf)) [
  | inl t ↦ rw t (split_doc-AreRuns z.doc_chunk_lines z.chunk_overlap content.lines doc natural)
  | inr f ↦ rw f (split-AreRuns z.chunk_lines z.chunk_overlap false content.lines code natural)
]

-- A file that passed the tests of the round.
module _ (m : Machine) (z : Sizes) (repo : String) (wf : WalkedFile) (content : Content)
    (parsed : wf.parse_error ≡ false) (known : (wf.lang == "other") ≡ false)
    (found : m.read wf.path ≡ some content) (small : ltb (cap z wf) content.bytes ≡ false) where
  numbered-AreFrom :
      (idx : ℕ) (ps : List Piece)
      → All (IsRun (is_doc wf) content.lines) ps
      → All (IsFrom m z repo wf) (numbered m repo wf.path idx ps)
  numbered-AreFrom idx [] all = tt
  numbered-AreFrom idx (p ∷ ps) (run, all) =
      ((parsed, known, refl, refl, rw found (small, run)), numbered-AreFrom (suc idx) ps all)

  numbered-AreFrom_all :
      (ps : Option (List Piece))
      → AreRuns (is_doc wf) content.lines ps
      → AreFrom m z repo wf (Option.map (numbered m repo wf.path 0) ps)
  numbered-AreFrom_all none all = all
  numbered-AreFrom_all (some ps) all = numbered-AreFrom 0 ps all

read_chunks-AreFrom :
    (m : Machine) (z : Sizes) (repo : String) (wf : WalkedFile) (r : Option Content)
    → IsPositive z
    → wf.parse_error ≡ false
    → (wf.lang == "other") ≡ false
    → m.read wf.path ≡ r
    → AreFrom m z repo wf (read_chunks m z repo wf r)
read_chunks-AreFrom m z repo wf none pos parsed known found = tt
read_chunks-AreFrom m z repo wf (some content) pos parsed known found =
    elim (Bool-cases (ltb (cap z wf) content.bytes)) [
      | inl t ↦ rw t tt
      | inr f ↦ rw f (
          numbered-AreFrom_all m z repo wf content parsed known found f (pieces z wf content.lines)
            (pieces-AreRuns z wf content pos))
    ]

or_false : (a b : Bool) → (a || b) ≡ false → (a ≡ false) × (b ≡ false)
or_false true b h = cc
or_false false b h = (refl, h)

unless-AreFrom :
    (m : Machine) (z : Sizes) (repo : String) (wf : WalkedFile) (b : Bool)
    (r : Option (List WalkedChunk))
    → (b ≡ false → AreFrom m z repo wf r)
    → AreFrom m z repo wf (if b then some [] else r)
unless-AreFrom m z repo wf true r k = tt
unless-AreFrom m z repo wf false r k = k refl

file_chunks-AreFrom :
    (m : Machine) (z : Sizes) (repo : String) (wf : WalkedFile)
    → IsPositive z
    → AreFrom m z repo wf (file_chunks m z repo wf)
unfolding file_chunks
file_chunks-AreFrom m z repo wf pos =
    unless-AreFrom m z repo wf (wf.parse_error || (wf.lang == "other")) _ (λ h.
      let (parsed, known) = or_false wf.parse_error (wf.lang == "other") h in
      read_chunks-AreFrom m z repo wf (m.read wf.path) pos parsed known refl)

append-IsChunking :
    (m : Machine) (z : Sizes) (repo : String) (wf : WalkedFile) (walked : List WalkedFile)
    (own : Option (List WalkedChunk)) (rest : Option (List WalkedChunk × List String))
    → AreFrom m z repo wf own
    → IsChunking m z repo walked rest
    → IsChunking m z repo (wf ∷ walked) (append own rest)
append-IsChunking m z repo wf walked none rest h k = h
append-IsChunking m z repo wf walked (some cs) none h k = k
append-IsChunking m z repo wf walked (some cs) (some (ds, failed)) h (all, e) =
    let here = All-weaken (IsFrom m z repo wf) (IsFromOne m z repo (wf ∷ walked)) cs (λ c. inl) h in
    let there =
      All-weaken (IsFromOne m z repo walked) (IsFromOne m z repo (wf ∷ walked)) ds (λ c. inr) all in
    (All-append (IsFromOne m z repo (wf ∷ walked)) cs ds here there, e)

-- With chunks of at least one line and an overlap that is not negative, `chunk_and_embed` ends and
-- names no failed path. Each of its chunks has the repository's name and the path of a walked file
-- that was parsed, is of a known language, can be read and is not above the cap of its kind, and its
-- text is that file's lines from `line_start` to `line_end`, joined by line breaks; in a document
-- there may be an earlier line of the file, and a line break, in front.
pub chunk_and_embed-IsChunking :
    (m : Machine) (z : Sizes) (repo : String) (walked : List WalkedFile)
    → IsPositive z
    → IsChunking m z repo walked (chunk_and_embed m z repo walked)
unfolding chunk_and_embed
chunk_and_embed-IsChunking m z repo [] pos = (tt, refl)
chunk_and_embed-IsChunking m z repo (wf ∷ walked) pos =
    append-IsChunking m z repo wf walked (file_chunks m z repo wf) (chunk_and_embed m z repo walked)
      (file_chunks-AreFrom m z repo wf pos) (chunk_and_embed-IsChunking m z repo walked pos)
