-- ===== src/Symbol/Summarise/Candidates.antt =====
-- features/symbol/summarise.py: `summarise_symbols` up to the list of the symbols to ask about. The
-- file system and the pattern of a getter's signature are parameters, and so are the limits, which
-- the environment sets. A file reads the same each time, so the cache of files holds what a read gives.
pub mod Order
pub mod Largest
use ai_forge_memory.Prelude.{
  ℕ, ◌+◌, ◌-◌, String, Bool, false, not, ◌&&◌, ◌||◌, Option, none, some, List, [], ◌∷◌, ◌++◌, take,
  ltb, if◌then◌else◌,
}
use ai_forge_memory.Prelude.Insertion.{sorted_by}
use ai_forge_memory.Prelude.Text.{Text, codes, lower, same_text}
use ai_forge_memory.Chunk.Embed.{Content}

pub record Symbol : Type 0 where
  pub fqname : String
  pub kind : String
  pub signature : String
  pub line_start : ℕ
  pub line_end : ℕ

pub record SourceFile : Type 0 where
  pub path : String
  pub parse_error : Bool
  pub symbols : List Symbol

pub record Limits : Type 0 where
  pub allowed_kinds : List Text
  pub min_lines : ℕ
  pub max_file_bytes : ℕ

pub record Candidate : Type 0 where
  pub content : Content
  pub sym : Symbol
  pub n_lines : ℕ

abbrev pub is_allowed : Text → List Text → Bool
is_allowed kind [] = false
is_allowed kind (k ∷ ks) = same_text kind k || is_allowed kind ks

-- `max(0, le - ls + 1)`
abbrev pub count_lines : Symbol → ℕ
count_lines s = s.line_end + 1 - s.line_start

module _ (read : String → Option Content) (is_getter : String → Bool) (l : Limits) where
  -- The tests on a symbol.
  unfoldable pub qualifies : ℕ → Symbol → Bool
  qualifies floor s =
      is_allowed (lower (codes s.kind)) l.allowed_kinds
      && not (ltb (count_lines s) floor)
      && not (is_getter s.signature && ltb (count_lines s) 3)

  abbrev pub of_symbols : ℕ → Content → List Symbol → List Candidate
  of_symbols floor content [] = []
  of_symbols floor content (s ∷ ss) =
      let rest = of_symbols floor content ss in
      if qualifies floor s
      then record { content = content; sym = s; n_lines = count_lines s } ∷ rest
      else rest

  -- What is read of a file; `none` where the loop passes on to the next. A file without symbols is not
  -- read, and gives no candidate either way.
  unfoldable pub content_of : SourceFile → Option Content
  content_of f = if f.parse_error then none else elim (read f.path) [
    | none ↦ none
    | some c ↦ if ltb l.max_file_bytes c.bytes then none else some c
  ]

  abbrev pub of_content : ℕ → List Symbol → Option Content → List Candidate
  of_content floor ss none = []
  of_content floor ss (some content) = of_symbols floor content ss

  -- The loop over the files.
  unfoldable pub collect : ℕ → List SourceFile → List Candidate
  collect floor [] = []
  collect floor (f ∷ fs) = of_content floor f.symbols (content_of f) ++ collect floor fs

abbrev pub is_larger : Candidate → Candidate → Bool
is_larger c d = ltb d.n_lines c.n_lines

-- `candidates.sort(key=…, reverse=True)`, which keeps the order of equals.
abbrev pub by_size : List Candidate → List Candidate
by_size = sorted_by is_larger

abbrev pub cut : Option ℕ → List Candidate → List Candidate
cut none cs = cs
cut (some n) cs = take n cs

abbrev pub floor_of : Limits → Option ℕ → ℕ
floor_of l none = l.min_lines
floor_of l (some n) = n

unfoldable pub candidates :
    (String → Option Content)
    → (String → Bool)
    → Limits
    → Option ℕ
    → Option ℕ
    → List SourceFile
    → List Candidate
candidates read is_getter l min_lines limit walked =
    cut limit (by_size (collect read is_getter l (floor_of l min_lines) walked))
