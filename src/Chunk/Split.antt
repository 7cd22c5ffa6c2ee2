-- ===== src/Chunk/Split.antt =====
-- features/chunk/embed.py: `_split` and `_split_doc`, from the lines of a file (`text.splitlines()`).
-- The sizes come from the environment and are parameters; the overlap may be negative.
pub mod Cover
pub mod Taken
pub mod Lines
use ai_forge_memory.Prelude.{
  ℕ, zero, suc, ◌+◌, ◌-◌, ◌*◌, Bool, true, false, not, ◌&&◌, ◌||◌, Option, none, some, List, [],
  ◌∷◌, ◌++◌, length, take, drop, eqb, leb, ltb, if◌then◌else◌, max,
}
use ai_forge_memory.Prelude.Text.{Text, codes, is_prefix, lstrip}
use mathlib.Core.Option
use mathlib.Core.List.{map}

-- A window: the index of its first line, and its lines.
abbrev pub Window : Type 0
Window = ℕ × List Text

abbrev pub null : List Text → Bool
null [] = true
null (l ∷ ls) = false

-- The `while i < len(lines)` loop that the three splits share. `none` means that the fuel ran out.
unfoldable pub windows : ℕ → ℕ → ℕ → List Text → ℕ → Option (List Window)
windows zero size step lines i = none
windows (suc fuel) size step lines i =
    let chunk = take size (drop i lines) in
    let rest = Option.map (λ ws. (i, chunk) ∷ ws) (windows fuel size step lines (i + step)) in
    if not (ltb i (length lines))
    then some []
    else if null chunk
    then some []
    else if leb (length lines) (i + size)
    then some ((i, chunk) ∷ [])
    else rest

-- An integer: `negsuc n` is -(n + 1).
pub data ℤ : Type 0 where
  pos : ℕ → ℤ
  negsuc : ℕ → ℤ

abbrev pub IsNatural : ℤ → Type 0
IsNatural (pos n) = Unit
IsNatural (negsuc n) = ⊥

-- `max(1, size - overlap)`
abbrev pub step_of : ℕ → ℤ → ℕ
step_of size (pos n) = max 1 (size - n)
step_of size (negsuc n) = max 1 (size + suc n)

-- The loop, from line 0, with a round for every line and one more.
unfoldable pub all_windows : ℕ → ℤ → List Text → Option (List Window)
all_windows size overlap lines = windows (suc (length lines)) size (step_of size overlap) lines 0

abbrev pub newline : ℕ
newline = 10

-- `"\n".join(lines)`
abbrev pub join_lines : List Text → Text
join_lines [] = []
join_lines (l ∷ []) = l
join_lines (l ∷ m ∷ ls) = l ++ newline ∷ join_lines (m ∷ ls)

-- A chunk: its text, and its first and last line, from 1. Its index is its place in the list.
pub record Piece : Type 0 where
  pub text : Text
  pub line_start : ℕ
  pub line_end : ℕ

abbrev pub piece_of : Window → Piece
piece_of (i, chunk) = record {
  text = join_lines chunk;
  line_start = i + 1;
  line_end = i + length chunk;
}

-- `_split`
unfoldable pub split : ℕ → ℤ → List Text → Option (List Piece)
unfolding all_windows
split size overlap lines = Option.map (map piece_of) (all_windows size overlap lines)

-- The characters of an underline: = - ~ ^ * "
abbrev is_rule : Text → Bool
is_rule [] = true
is_rule (c ∷ s) =
    (eqb c 61 || eqb c 45 || eqb c 126 || eqb c 94 || eqb c 42 || eqb c 34) && is_rule s

unfoldable pub is_title : Text → Bool
is_title line = let s = lstrip line in is_prefix (codes "#") s && not (is_prefix (codes "#!") s)

unfoldable pub is_underline : Text → Bool
is_underline line = let s = lstrip line in leb 3 (length s) && is_rule s

-- The loop that collects `heading_idx`, from line `i` on.
unfoldable pub headings : ℕ → List Text → List ℕ
headings i [] = []
headings i (l ∷ ls) =
    let rest = headings (suc i) ls in
    if is_title l then i ∷ rest else if ltb 0 i && is_underline l then (i - 1) ∷ rest else rest

-- A window of a long section, which starts at line `start` and has the heading `head`.
abbrev pub piece_below : Text → ℕ → Window → Piece
piece_below head start (i, sub) = record {
  text = if ltb 0 i then head ++ newline ∷ join_lines sub else join_lines sub;
  line_start = start + i + 1;
  line_end = start + i + length sub;
}

abbrev first : List Text → Text
first [] = []
first (l ∷ ls) = l

-- One section: the lines from a heading up to the next.
unfoldable pub section_pieces : ℕ → ℤ → List Text → ℕ → ℕ → Option (List Piece)
unfolding all_windows
section_pieces size overlap lines start end =
    let sect = take (end - start) (drop start lines) in
    if null sect
    then some []
    else if leb (length sect) (size * 2)
    then some (record { text = join_lines sect; line_start = start + 1; line_end = end } ∷ [])
    else Option.map (map (piece_below (first sect) start)) (all_windows size overlap sect)

abbrev both : Option (List Piece) → Option (List Piece) → Option (List Piece)
both none q = none
both (some ps) none = none
both (some ps) (some qs) = some (ps ++ qs)

-- The loop over the headings, with the number of lines as the sentinel.
unfoldable pub sections : ℕ → ℤ → List Text → List ℕ → Option (List Piece)
unfolding section_pieces
sections size overlap lines [] = some []
sections size overlap lines (h ∷ []) = section_pieces size overlap lines h (length lines)
sections size overlap lines (h ∷ h' ∷ hs) =
    both (section_pieces size overlap lines h h') (sections size overlap lines (h' ∷ hs))

-- `_split_doc`
unfoldable pub split_doc : ℕ → ℤ → List Text → Option (List Piece)
unfolding all_windows headings sections
split_doc size overlap lines = elim (headings 0 lines) [
  | [] ↦ Option.map (map piece_of) (all_windows size overlap lines)
  | h ∷ hs ↦ sections size overlap lines (h ∷ hs)
]
