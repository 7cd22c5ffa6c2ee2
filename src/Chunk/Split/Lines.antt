-- ===== src/Chunk/Split/Lines.antt =====
-- features/chunk/embed.py: the splits end, and their chunks are lines of the file.
use ai_forge_memory.Prelude.{
  ℕ, suc, ◌+◌, ◌-◌, ◌*◌, ◌≤◌, false, ◌&&◌, Option, none, some, List, [], ◌∷◌, ◌≡◌, refl, inl, inr,
  length, take, drop, length-take, length-drop, ◌++◌, ◌∙◌, ap, sym, ◌⊎◌, ◌<◌, true, Bool,
  if◌then◌else◌, leb, ltb, arith, All, All-append, Bool-cases,
}
use mathlib.Core.Option
use mathlib.Core.List.{map}
use ai_forge_memory.Prelude.Text.{Text}
use ai_forge_memory.Chunk.Split.{
  ℤ, IsNatural, Window, null, all_windows, Piece, piece_of, split, is_title, is_underline, headings,
  piece_below, section_pieces, first, join_lines, newline, both, sections, split_doc,
}
use ai_forge_memory.Chunk.Split.Taken.{
  run, run_at, take_own, take-drop-take_own, drop-drop, first-take,
}
use ai_forge_memory.Chunk.Split.Cover.{IsWindow, IsCover, all_windows-IsCover}

-- A text with its first and last line: the lines are lines of the file, and the text is these lines
-- with line breaks between them. In a document, the text may have an earlier line of the file, and a
-- line break, in front.
abbrev pub IsText : Bool → List Text → Text → ℕ → ℕ → Type 0
IsText doc lines text a b =
    (1 ≤ a)
    × (a ≤ b)
    × (b ≤ length lines)
    × ((text ≡ join_lines (run lines a b))
        ⊎ ((doc ≡ true)
            × (h : ℕ) × (h + 1 < a)
            × (text ≡ first (drop h lines) ++ newline ∷ join_lines (run lines a b))))

abbrev pub IsRun : Bool → List Text → Piece → Type 0
IsRun doc lines p = IsText doc lines p.text p.line_start p.line_end

-- A split that ends, with chunks that are runs of lines.
abbrev pub AreRuns : Bool → List Text → Option (List Piece) → Type 0
AreRuns doc lines none = ⊥
AreRuns doc lines (some ps) = All (IsRun doc lines) ps

All-map :
    {A B : Type 0} (f : A → B) (P : A → Type 0) (Q : B → Type 0) (xs : List A)
    → ((x : A) → P x → Q (f x))
    → All P xs
    → All Q (map f xs)
All-map f P Q [] k h = tt
All-map f P Q (x ∷ xs) k (p, h) = (k x p, All-map f P Q xs k h)

-- The windows of the file, or of a part of it, as chunks.
windows-AreRuns :
    (size : ℕ) (doc : Bool) (lines part : List Text) (f : Window → Piece)
    (ws : Option (List Window))
    → ((w : Window) → IsWindow size part w → IsRun doc lines (f w))
    → IsCover size part 0 ws
    → AreRuns doc lines (Option.map (map f) ws)
windows-AreRuns size doc lines part f none k c = c
windows-AreRuns size doc lines part f (some ws) k (all, cover) =
    All-map f (IsWindow size part) (IsRun doc lines) ws k all

-- The lines of a window are those that its chunk names.
pub window_run :
    (size : ℕ) (lines : List Text) (i : ℕ) (chunk : List Text)
    → IsWindow size lines (i, chunk)
    → chunk ≡ run lines (i + 1) (i + length chunk)
window_run size lines i chunk (e, pos, small, inside) =
    e
    ∙ take_own size (drop i lines)
    ∙ ap (λ (ys : List Text). take (length ys) (drop i lines)) (sym e)
    ∙ sym (run_at lines i (length chunk))

piece_of-IsRun :
    (size : ℕ) (doc : Bool) (lines : List Text) (w : Window)
    → IsWindow size lines w
    → IsRun doc lines (piece_of w)
piece_of-IsRun size doc lines (i, chunk) (e, pos, small, inside) = (
  omega arith,
  omega (arith, pos),
  omega (arith, inside),
  inl (ap join_lines (window_run size lines i chunk (e, pos, small, inside))),
)

pub split-AreRuns :
    (size : ℕ) (overlap : ℤ) (doc : Bool) (lines : List Text)
    → 1 ≤ size
    → IsNatural overlap
    → AreRuns doc lines (split size overlap lines)
unfolding split
split-AreRuns size overlap doc lines h natural =
    windows-AreRuns size doc lines lines piece_of (all_windows size overlap lines)
      (piece_of-IsRun size doc lines) (all_windows-IsCover size overlap lines h natural)

-- A window of the `m` lines from line `start` on.
module _ (size start m : ℕ) (lines : List Text) (i : ℕ) (sub : List Text)
    (w : IsWindow size (take m (drop start lines)) (i, sub)) where
  below_run : sub ≡ run lines (start + i + 1) (start + i + length sub)
  below_run =
      w.0
      ∙ take-drop-take_own size i m (drop start lines)
      ∙ ap (λ (ys : List Text). take (length ys) (drop i (drop start lines))) (sym w.0)
      ∙ ap (λ (ys : List Text). take (length sub) ys) (drop-drop i start lines)
      ∙ sym (run_at lines (start + i) (length sub))

  below-IsText :
      (b : Bool)
      → ltb 0 i ≡ b
      → null (take m (drop start lines)) ≡ false
      → start + length (take m (drop start lines)) ≤ length lines
      → IsText true lines
          (if b
            then first (take m (drop start lines)) ++ newline ∷ join_lines sub
            else join_lines sub)
          (start + i + 1)
          (start + i + length sub)
  below-IsText true t full le = (
    omega arith,
    omega (arith, w.1),
    omega (arith, w.3, le),
    inr (
      refl,
      start,
      ground arith,
      ap (λ (l : Text). l ++ newline ∷ join_lines sub) (first-take m (drop start lines) full)
          ∙ ap (λ (ys : List Text). first (drop start lines) ++ newline ∷ join_lines ys) below_run,
    ),
  )
  below-IsText false f full le =
      (omega arith, omega (arith, w.1), omega (arith, w.3, le), inl (ap join_lines below_run))

not_null : (ls : List Text) → null ls ≡ false → 1 ≤ length ls
not_null [] h = cc
not_null (l ∷ ls) h = omega arith

section_run :
    (lines : List Text) (start end : ℕ)
    → start ≤ end
    → take (end - start) (drop start lines) ≡ run lines (start + 1) end
section_run lines start end le =
    let few : end + 1 - (start + 1) ≡ end - start = omega arith in
    let from : start + 1 - 1 ≡ start = omega arith in rw (few, from) refl

section_pieces-AreRuns :
    (size : ℕ) (overlap : ℤ) (lines : List Text) (start end : ℕ)
    → 1 ≤ size
    → IsNatural overlap
    → end ≤ length lines
    → AreRuns true lines (section_pieces size overlap lines start end)
unfolding section_pieces
section_pieces-AreRuns size overlap lines start end h natural le =
    let sect = take (end - start) (drop start lines) in
    let count = length-take (end - start) (drop start lines) in
    let left = length-drop start lines in
    elim (Bool-cases (null sect)) [
      | inl t ↦ rw t tt
      | inr f ↦ elim (Bool-cases (leb (length sect) (size * 2))) [
        | inl small ↦
            rw (f, small)
              (
                (
                  omega arith,
                  omega (arith, not_null sect f, count, left),
                  le,
                  inl (
                      ap join_lines (
                        section_run lines start end (omega (arith, not_null sect f, count, left)))),
                ),
                tt,
              )
        | inr big ↦
            rw (f, big)
              (windows-AreRuns size true lines sect (piece_below (first sect) start)
                (all_windows size overlap sect)
                (λ w k.
                  below-IsText size start (end - start) lines w.0 w.1 k (ltb 0 w.0) refl f
                    (omega (arith, not_null sect f, count, left, le)))
                (all_windows-IsCover size overlap sect h natural))
      ]
    ]

both-AreRuns :
    (lines : List Text) (a b : Option (List Piece))
    → AreRuns true lines a
    → AreRuns true lines b
    → AreRuns true lines (both a b)
both-AreRuns lines none b h k = h
both-AreRuns lines (some ps) none h k = k
both-AreRuns lines (some ps) (some qs) h k = All-append (IsRun true lines) ps qs h k

sections-AreRuns :
    (size : ℕ) (overlap : ℤ) (lines : List Text) (hs : List ℕ)
    → 1 ≤ size
    → IsNatural overlap
    → All (λ i. i ≤ length lines) hs
    → AreRuns true lines (sections size overlap lines hs)
unfolding sections
sections-AreRuns size overlap lines [] h natural all = tt
sections-AreRuns size overlap lines (i ∷ []) h natural all =
    section_pieces-AreRuns size overlap lines i (length lines) h natural (omega arith)
sections-AreRuns size overlap lines (i ∷ j ∷ hs) h natural (le, (le', all)) =
    both-AreRuns lines _ _ (section_pieces-AreRuns size overlap lines i j h natural le')
      (sections-AreRuns size overlap lines (j ∷ hs) h natural (le', all))

headings_bound : (n i : ℕ) (ls : List Text) → i + length ls ≤ n → All (λ h. h ≤ n) (headings i ls)
unfolding headings
headings_bound n i [] le = tt
headings_bound n i (l ∷ ls) le =
    let ih : All (λ h. h ≤ n) (headings (suc i) ls) =
      headings_bound n (suc i) ls (omega (arith, le)) in
    elim (Bool-cases (is_title l)) [
      | inl t ↦ rw t (omega (arith, le), ih)
      | inr f ↦ elim (Bool-cases (ltb 0 i && is_underline l)) [
        | inl u ↦ rw (f, u) (omega (arith, le), ih)
        | inr v ↦ rw (f, v) ih
      ]
    ]

by_headings-AreRuns :
    (size : ℕ) (overlap : ℤ) (lines : List Text) (hs : List ℕ)
    → headings 0 lines ≡ hs
    → 1 ≤ size
    → IsNatural overlap
    → All (λ i. i ≤ length lines) hs
    → AreRuns true lines (split_doc size overlap lines)
unfolding split_doc
by_headings-AreRuns size overlap lines [] e h natural all =
    rw (e, split_doc)
      (windows-AreRuns size true lines lines piece_of (all_windows size overlap lines)
        (piece_of-IsRun size true lines) (all_windows-IsCover size overlap lines h natural))
by_headings-AreRuns size overlap lines (i ∷ hs) e h natural all =
    rw (e, split_doc) (sections-AreRuns size overlap lines (i ∷ hs) h natural all)

pub split_doc-AreRuns :
    (size : ℕ) (overlap : ℤ) (lines : List Text)
    → 1 ≤ size
    → IsNatural overlap
    → AreRuns true lines (split_doc size overlap lines)
split_doc-AreRuns size overlap lines h natural =
    by_headings-AreRuns size overlap lines (headings 0 lines) refl h natural
      (headings_bound (length lines) 0 lines (omega arith))
