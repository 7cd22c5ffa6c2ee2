-- ===== src/Chunk/Split/Cover.antt =====
-- features/chunk/embed.py: the windows end, lie in the file, and cover it.
use ai_forge_memory.Prelude.{
  ℕ, zero, suc, ◌+◌, ◌-◌, ◌≤◌, ◌<◌, true, Option, none, some, List, [], ◌∷◌, ◌≡◌, refl, ◌⊎◌, inl,
  inr, ◌∙◌, ap, length, take, drop, length-take, length-drop, leb, ltb, ltb→lt, leb→le, min, arith,
  All, Bool-cases,
}
use ai_forge_memory.Prelude.Text.{Text}
use mathlib.Core.Option
use ai_forge_memory.Chunk.Split.{
  ℤ, pos, negsuc, IsNatural, Window, null, windows, step_of, all_windows,
}

-- A window is a run of at most `size` lines of the file, and is not empty.
abbrev pub IsWindow : ℕ → List Text → Window → Type 0
IsWindow size lines (i, chunk) =
    (chunk ≡ take size (drop i lines))
    × (0 < length chunk)
    × (length chunk ≤ size)
    × (i + length chunk ≤ length lines)

-- Line `j` lies in one of the windows.
abbrev pub Covers : ℕ → List Window → Type 0
Covers j [] = ⊥
Covers j ((i, chunk) ∷ ws) = ((i ≤ j) × (j < i + length chunk)) ⊎ Covers j ws

null-length : (ls : List Text) → (null ls ≡ true) → length ls ≡ 0
null-length [] h = refl
null-length (l ∷ ls) h = cc

-- What the loop returns from line `i` on.
abbrev pub IsCover : ℕ → List Text → ℕ → Option (List Window) → Type 0
IsCover size lines i none = ⊥
IsCover size lines i (some ws) =
    All (IsWindow size lines) ws × ((j : ℕ) → i ≤ j → j < length lines → Covers j ws)

chunk_length :
    (size i : ℕ) (lines : List Text)
    → length (take size (drop i lines)) ≡ min size (length lines - i)
chunk_length size i lines = length-take size (drop i lines) ∙ ap (min size) (length-drop i lines)

module _ (size step : ℕ) (lines : List Text) (i : ℕ) (p : 1 ≤ step) (q : step ≤ size) where
  abbrev chunk : List Text
  chunk = take size (drop i lines)

  chunk-IsWindow : i < length lines → IsWindow size lines (i, chunk)
  chunk-IsWindow h = (
    refl,
    omega (arith, chunk_length size i lines),
    omega (arith, chunk_length size i lines),
    omega (arith, chunk_length size i lines),
  )

  -- The window at `i` before a cover from the next start.
  onto-IsCover :
      (r : Option (List Window))
      → i + size < length lines
      → IsCover size lines (i + step) r
      → IsCover size lines i (Option.map (λ ws. (i, chunk) ∷ ws) r)
  onto-IsCover none h c = c
  onto-IsCover (some ws) h c = (
    (chunk-IsWindow (omega arith), c.0),
    λ j a b. elim (Bool-cases (ltb j (i + step))) [
      | inl near ↦ inl (a, omega (arith, ltb→lt j (i + step), near, chunk_length size i lines))
      | inr far ↦ inr (c.1 j (ground arith) b)
    ],
  )

windows-IsCover :
    (fuel size step : ℕ) (lines : List Text) (i : ℕ)
    → 1 ≤ step
    → step ≤ size
    → i ≤ length lines
    → length lines < fuel + i
    → IsCover size lines i (windows fuel size step lines i)
unfolding windows
windows-IsCover zero size step lines i p q b r = absurd (omega arith)
windows-IsCover (suc fuel) size step lines i p q b r = elim (Bool-cases (ltb i (length lines))) [
  | inr done ↦ rw done (tt, λ j x y. absurd (ground arith))
  | inl more ↦
      let below : i < length lines = ltb→lt i (length lines) more in
      let w : IsWindow size lines (i, take size (drop i lines)) =
        chunk-IsWindow size step lines i p q below in
      rw more (elim (Bool-cases (null (take size (drop i lines)))) [
        | inl e ↦ absurd (omega (arith, null-length (take size (drop i lines)) e, w.1))
        | inr e ↦ rw e (elim (Bool-cases (leb (length lines) (i + size))) [
          | inl last ↦ rw last (
            (w, tt),
            λ j x y. inl (
              x,
              omega (arith, leb→le (length lines) (i + size) last, chunk_length size i lines),
            ),
          )
          | inr on ↦ rw on (
              onto-IsCover size step lines i p q (windows fuel size step lines (i + step))
                (ground arith)
                (windows-IsCover fuel size step lines (i + step) p q (ground arith) (omega arith)))
        ])
      ])
]

-- With a size of at least one line and an overlap that is not negative the loop ends: its windows are non-empty runs
-- of at most `size` lines of the file, and every line of the file lies in one of them.
pub all_windows-IsCover :
    (size : ℕ) (overlap : ℤ) (lines : List Text)
    → 1 ≤ size
    → IsNatural overlap
    → IsCover size lines 0 (all_windows size overlap lines)
unfolding all_windows
all_windows-IsCover size (negsuc n) lines h natural = absurd natural
all_windows-IsCover size (pos n) lines h natural =
    windows-IsCover (suc (length lines)) size (step_of size (pos n)) lines 0 (omega arith)
      (omega arith) (omega arith) (omega arith)
