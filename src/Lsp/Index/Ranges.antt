-- ===== src/Lsp/Index/Ranges.antt =====
-- features/lsp/resolver.py: the sorted index of a file, and the search for the range around a line.
use ai_forge_memory.Prelude.{
  ℕ, ◌≤◌, String, true, false, Option, none, some, List, [], ◌∷◌, ◌≡◌, refl, subst, ◌⊎◌, inl, inr,
  arith, All, Bool-cases,
}
use ai_forge_memory.Prelude.Insertion.{IsFirst, IsOrdered, place-IsOrdered, In-place, All-of_place}
use ai_forge_memory.Prelude.Sort.{In}
use ai_forge_memory.Lsp.Index.{
  Symbol, SymRange, is_before, is_caller, range_of, sorted_ranges, contains_line, enclosing,
}

is_before_trans :
    (r s t : SymRange) → is_before s r ≡ false → is_before t s ≡ false → is_before t r ≡ false
is_before_trans r s t h k = ground arith

is_before_asym : (r s : SymRange) → is_before s r ≡ true → is_before r s ≡ false
is_before_asym r s h = ground arith

sorted_ranges-IsOrdered :
    (path : String) (ss : List Symbol) → IsOrdered is_before (sorted_ranges path ss)
unfolding sorted_ranges
sorted_ranges-IsOrdered path [] = tt
sorted_ranges-IsOrdered path (s ∷ ss) = elim (Bool-cases (is_caller s.kind)) [
  | inl t ↦ rw t (
      place-IsOrdered is_before is_before_trans is_before_asym (range_of path s)
        (sorted_ranges path ss) (sorted_ranges-IsOrdered path ss))
  | inr f ↦ rw f (sorted_ranges-IsOrdered path ss)
]

-- What `_enclosing` finds: a range of the list that contains the line, and none of those that do
-- comes before it; or none, where none contains the line.
abbrev IsAround : ℕ → List SymRange → Option SymRange → Type 0
IsAround line rs none = All (λ s. contains_line line s ≡ false) rs
IsAround line rs (some r) =
    In r rs
    × (contains_line line r ≡ true)
    × All (λ s. (contains_line line s ≡ false) ⊎ (is_before s r ≡ false)) rs

either-IsFirst :
    (line : ℕ) (r : SymRange) (rs : List SymRange)
    → IsFirst is_before r rs
    → All (λ s. (contains_line line s ≡ false) ⊎ (is_before s r ≡ false)) rs
either-IsFirst line r [] h = tt
either-IsFirst line r (s ∷ rs) (p, h) = (inr p, either-IsFirst line r rs h)

is_before_irrefl : (r : SymRange) → is_before r r ≡ false
is_before_irrefl r = ground arith

IsAround-next :
    (line : ℕ) (r : SymRange) (rs : List SymRange) (o : Option SymRange)
    → contains_line line r ≡ false
    → IsAround line rs o
    → IsAround line (r ∷ rs) o
IsAround-next line r rs none f h = (f, h)
IsAround-next line r rs (some s) f (m, c, h) = (inr m, c, (inl f, h))

enclosing-IsAround :
    (line : ℕ) (rs : List SymRange) → IsOrdered is_before rs → IsAround line rs (enclosing line rs)
unfolding enclosing
enclosing-IsAround line [] h = tt
enclosing-IsAround line (r ∷ rs) (first, h) = elim (Bool-cases (contains_line line r)) [
  | inl t ↦ rw t (inl refl, t, (inr (is_before_irrefl r), either-IsFirst line r rs first))
  | inr f ↦ rw f (IsAround-next line r rs (enclosing line rs) f (enclosing-IsAround line rs h))
]

-- The range is that of a method, function or class of the file that contains the line, and none of
-- those that do is smaller, or as large and starts earlier.
abbrev pub IsInnermost : ℕ → String → List Symbol → SymRange → Type 0
IsInnermost line path ss r =
    ((s : Symbol) × In s ss × (is_caller s.kind ≡ true) × (r ≡ range_of path s))
    × (r.line_start ≤ line)
    × (line ≤ r.line_end)
    × All
        (λ s.
          (is_caller s.kind ≡ false)
          ⊎ ((contains_line line (range_of path s) ≡ false)
              ⊎ (is_before (range_of path s) r ≡ false)))
        ss

In-sorted_ranges :
    (r : SymRange) (path : String) (ss : List Symbol)
    → In r (sorted_ranges path ss)
    → (s : Symbol) × In s ss × (is_caller s.kind ≡ true) × (r ≡ range_of path s)
unfolding sorted_ranges
In-sorted_ranges r path [] m = absurd m
In-sorted_ranges r path (s ∷ ss) m = elim (Bool-cases (is_caller s.kind)) [
  | inl t ↦ elim ((In-place is_before r (range_of path s) (sorted_ranges path ss)).0 (rw t at m)) [
    | inl e ↦ (s, inl refl, t, e)
    | inr n ↦ let (u, i, c, e) = In-sorted_ranges r path ss n in (u, inr i, c, e)
  ]
  | inr f ↦ let (u, i, c, e) = In-sorted_ranges r path ss (rw f at m) in (u, inr i, c, e)
]

All-of_sorted :
    (P : SymRange → Type 0) (path : String) (ss : List Symbol)
    → All P (sorted_ranges path ss)
    → All (λ s. (is_caller s.kind ≡ false) ⊎ P (range_of path s)) ss
unfolding sorted_ranges
All-of_sorted P path [] h = tt
All-of_sorted P path (s ∷ ss) h = elim (Bool-cases (is_caller s.kind)) [
  | inl t ↦
      let (p, k) = All-of_place is_before P (range_of path s) (sorted_ranges path ss) (rw t at h) in
      (inr p, All-of_sorted P path ss k)
  | inr f ↦ (inl f, All-of_sorted P path ss (rw f at h))
]

pub enclosing-IsInnermost :
    (line : ℕ) (path : String) (ss : List Symbol) (r : SymRange)
    → enclosing line (sorted_ranges path ss) ≡ some r
    → IsInnermost line path ss r
enclosing-IsInnermost line path ss r e =
    let (m, c, h) =
      subst (IsAround line (sorted_ranges path ss)) e
        (enclosing-IsAround line (sorted_ranges path ss) (sorted_ranges-IsOrdered path ss)) in
    (
      In-sorted_ranges r path ss m,
      ground arith,
      ground arith,
      All-of_sorted (λ s. (contains_line line s ≡ false) ⊎ (is_before s r ≡ false)) path ss h,
    )
