-- ===== src/External/Chunks.antt =====
-- features/external_ingest/ingest.py: what `_chunk` makes of the paragraphs.
use ai_forge_memory.Prelude.{
  ℕ, ◌+◌, String, true, false, List, [], ◌∷◌, ◌++◌, ◌==◌, ◌≡◌, refl, sym, ap, ◌∙◌, ◌⊎◌, inl, inr,
  map, leb, All, Bool-cases, arith, subst, text_cases,
}
use mathlib.Core.List.{append_assoc}
use ai_forge_memory.Prelude.Text.{stripped, join_with, ◌&◌}
use ai_forge_memory.External.{Outside, size, paragraphs, merge, chunk}

abbrev pub joined : List String → String
joined ps = join_with "\n\n" ps

abbrev pub concat : List (List String) → List String
concat [] = []
concat (g ∷ gs) = g ++ concat gs

-- One paragraph, or at least two that together are not longer than the target.
abbrev pub Fits : ℕ → List String → Type 0
Fits target g =
    ((p : String) × (g ≡ p ∷ []))
    ⊎ ((p : String) × (q : String) × (rest : List String) × (g ≡ p ∷ q ∷ rest)
        × (leb (size (joined g)) target ≡ true))

longer-Fits :
    (target : ℕ) (p : String) (g : List String) (q : String)
    → leb (size (joined (p ∷ (g ++ (q ∷ []))))) target ≡ true
    → Fits target (p ∷ (g ++ (q ∷ [])))
longer-Fits target p [] q h = inr (p, q, [], refl, h)
longer-Fits target p (r ∷ g) q h = inr (p, r, g ++ (q ∷ []), refl, h)

-- The chunks are the paragraphs in order, joined in groups that fit.
abbrev pub IsGrouping : ℕ → List String → List String → Type 0
IsGrouping target paras chunks =
    (groups : List (List String)) × (concat groups ≡ paras)
    × (chunks ≡ map joined groups)
    × All (Fits target) groups

size-& : (s t : String) → size (s & t) ≡ size s + size t
size-& String.[] t = omega arith
size-& (String.◌∷◌ c s) t = omega (arith, size-& s t)

&_assoc : (s t u : String) → (s & t) & u ≡ s & (t & u)
&_assoc String.[] t u = refl
&_assoc (String.◌∷◌ c s) t u = ap (String.◌∷◌ c) (&_assoc s t u)

joined-snoc :
    (p : String) (g : List String) (q : String)
    → joined ((p ∷ g) ++ (q ∷ [])) ≡ joined (p ∷ g) & "\n\n" & q
joined-snoc p [] q = refl
joined-snoc p (r ∷ g) q =
    ap (λ t. p & "\n\n" & t) (joined-snoc r g q)
    ∙ sym (&_assoc p ("\n\n" & joined (r ∷ g)) ("\n\n" & q))

&_not_empty : (s t : String) → (s == "") ≡ false → ((s & t) == "") ≡ false
&_not_empty String.[] t h = cc
&_not_empty (String.◌∷◌ c s) t h = elim (text_cases (String.◌∷◌ c (s & t)) "") [
  | inl e ↦ cc
  | inr n ↦ n.0
]

joined_not_empty :
    (p : String) (g : List String) → (p == "") ≡ false → (joined (p ∷ g) == "") ≡ false
joined_not_empty p [] h = h
joined_not_empty p (r ∷ g) h = &_not_empty p ("\n\n" & joined (r ∷ g)) h

size-joined-snoc :
    (p : String) (g : List String) (q : String)
    → size (joined (p ∷ (g ++ (q ∷ [])))) ≡ size (joined (p ∷ g)) + 2 + size q
size-joined-snoc p g q =
    ap size (joined-snoc p g q) ∙ (size-& (joined (p ∷ g)) ("\n\n" & q) ∙ omega arith)

-- The loop, from a chunk on that is the group `p ∷ g`.
merge-IsGrouping :
    (target : ℕ) (p : String) (g paras : List String)
    → (p == "") ≡ false
    → Fits target (p ∷ g)
    → All (λ q. (q == "") ≡ false) paras
    → IsGrouping target ((p ∷ g) ++ paras) (merge target (joined (p ∷ g)) paras)
unfolding merge
merge-IsGrouping target p g [] h fit all =
    rw (joined_not_empty p g h) ((p ∷ g) ∷ [], refl, refl, (fit, tt))
merge-IsGrouping target p g (q ∷ paras) h fit (new, all) =
    elim (Bool-cases (leb (size (joined (p ∷ g)) + 2 + size q) target)) [
      | inl t ↦
          let longer : List String = g ++ (q ∷ []) in
          let (groups, cat, made, fits) =
            merge-IsGrouping target p longer paras h
              (longer-Fits target p g q (rw (size-joined-snoc p g q) t)) all in
          rw (joined_not_empty p g h, t)
            (
              groups,
              cat ∙ ap (λ r. p ∷ r) (append_assoc g (q ∷ []) paras),
              subst (λ c. merge target c paras ≡ map joined groups) (joined-snoc p g q) made,
              fits,
            )
      | inr f ↦
          let (groups, cat, made, fits) =
            merge-IsGrouping target q [] paras new (inl (q, refl)) all in
          rw (joined_not_empty p g h, f)
            (
              (p ∷ g) ∷ groups,
              ap (λ r. (p ∷ g) ++ r) cat,
              ap (λ r. joined (p ∷ g) ∷ r) made,
              (fit, fits),
            )
    ]

paragraphs_not_empty : (ps : List String) → All (λ q. (q == "") ≡ false) (paragraphs ps)
paragraphs_not_empty [] = tt
paragraphs_not_empty (p ∷ ps) = elim (Bool-cases (stripped p == "")) [
  | inl t ↦ rw t (paragraphs_not_empty ps)
  | inr f ↦ rw f (f, paragraphs_not_empty ps)
]

merge_from_start :
    (target : ℕ) (paras : List String)
    → All (λ q. (q == "") ≡ false) paras
    → IsGrouping target paras (merge target "" paras)
unfolding merge
merge_from_start target [] all = ([], refl, refl, tt)
merge_from_start target (p ∷ paras) (new, all) =
    merge-IsGrouping target p [] paras new (inl (p, refl)) all

-- The chunks of a text that is not blank are its paragraphs in their order, none lost and none cut:
-- each chunk is one paragraph, or several with an empty line between them that together have no
-- more characters than the target.
pub chunk-IsGrouping :
    (out : Outside) (target : ℕ) (text : String)
    → (stripped text == "") ≡ false
    → IsGrouping target (paragraphs (out.split_blank (stripped text))) (chunk out target text)
unfolding chunk
chunk-IsGrouping out target text f =
    let paras = paragraphs (out.split_blank (stripped text)) in
    rw (f, chunk)
      (merge_from_start target paras (paragraphs_not_empty (out.split_blank (stripped text))))
