-- ===== src/Symbol/Summarise/Candidates/Largest.antt =====
-- features/symbol/summarise.py: the symbols to ask about are those that qualify, the largest first.
use ai_forge_memory.Prelude.{
  ℕ, ◌≤◌, String, Bool, true, false, Option, none, some, List, [], ◌∷◌, ◌≡◌, refl, sym, ap, ◌∙◌,
  ◌↔◌, min, length, ◌⊎◌, inl, inr, drop, length-take, ltb, arith, All, Bool-cases, if◌then◌else◌,
}
use ai_forge_memory.Prelude.Insertion.{In-sorted_by}
use ai_forge_memory.Prelude.Text.{codes, lower}
use ai_forge_memory.Prelude.Sort.{In}
use ai_forge_memory.Prelude.Members.{In-append, In-left, In-right}
use ai_forge_memory.Chunk.Embed.{Content}
use ai_forge_memory.Symbol.Summarise.Candidates.{
  Symbol, SourceFile, Limits, Candidate, is_allowed, count_lines, qualifies, of_symbols, content_of,
  of_content, collect, is_larger, by_size, floor_of, candidates,
}
use ai_forge_memory.Symbol.Summarise.Candidates.Order.{take-by_size, In-split}

size_of : Option Content → ℕ
size_of none = 0
size_of (some c) = c.bytes

candidate_ext :
    (c : Candidate) (s : Symbol) (content : Content)
    → c.content ≡ content
    → c.sym ≡ s
    → c.n_lines ≡ count_lines c.sym
    → c ≡ record { content = content; sym = s; n_lines = count_lines s }
candidate_ext c s content e p k =
    let n : c.n_lines ≡ count_lines s = k ∙ ap count_lines p in
    λ i. record { content = e i; sym = p i; n_lines = n i }

same_content : {r : Option Content} (c d : Content) → r ≡ some c → r ≡ some d → c ≡ d
same_content c d p q = cc

module _ (read : String → Option Content) (is_getter : String → Bool) (l : Limits) (floor : ℕ) where
  -- The symbol is of a kind that is asked about, is long enough, and is no getter of one or two lines.
  abbrev pub IsWorthy : Symbol → Type 0
  IsWorthy s =
      (is_allowed (lower (codes s.kind)) l.allowed_kinds ≡ true)
      × (floor ≤ count_lines s)
      × ((is_getter s.signature ≡ false) ⊎ (3 ≤ count_lines s))

  -- The candidate is a worthy symbol of the file, which was parsed, can be read and is not too large.
  abbrev pub IsOf : SourceFile → Candidate → Type 0
  IsOf f c =
      (f.parse_error ≡ false)
      × (read f.path ≡ some c.content)
      × (c.content.bytes ≤ l.max_file_bytes)
      × In c.sym f.symbols
      × IsWorthy c.sym
      × (c.n_lines ≡ count_lines c.sym)

  abbrev pub IsCandidate : List SourceFile → Candidate → Type 0
  IsCandidate [] c = ⊥
  IsCandidate (f ∷ fs) c = IsOf f c ⊎ IsCandidate fs c

  qualifies_iff : (s : Symbol) → (qualifies read is_getter l floor s ≡ true) ↔ IsWorthy s
  unfolding qualifies
  qualifies_iff s = elim (Bool-cases (is_allowed (lower (codes s.kind)) l.allowed_kinds)) [
    | inl a ↦ elim (Bool-cases (is_getter s.signature)) [
      | inl g ↦ rw (a, g) (λ h. (refl, ground arith, inr (ground arith)), λ (_, b, c). ground arith)
      | inr g ↦ rw (a, g) (λ h. (refl, ground arith, inl refl), λ (_, b, c). ground arith)
    ]
    | inr a ↦ rw a (λ h. cc, λ (h, _, _). cc)
  ]

  In-of_symbols :
      (content : Content) (c : Candidate) (ss : List Symbol)
      → In c (of_symbols read is_getter l floor content ss)
        ↔ ((c.content ≡ content) × In c.sym ss × IsWorthy c.sym × (c.n_lines ≡ count_lines c.sym))
  In-of_symbols content c [] = (λ m. absurd m, λ (_, m, _, _). absurd m)
  In-of_symbols content c (s ∷ ss) =
      let ih = In-of_symbols content c ss in
      let q = qualifies_iff s in
      elim (Bool-cases (qualifies read is_getter l floor s)) [
        | inl t ↦ rw t (
          elim [
            | inl e ↦
                let at_sym = ap (λ (d : Candidate). d.sym) e in
                (
                  ap (λ (d : Candidate). d.content) e,
                  inl at_sym,
                  rw at_sym (q.0 t),
                  ap (λ (d : Candidate). d.n_lines) e ∙ ap count_lines (sym at_sym),
                )
            | inr m ↦ let (e, n, w, k) = ih.0 m in (e, inr n, w, k)
          ],
          λ (e, m, w, k). elim m [
            | inl p ↦ inl (candidate_ext c s content e p k)
            | inr n ↦ inr (ih.1 (e, n, w, k))
          ],
        )
        | inr f ↦ rw f (
          λ m. let (e, n, w, k) = ih.0 m in (e, inr n, w, k),
          λ (e, m, w, k). elim m [ inl p ↦ cc (q.1 (rw⁻¹ p w), f) | inr n ↦ ih.1 (e, n, w, k) ],
        )
      ]

  content_of_iff :
      (f : SourceFile) (content : Content)
      → (content_of read is_getter l f ≡ some content) ↔ (
          (f.parse_error ≡ false)
          × (read f.path ≡ some content)
          × (content.bytes ≤ l.max_file_bytes))
  unfolding content_of size_of
  content_of_iff f content = by_parts f.parse_error (read f.path)
    where
      by_parts :
          (b : Bool) (r : Option Content)
          → ((if b then none else elim r [
            | none ↦ none
            | some c ↦ if ltb l.max_file_bytes c.bytes then none else some c
          ])
              ≡ some content)
            ↔ ((b ≡ false) × (r ≡ some content) × (content.bytes ≤ l.max_file_bytes))
      by_parts true r = (λ h. cc, λ (h, _, _). cc)
      by_parts false none = (λ h. cc, λ (_, h, _). cc)
      by_parts false (some c) = elim (Bool-cases (ltb l.max_file_bytes c.bytes)) [
        | inl t ↦ rw t (λ h. cc, λ (_, h, n). ground (arith, ap size_of h, n))
        | inr f ↦ rw f (λ h. (refl, h, ground (arith, ap size_of h)), λ (_, h, _). h)
      ]

  In-of_content :
      (f : SourceFile) (c : Candidate) (r : Option Content)
      → content_of read is_getter l f ≡ r
      → In c (of_content read is_getter l floor f.symbols r) ↔ IsOf f c
  In-of_content f c none e =
      (λ m. absurd m, λ (p, q, b, _, _, _). cc ((content_of_iff f c.content).1 (p, q, b), e))
  In-of_content f c (some content) e =
      let h = (content_of_iff f content).0 e in
      let m = In-of_symbols content c f.symbols in
      (
        λ i. let (same, n, w, k) = m.0 i in rw same (h.0, h.1, h.2, n, w, k),
        λ (p, q, b, n, w, k). m.1 (same_content c.content content q h.1, n, w, k),
      )

  In-collect :
      (c : Candidate) (fs : List SourceFile)
      → In c (collect read is_getter l floor fs) ↔ IsCandidate fs c
  unfolding collect
  In-collect c [] = (λ m. m, λ m. m)
  In-collect c (f ∷ fs) =
      let own = In-of_content f c (content_of read is_getter l f) refl in
      let ih = In-collect c fs in
      let a = of_content read is_getter l floor f.symbols (content_of read is_getter l f) in
      let b = collect read is_getter l floor fs in
      (
        λ m. elim (In-append c a b m) [ inl i ↦ inl (own.0 i) | inr i ↦ inr (ih.0 i) ],
        elim [ inl i ↦ In-left c a b (own.1 i) | inr i ↦ In-right c a b (ih.1 i) ],
      )

-- A symbol is a candidate exactly if it is worthy and stands in a file that was parsed, can be read
-- and is not too large. With a limit of `n`, `n` of them are asked about, or all where there are
-- fewer, and none of those has fewer lines than one that is left out.
pub candidates-AreLargest :
    (read : String → Option Content) (is_getter : String → Bool) (l : Limits) (floor : Option ℕ)
    (walked : List SourceFile) (n : ℕ) (c : Candidate)
    → let all = candidates read is_getter l floor none walked in
      let kept = candidates read is_getter l floor (some n) walked in
      (IsCandidate read is_getter l (floor_of l floor) walked c ↔ (In c kept ⊎ In c (drop n all)))
      × (length kept ≡ min n (length all))
      × All (λ (d : Candidate). All (λ (e : Candidate). e.n_lines ≤ d.n_lines) (drop n all)) kept
unfolding candidates
candidates-AreLargest read is_getter l floor walked n c =
    let found = collect read is_getter l (floor_of l floor) walked in
    let member = In-collect read is_getter l (floor_of l floor) c walked in
    let order = In-sorted_by is_larger c found in
    let parts = In-split c n (by_size found) in
    (
      (λ h. parts.0 (order.1 (member.1 h)), λ h. member.0 (order.0 (parts.1 h))),
      length-take n (by_size found),
      take-by_size n found,
    )
