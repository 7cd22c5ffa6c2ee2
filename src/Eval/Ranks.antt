-- ===== src/Eval/Ranks.antt =====
-- features/eval/harness.py: what the hits of a probe say of the ranks.
use ai_forge_memory.Prelude.{
  ℕ, zero, suc, ◌+◌, ◌≤◌, String, Bool, true, false, ◌&&◌, Option, none, some, List, [], ◌∷◌, ◌≡◌,
  refl, ap, ◌∙◌, sym, ◌↔◌, inl, inr, take, map, leb, arith, Bool-cases,
}
use ai_forge_memory.Prelude.Sort.{In, contains, contains_iff}
use ai_forge_memory.Prelude.Text.{◌&◌}
use ai_forge_memory.Query.{Reply, replied, raised}
use ai_forge_memory.Query.Bundle.{ContextBundle, FileRow, SymbolRow}
use ai_forge_memory.Eval.{
  ProbeResult, Probe, first_rank, is_within, matches_symbol, sym_rank, scored, failed, run_probe,
}

first_rank-le :
    (p : String → Bool) (idx : ℕ) (xs : List String) {k : ℕ}
    → first_rank p idx xs ≡ some k
    → idx ≤ k
first_rank-le p idx [] e = cc
first_rank-le p idx (x ∷ xs) {k} e = elim (Bool-cases (p x)) [
  | inl t ↦ ground (arith, rw t at e)
  | inr f ↦
      let h : first_rank p (idx + 1) xs ≡ some k = rw f at e in
      omega (arith, first_rank-le p (idx + 1) xs h)
]

-- One of the texts passes the test.
abbrev Passes : (String → Bool) → List String → Type 0
Passes p xs = (x : String) × In x xs × (p x ≡ true)

beyond : (i k : ℕ) → suc i ≤ k → (leb 1 k && leb k i) ≡ false
beyond i k h = ground arith

none_within :
    (p : String → Bool) (i : ℕ) (xs : List String) → is_within i (first_rank p (suc i) xs) ≡ false
none_within p i xs = by_rank (first_rank p (suc i) xs) refl
  where
    by_rank : (o : Option ℕ) → first_rank p (suc i) xs ≡ o → is_within i o ≡ false
    by_rank none e = refl
    by_rank (some k) e = beyond i k (first_rank-le p (suc i) xs e)

at_once : (i n : ℕ) → (leb 1 (suc i) && leb (suc i) (i + suc n)) ≡ true
at_once i n = ground arith

shifted :
    (p : String → Bool) (n i : ℕ) (xs : List String)
    → is_within (i + suc n) (first_rank p (suc i + 1) xs)
      ≡ is_within (suc i + n) (first_rank p (suc (suc i)) xs)
shifted p n i xs =
    let bound : i + suc n ≡ suc i + n = omega arith in
    let start : suc i + 1 ≡ suc (suc i) = omega arith in
    λ j. is_within (bound j) (first_rank p (start j) xs)

is_within-first_rank :
    (p : String → Bool) (n i : ℕ) (xs : List String)
    → (is_within (i + n) (first_rank p (suc i) xs) ≡ true) ↔ Passes p (take n xs)
is_within-first_rank p zero i xs = (
  λ h. cc (none_within p i xs, h, ap (λ j. is_within j (first_rank p (suc i) xs)) (add_none i)),
  λ (x, m, t). absurd m,
)
  where
    add_none : (i : ℕ) → i + 0 ≡ i
    add_none i = omega arith
is_within-first_rank p (suc n) i [] = (λ h. cc, λ (x, m, t). absurd m)
is_within-first_rank p (suc n) i (x ∷ xs) =
    let ih = is_within-first_rank p n (suc i) xs in
    elim (Bool-cases (p x)) [
      | inl t ↦ rw t (λ _. (x, inl refl, t), λ _. at_once i n)
      | inr f ↦ rw f (
        λ h. let (y, m, t) = ih.0 (sym (shifted p n i xs) ∙ h) in (y, inr m, t),
        λ (y, m, t). elim m [
          | inl e ↦ cc (f, t, ap p e)
          | inr k ↦ shifted p n i xs ∙ ih.1 (y, k, t)
        ],
      )
    ]

-- One of the first `n` that are returned is expected.
abbrev pub Hits : ℕ → List String → List String → Type 0
Hits n expected returned = (x : String) × In x (take n returned) × In x expected

-- One of the first `n` symbols that are returned matches an expected one.
abbrev pub HitsSymbol : ℕ → List String → List String → Type 0
HitsSymbol n expected returned =
    (x : String) × In x (take n returned) × (matches_symbol expected x ≡ true)

first-Hits :
    (n : ℕ) (expected returned : List String)
    → (is_within n (first_rank (λ f. contains f expected) 1 returned) ≡ true)
      ↔ Hits n expected returned
first-Hits n expected returned =
    let found = is_within-first_rank (λ f. contains f expected) n 0 returned in
    let bound : 0 + n ≡ n = omega arith in
    let same : is_within (0 + n) (first_rank (λ f. contains f expected) 1 returned)
        ≡ is_within n (first_rank (λ f. contains f expected) 1 returned) =
      ap (λ j. is_within j (first_rank (λ f. contains f expected) 1 returned)) bound in
    (
      λ h. let (x, m, t) = found.0 (same ∙ h) in (x, m, (contains_iff x expected).0 t),
      λ (x, m, k). sym same ∙ found.1 (x, m, (contains_iff x expected).1 k),
    )

sym_rank-Hits :
    (n : ℕ) (expected returned : List String)
    → (is_within n (sym_rank expected returned) ≡ true) ↔ HitsSymbol n expected returned
unfolding matches_symbol
sym_rank-Hits n [] returned = (λ h. cc, λ (x, m, t). cc)
sym_rank-Hits n (e ∷ es) returned =
    let found = is_within-first_rank (matches_symbol (e ∷ es)) n 0 returned in
    let bound : 0 + n ≡ n = omega arith in
    let same = ap (λ j. is_within j (first_rank (matches_symbol (e ∷ es)) 1 returned)) bound in
    (λ h. found.0 (same ∙ h), λ k. sym same ∙ found.1 k)

-- What a probe keeps of the answer to its query.
abbrev pub Returns : Reply ContextBundle → ProbeResult → Type 0
Returns (raised exc) r =
    (r.returned_files ≡ [])
    × (r.returned_symbols ≡ [])
    × (r.errors ≡ "bundle: " & exc ∷ [])
    × (r.hit_at_1 ≡ false)
    × (r.hit_at_5 ≡ false)
    × (r.hit_at_10 ≡ false)
    × (r.sym_hit_at_5 ≡ false)
Returns (replied b) r =
    (r.returned_files ≡ map (λ (f : FileRow). f.path) b.files)
    × (r.returned_symbols ≡ map (λ (s : SymbolRow). s.fqname) b.symbols)
    × (r.errors ≡ b.errors)

-- A probe hits at 1, at 5 or at 10 exactly if one of as many first files that were returned is
-- expected, and hits a symbol at 5 exactly if one of the first five symbols matches an expected one.
-- What is returned are the files, the symbols and the errors of the query's bundle, in their order; of
-- a query that raises nothing is returned but the exception as an error, and the probe hits nothing.
pub run_probe_iff :
    (query : String → Reply ContextBundle) (latency : ℕ) (p : Probe)
    → let r = run_probe query latency p in
      ((r.hit_at_1 ≡ true) ↔ Hits 1 p.expected_files r.returned_files)
      × ((r.hit_at_5 ≡ true) ↔ Hits 5 p.expected_files r.returned_files)
      × ((r.hit_at_10 ≡ true) ↔ Hits 10 p.expected_files r.returned_files)
      × ((r.sym_hit_at_5 ≡ true) ↔ HitsSymbol 5 p.expected_symbols r.returned_symbols)
      × Returns (query p.query) r
unfolding run_probe
run_probe_iff query latency p = by_answer (query p.query)
  where
    by_answer :
        (a : Reply ContextBundle)
        → let r : ProbeResult = elim a [
          | raised exc ↦ failed p latency exc
          | replied b ↦ scored p latency b
        ] in
          ((r.hit_at_1 ≡ true) ↔ Hits 1 p.expected_files r.returned_files)
          × ((r.hit_at_5 ≡ true) ↔ Hits 5 p.expected_files r.returned_files)
          × ((r.hit_at_10 ≡ true) ↔ Hits 10 p.expected_files r.returned_files)
          × ((r.sym_hit_at_5 ≡ true) ↔ HitsSymbol 5 p.expected_symbols r.returned_symbols)
          × Returns a r
    by_answer (raised exc) = (
      (λ h. cc, λ (x, m, t). absurd m),
      (λ h. cc, λ (x, m, t). absurd m),
      (λ h. cc, λ (x, m, t). absurd m),
      (λ h. cc, λ (x, m, t). absurd m),
      (refl, refl, refl, refl, refl, refl, refl),
    )
    by_answer (replied b) =
        let files = map (λ (f : FileRow). f.path) b.files in
        (
          first-Hits 1 p.expected_files files,
          first-Hits 5 p.expected_files files,
          first-Hits 10 p.expected_files files,
          sym_rank-Hits 5 p.expected_symbols (map (λ (s : SymbolRow). s.fqname) b.symbols),
          (refl, refl, refl),
        )
