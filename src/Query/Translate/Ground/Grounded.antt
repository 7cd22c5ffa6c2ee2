-- ===== src/Query/Translate/Ground/Grounded.antt =====
-- query/translator.py: the names that `translate` answers with, and when it raises.
use ai_forge_memory.Prelude.{
  ℕ, ◌≤◌, String, false, List, [], ◌∷◌, ◌==◌, ◌≡◌, refl, sym, ap, ◌↔◌, inl, inr, arith, All, subst,
  Bool-cases, Option-cases,
}
use ai_forge_memory.Prelude.Members.{In-keep_iff, In-take}
use ai_forge_memory.Prelude.Sort.{In, contains, contains_iff}
use ai_forge_memory.Prelude.Text.{stripped}
use ai_forge_memory.Query.{Reply, replied, raised, Reply-cases}
use ai_forge_memory.Query.Translate.{Grounding}
use ai_forge_memory.Query.Translate.Rank.{Floats}
use ai_forge_memory.Query.Translate.Candidates.{Tunables, Sources, Candidates, find_candidates}
use ai_forge_memory.Query.Translate.Candidates.Found.{IsFileOf, IsSymbolOf, find_candidates-lem}
use ai_forge_memory.Query.Translate.Ground.{
  Payload, Answer, Llm, add_errors, take_field, only, set_hops, set_keywords, set_services,
  set_files, set_symbols, read_answer, parse, ask, fall_back, add_scores, ground, with_catalog,
  translate,
}

-- The names of a grounding are among the candidates, and it asks for one or two hops.
abbrev IsWithin : List String → Candidates → Grounding → Type 0
IsWithin services c g =
    ((x : String) → In x g.services → In x services)
    × ((x : String) → In x g.files → In x c.files)
    × ((x : String) → In x g.symbols → In x c.symbols)
    × (1 ≤ g.hops)
    × (g.hops ≤ 2)

In-only : (x : String) (known names : List String) → In x (only known names) → In x known
In-only x known names m =
    (contains_iff x known).0 ((In-keep_iff (λ y. contains y known) x names).0 m).1

take_field-keeps :
    {A : Type 0} (P : Grounding → Type 0) (r : Reply A) (set : A → Grounding → Grounding)
    (next : Grounding → Grounding) (g : Grounding)
    → ((es : List String) (h : Grounding) → P h → P (add_errors es h))
    → ((a : A) (h : Grounding) → P h → P (set a h))
    → ((h : Grounding) → P h → P (next h))
    → P g
    → P (take_field r set next g)
take_field-keeps P (raised exc) set next g err ok on p = err _ g p
take_field-keeps P (replied a) set next g err ok on p = on (set a g) (ok a g p)

module _ (services : List String) (c : Candidates) where
  read_answer-IsWithin :
      (answer : Answer) (g : Grounding)
      → IsWithin services c g
      → IsWithin services c (read_answer services c answer g)
  unfolding read_answer
  read_answer-IsWithin answer g p =
      let P = IsWithin services c in
      let err = λ (es : List String) (h : Grounding) (w : P h). w in
      take_field-keeps P answer.hops set_hops _ (record g { intent = answer.intent }) err
        (λ n h (s, f, y, a, b). (s, f, y, omega arith, omega arith))
        (λ h.
          take_field-keeps P answer.keywords set_keywords _ h err (λ ks h w. w)
            (λ h.
              take_field-keeps P answer.services (set_services services) _ h err
                (λ names h (s, f, y, a, b). ((λ x. In-only x services names), f, y, a, b))
                (λ h.
                  take_field-keeps P answer.files (set_files c.files) _ h err
                    (λ names h (s, f, y, a, b). (s, (λ x. In-only x c.files names), y, a, b))
                    (λ h.
                      take_field-keeps P answer.symbols (set_symbols c.symbols) (λ g. g) h err
                        (λ names h (s, f, y, a, b). (s, f, (λ x. In-only x c.symbols names), a, b))
                        (λ h w. w)))))
        p

  ask-IsWithin :
      (llm : Llm) (sent : Payload) (g : Grounding)
      → IsWithin services c g
      → IsWithin services c (ask llm services c sent g)
  unfolding ask
  ask-IsWithin llm sent g p = elim (Reply-cases (llm.complete sent)) [
    | inr (exc, e) ↦ rw (e, ask) p
    | inl (raw, e) ↦ elim (Option-cases (parse llm raw)) [
      | inl n ↦ rw (e, ask, n) p
      | inr (answer, s) ↦ rw (e, ask, s) (read_answer-IsWithin answer g p)
    ]
  ]

  fall_back-IsWithin :
      (ss fs ys : List String) (g : Grounding)
      → IsWithin services c g
      → IsWithin services c (fall_back ss fs ys c g)
  fall_back-IsWithin [] [] [] g (s, f, y, a, b) =
      (s, (λ x. In-take x 5 c.files), (λ x. In-take x 5 c.symbols), a, b)
  fall_back-IsWithin [] [] (y ∷ ys) g p = p
  fall_back-IsWithin [] (f ∷ fs) ys g p = p
  fall_back-IsWithin (s ∷ ss) fs ys g p = p

  ground-IsWithin :
      (fl : Floats) (db : Sources) (llm : Llm) (text : String)
      → IsWithin services c (ground fl db llm text services c)
  unfolding ground add_scores
  ground-IsWithin fl db llm text = fall_back-IsWithin _ _ _ _ (
      ask-IsWithin llm _ _
        ((λ x m. absurd m), (λ x m. absurd m), (λ x m. absurd m), omega arith, omega arith))

All-of : {A : Type 0} (P : A → Type 0) (xs : List A) → ((x : A) → In x xs → P x) → All P xs
All-of P [] h = tt
All-of P (x ∷ xs) h = (h x (inl refl), All-of P xs (λ y m. h y (inr m)))

-- The read of the service catalog gave the name.
abbrev pub IsServiceOf : Sources → String → Type 0
IsServiceOf db s = (names : List String) × (db.service_names ≡ replied names) × In s names

-- The names of a grounding are what the database gave, and it asks for one or two hops.
abbrev pub IsGrounded : Sources → Grounding → Type 0
IsGrounded db g =
    All (IsServiceOf db) g.services
    × All (IsFileOf db) g.files
    × All (IsSymbolOf db) g.symbols
    × (1 ≤ g.hops)
    × (g.hops ≤ 2)

IsGrounded-IsWithin :
    (db : Sources) (names : List String) (c : Candidates) (g : Grounding)
    → db.service_names ≡ replied names
    → ((x : String) → (In x c.files → IsFileOf db x) × (In x c.symbols → IsSymbolOf db x))
    → IsWithin names c g
    → IsGrounded db g
IsGrounded-IsWithin db names c g r found (s, f, y, a, b) = (
  All-of (IsServiceOf db) g.services (λ x m. (names, r, s x m)),
  All-of (IsFileOf db) g.files (λ x m. (found x).0 (f x m)),
  All-of (IsSymbolOf db) g.symbols (λ x m. (found x).1 (y x m)),
  a,
  b,
)

-- What holds of the grounding that a call replies with.
Replies : (Grounding → Type 0) → Reply Grounding → Type 0
Replies P (replied g) = P g
Replies P (raised exc) = Unit

module _ (fl : Floats) (db : Sources) (llm : Llm) (env : Tunables) (top_k : ℕ) (text : String) where
  translate-ground :
      (names : List String)
      → (stripped text == "") ≡ false
      → db.service_names ≡ replied names
      → translate fl db llm env top_k text
        ≡ replied (ground fl db llm text names (find_candidates fl db env top_k text))
  unfolding translate
  translate-ground names f r = rw (f, translate) (ap (with_catalog fl db llm env top_k text) r)

  -- Whatever the model answers, `translate` names only services of the catalog, and only files and
  -- symbols that a read of the database gave, and it asks for one or two hops.
  pub translate-IsGrounded :
      (g : Grounding) → translate fl db llm env top_k text ≡ replied g → IsGrounded db g
  unfolding Replies translate
  translate-IsGrounded g e =
      subst (Replies (IsGrounded db)) e (elim (Bool-cases (stripped text == "")) [
        | inl t ↦ rw (t, translate) (tt, tt, tt, omega arith, omega arith)
        | inr f ↦ elim (Reply-cases db.service_names) [
          | inr (exc, r) ↦ rw (f, translate, r) tt
          | inl (names, r) ↦
              let c = find_candidates fl db env top_k text in
              subst (Replies (IsGrounded db)) (sym (translate-ground names f r)) (
                IsGrounded-IsWithin db names c (ground fl db llm text names c) r
                  (find_candidates-lem fl db env top_k text)
                  (ground-IsWithin names c fl db llm text))
        ]
      ])

  -- `translate` raises where the read of the service catalog does, for a question that is not blank,
  -- and nowhere else.
  translate_raised_iff :
      (exc : String)
      → (translate fl db llm env top_k text ≡ raised exc)
        ↔ (((stripped text == "") ≡ false) × (db.service_names ≡ raised exc))
  unfolding translate
  translate_raised_iff exc = elim (Bool-cases (stripped text == "")) [
    | inl t ↦ rw (t, translate) (λ e. cc, λ p. cc)
    | inr f ↦ elim (Reply-cases db.service_names) [
      | inr (exc', r) ↦ rw (f, translate, r) (λ e. (refl, cc), λ p. cc)
      | inl (names, r) ↦ rw (f, translate, r) (λ e. cc, λ p. cc)
    ]
  ]
