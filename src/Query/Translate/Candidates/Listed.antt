-- ===== src/Query/Translate/Candidates/Listed.antt =====
-- query/translator.py: what stands in the lists that `translate` collects.
use ai_forge_memory.Prelude.{
  String, List, [], ◌∷◌, ◌++◌, ◌==◌, ◌≡◌, refl, ◌⊎◌, inl, inr, Bool-cases,
}
use ai_forge_memory.Prelude.Dict.{has}
use ai_forge_memory.Prelude.Members.{In-append}
use ai_forge_memory.Prelude.Sort.{In, contains}
use ai_forge_memory.Query.Translate.Rank.{Floats}
use ai_forge_memory.Query.Translate.Candidates.{
  ChunkHit, SymbolHit, Anchored, add_text, add_score, anchor, append_new, add_path, add_paths,
  hit_files,
}

abbrev pub chunk_paths : List ChunkHit → List String
chunk_paths [] = []
chunk_paths (r ∷ rows) = r.file_path ∷ chunk_paths rows

abbrev pub symbol_paths : List SymbolHit → List String
symbol_paths [] = []
symbol_paths (r ∷ rows) = r.file_path ∷ symbol_paths rows

pub In-snoc : (x y : String) (xs : List String) → In x (xs ++ (y ∷ [])) → In x xs ⊎ (x ≡ y)
In-snoc x y xs m = elim (In-append x xs (y ∷ []) m) [
  | inl i ↦ inl i
  | inr j ↦ elim j [ inl p ↦ inr p | inr n ↦ absurd n ]
]

pub In-append_new :
    (x : String) (known found : List String)
    → In x (append_new known found)
    → In x known ⊎ In x found
In-append_new x known [] m = inl m
In-append_new x known (y ∷ found) m = elim (Bool-cases (contains y known)) [
  | inl t ↦ elim (In-append_new x known found (rw t at m)) [ inl i ↦ inl i | inr j ↦ inr (inr j) ]
  | inr f ↦ elim (In-append_new x (known ++ (y ∷ [])) found (rw f at m)) [
    | inl i ↦ elim (In-snoc x y known i) [ inl k ↦ inl k | inr p ↦ inr (inl p) ]
    | inr j ↦ inr (inr j)
  ]
]

pub In-add_path :
    (x fp : String) (files : List String) → In x (add_path files fp) → In x files ⊎ (x ≡ fp)
In-add_path x fp files m = elim (Bool-cases (fp == "")) [
  | inl t ↦ inl (rw t at m)
  | inr f ↦ elim (Bool-cases (contains fp files)) [
    | inl t ↦ inl (rw (f, t) at m)
    | inr g ↦ In-snoc x fp files (rw (f, g) at m)
  ]
]

pub In-add_paths :
    (x : String) (files paths : List String)
    → In x (add_paths files paths)
    → In x files ⊎ In x paths
In-add_paths x files [] m = inl m
In-add_paths x files (p ∷ paths) m = elim (In-add_paths x (add_path files p) paths m) [
  | inl i ↦ elim (In-add_path x p files i) [ inl k ↦ inl k | inr e ↦ inr (inl e) ]
  | inr j ↦ inr (inr j)
]

pub In-hit_files :
    (x : String) (files : List String) (rows : List SymbolHit)
    → In x (hit_files files rows)
    → In x files ⊎ In x (symbol_paths rows)
In-hit_files x files [] m = inl m
In-hit_files x files (r ∷ rows) m = elim (In-hit_files x (add_path files r.file_path) rows m) [
  | inl i ↦ elim (In-add_path x r.file_path files i) [ inl k ↦ inl k | inr e ↦ inr (inl e) ]
  | inr j ↦ inr (inr j)
]

pub add_text_files : (r : ChunkHit) (a : Anchored) → (add_text r a).files ≡ a.files
add_text_files r a = elim (Bool-cases (has r.file_path a.texts)) [
  | inl t ↦ rw t refl
  | inr f ↦ elim (Bool-cases (r.text == "")) [ inl t ↦ rw (f, t) refl | inr g ↦ rw (f, g) refl ]
]

pub In-add_score :
    (fl : Floats) (x : String) (r : ChunkHit) (a : Anchored)
    → In x (add_score fl r a).files
    → In x a.files ⊎ (x ≡ r.file_path)
In-add_score fl x r a m = elim (Bool-cases (contains r.file_path a.files)) [
  | inl t ↦ inl (rw t at m)
  | inr f ↦ In-snoc x r.file_path a.files (rw f at m)
]

pub In-anchor :
    (fl : Floats) (x : String) (rows : List ChunkHit) (a : Anchored)
    → In x (anchor fl rows a).files
    → In x a.files ⊎ In x (chunk_paths rows)
unfolding anchor
In-anchor fl x [] a m = inl m
In-anchor fl x (r ∷ rows) a m = elim (Bool-cases (r.file_path == "")) [
  | inl t ↦ elim (In-anchor fl x rows a (rw (t, In) at m)) [ inl i ↦ inl i | inr j ↦ inr (inr j) ]
  | inr f ↦ elim (In-anchor fl x rows (add_text r (add_score fl r a)) (rw (f, In) at m)) [
    | inl i ↦ elim (In-add_score fl x r a (rw (add_text_files r (add_score fl r a)) at i)) [
      | inl k ↦ inl k
      | inr e ↦ inr (inl e)
    ]
    | inr j ↦ inr (inr j)
  ]
]
