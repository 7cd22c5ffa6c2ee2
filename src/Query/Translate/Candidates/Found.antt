-- ===== src/Query/Translate/Candidates/Found.antt =====
-- query/translator.py: where the candidates of `translate` come from.
use ai_forge_memory.Prelude.{
  ℕ, ◌*◌, max, String, Option, none, some, List, [], ◌∷◌, ◌++◌, ◌≡◌, refl, ◌⊎◌, inl, inr, take,
  Bool-cases, subst, length,
}
use ai_forge_memory.Prelude.Members.{In-append, In-take, In-drop}
use ai_forge_memory.Prelude.Sort.{In}
use ai_forge_memory.Query.{Reply, replied, raised, Reply-cases}
use ai_forge_memory.Query.Translate.Tokens.{tokenize_for_fulltext, expand_query}
use ai_forge_memory.Query.Translate.Rank.{Floats, path_prior, rrf_fuse}
use ai_forge_memory.Query.Translate.Rank.Fused.{rrf_fuse-IsDistinct, In-rerank_iff}
use ai_forge_memory.Query.Translate.Candidates.{
  Tunables, ChunkHit, SymbolHit, Sources, Anchored, anchor, add_paths, hit_names,
  chunk_fulltext_topk, chunks_with, symbols_in, symbols_with, search_of, with_symbols, with_hits,
  none_yet, neighbours_of, fulltext_symbols, expand_one_hop, search_chunks, rank_files,
  find_candidates,
}
use ai_forge_memory.Query.Translate.Candidates.Listed.{
  In-append_new, In-add_paths, In-hit_files, In-anchor, chunk_paths, symbol_paths,
}

-- The database gave the file: as the file of a chunk, as that of a symbol, or as one that some files
-- import or are imported by.
abbrev pub IsFileOf : Sources → String → Type 0
IsFileOf db f =
    ((q : String) × (n m : ℕ) × (rows : List ChunkHit) × (db.chunk_hits q n m ≡ replied rows)
      × In f (chunk_paths rows))
    ⊎ (((q : String) × (n : ℕ) × (rows : List SymbolHit) × (db.symbol_hits q n ≡ replied rows)
          × In f (symbol_paths rows))
        ⊎ ((files paths : List String) × (db.imported files ≡ replied (some paths)) × In f paths))

-- The database gave the symbol: as one of some files, or as one that a search found.
abbrev pub IsSymbolOf : Sources → String → Type 0
IsSymbolOf db s =
    ((files names : List String) × (db.symbols_of files ≡ replied names) × In s names)
    ⊎ ((q : String) × (n : ℕ) × (rows : List SymbolHit) × (db.symbol_hits q n ≡ replied rows)
        × In s (hit_names rows))

chunks_with-IsFileOf :
    (db : Sources) (k : ℕ) (tokens : List String) (rows : List ChunkHit) (x : String)
    → chunks_with db k tokens ≡ replied rows
    → In x (chunk_paths rows)
    → IsFileOf db x
chunks_with-IsFileOf db k [] [] x e m = absurd m
chunks_with-IsFileOf db k [] (r ∷ rows) x e m = cc
chunks_with-IsFileOf db k (t ∷ ts) rows x e m = inl (_, k, _, rows, e, m)

-- What the search over chunks leaves: its files, and the symbols of some of them.
with_symbols-IsSymbolOf :
    (db : Sources) (a : Anchored) (n : ℕ) (files : List String) (x : String)
    → In x (with_symbols a n (symbols_in db files)).1
    → IsSymbolOf db x
unfolding symbols_in
with_symbols-IsSymbolOf db a n [] x m = absurd m
with_symbols-IsSymbolOf db a n (f ∷ files) x m = elim (Reply-cases (db.symbols_of (f ∷ files))) [
  | inr (exc, e) ↦ absurd (rw (e, In) at m)
  | inl (names, e) ↦ inl (f ∷ files, names, e, rw (e, In) at m)
]

with_symbols_files :
    (a : Anchored) (n : ℕ) (found : Reply (List String)) → (with_symbols a n found).0 ≡ a
with_symbols_files a n (raised exc) = refl
with_symbols_files a n (replied symbols) = refl

with_hits-lem :
    (fl : Floats) (db : Sources) (top_k : ℕ) (found : Reply (List ChunkHit)) (x : String)
    → ((rows : List ChunkHit) → found ≡ replied rows → In x (chunk_paths rows) → IsFileOf db x)
    → (In x (with_hits fl db top_k found).0.files → IsFileOf db x)
      × (In x (with_hits fl db top_k found).1 → IsSymbolOf db x)
with_hits-lem fl db top_k (raised exc) x h = ((λ m. absurd m), (λ m. absurd m))
with_hits-lem fl db top_k (replied rows) x h =
    let a = anchor fl rows none_yet in
    let found = symbols_in db (take top_k a.files) in
    (
      (λ m.
          elim (In-anchor fl x rows none_yet
            (subst (λ b. In x b.files) (with_symbols_files a (length rows) found) m)) [
              | inl i ↦ absurd i
              | inr j ↦ h rows refl j
            ]),
      with_symbols-IsSymbolOf db a (length rows) (take top_k a.files) x,
    )

search_chunks-lem :
    (fl : Floats) (db : Sources) (text : String) (top_k : ℕ) (x : String)
    → (In x (search_chunks fl db text top_k).0.files → IsFileOf db x)
      × (In x (search_chunks fl db text top_k).1 → IsSymbolOf db x)
unfolding search_chunks chunk_fulltext_topk
search_chunks-lem fl db text top_k x =
    with_hits-lem fl db top_k _ x
      (λ rows. chunks_with-IsFileOf db (max (top_k * 3) 50) (tokenize_for_fulltext text) rows x)

symbols_with-lem :
    (db : Sources) (k : ℕ) (tokens : List String) (x : String)
    → (In x (symbols_with db k tokens).0 → IsSymbolOf db x)
      × (In x (symbols_with db k tokens).1 → IsFileOf db x)
symbols_with-lem db k [] x = ((λ m. absurd m), (λ m. absurd m))
symbols_with-lem db k (t ∷ ts) x = elim (Reply-cases (db.symbol_hits (search_of (t ∷ ts)) k)) [
  | inr (exc, e) ↦ ((λ m. absurd (rw (e, In) at m)), (λ m. absurd (rw (e, In) at m)))
  | inl (rows, e) ↦ (
    (λ m. inr (_, k, rows, e, rw (e, In) at m)),
    (λ m. elim (In-hit_files x [] rows (rw (e, In) at m)) [
      | inl i ↦ absurd i
      | inr j ↦ inr (inl (_, k, rows, e, j))
    ]),
  )
]

expand_one_hop-IsFileOf :
    (db : Sources) (files : List String) (x : String)
    → In x (expand_one_hop db files)
    → IsFileOf db x
unfolding expand_one_hop
expand_one_hop-IsFileOf db [] x m = absurd m
expand_one_hop-IsFileOf db (f ∷ files) x m = neighbour (db.imported (f ∷ files)) refl m
  where
    neighbour :
        (found : Reply (Option (List String)))
        → db.imported (f ∷ files) ≡ found
        → In x (neighbours_of found)
        → IsFileOf db x
    neighbour (raised exc) e m = absurd m
    neighbour (replied none) e m = absurd m
    neighbour (replied (some paths)) e m =
        elim (In-add_paths x [] paths (In-take x 20 (add_paths [] paths) m)) [
          | inl i ↦ absurd i
          | inr j ↦ inr (inr (f ∷ files, paths, e, j))
        ]

rank_files-In :
    (fl : Floats) (db : Sources) (env : Tunables) (text : String) (a : Anchored)
    (files : List String) (x : String)
    → In x (rank_files fl db env text a files)
    → In x a.files ⊎ In x files
unfolding rank_files
rank_files-In fl db env text a files x m =
    elim (fused (elim (Bool-cases env.enable_rerank) [
      | inr f ↦ rw (f, In) at m
      | inl t ↦ elim (In-append x _ _ (rw (t, In) at m)) [
        | inl i ↦ In-take x env.rerank_topn all ((In-rerank_iff fl db.rerank_scores text _ _ x).0 i)
        | inr j ↦ In-drop x env.rerank_topn all j
      ]
    ])) [ inl i ↦ inl i | inr j ↦ elim j [ inl k ↦ inr k | inr n ↦ absurd n ] ]
  where
    all : List String
    all = rrf_fuse fl (a.files ∷ files ∷ []) (path_prior fl text (a.files ++ files)) env.rrf_k

    fused : In x all → In x a.files ⊎ (In x files ⊎ ⊥)
    fused =
        ((rrf_fuse-IsDistinct fl (a.files ∷ files ∷ []) (path_prior fl text (a.files ++ files))
            env.rrf_k).1
          x).0

-- Every candidate of a question is a file, or a symbol, that the database gave.
pub find_candidates-lem :
    (fl : Floats) (db : Sources) (env : Tunables) (top_k : ℕ) (text x : String)
    → (In x (find_candidates fl db env top_k text).files → IsFileOf db x)
      × (In x (find_candidates fl db env top_k text).symbols → IsSymbolOf db x)
unfolding find_candidates fulltext_symbols
find_candidates-lem fl db env top_k text x =
    let chunks = search_chunks fl db (expand_query text) top_k in
    let symbols = fulltext_symbols db (expand_query text) (max (top_k * 3) 50) in
    let ranked = rank_files fl db env text chunks.0 symbols.1 in
    let (from_chunks, from_files) = search_chunks-lem fl db (expand_query text) top_k x in
    let (by_name, by_file) =
      symbols_with-lem db (max (top_k * 3) 50) (tokenize_for_fulltext (expand_query text)) x in
    (
      (λ m. elim (In-append_new x ranked (expand_one_hop db (take 5 ranked)) (In-take x _ _ m)) [
        | inl i ↦ elim (rank_files-In fl db env text chunks.0 symbols.1 x i) [
          | inl j ↦ from_chunks j
          | inr j ↦ by_file j
        ]
        | inr j ↦ expand_one_hop-IsFileOf db (take 5 ranked) x j
      ]),
      (λ m. elim (In-append_new x chunks.1 symbols.0 m) [
        | inl i ↦ from_files i
        | inr j ↦ by_name j
      ]),
    )
