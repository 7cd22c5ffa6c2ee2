-- ===== src/Query/Translate/Candidates.antt =====
-- query/translator.py: `translate` up to the model's answer: the files and symbols that the searches
-- give. Each read of the database is a parameter: what its query gives for the repository.
pub mod Listed
pub mod Found
use ai_forge_memory.Prelude.{
  ℕ, ◌+◌, ◌*◌, min, max, String, Bool, true, false, Option, none, some, List, [], ◌∷◌, ◌++◌, ◌==◌,
  if◌then◌else◌, length, take, drop,
}
use ai_forge_memory.Prelude.Dict.{Dict, lookup, insert, has}
use ai_forge_memory.Prelude.Sort.{contains}
use ai_forge_memory.Prelude.Text.{join_with, ◌&◌}
use ai_forge_memory.Query.{Reply, replied, raised}
use ai_forge_memory.Query.Translate.Tokens.{tokenize_for_fulltext, escape_lucene, expand_query}
use ai_forge_memory.Query.Translate.Rank.{
  Floats, get_score, rrf_fuse, path_prior, rerank_doc, rerank,
}

-- `RRF_K`, `RERANK_TOPN` and `ENABLE_RERANK`, read from the environment.
pub record Tunables : Type 0 where
  pub rrf_k : ℕ
  pub rerank_topn : ℕ
  pub enable_rerank : Bool

-- A row of the search over chunks; a path, a text and a score that are missing are empty.
pub record ChunkHit : Type 0 where
  pub file_path : String
  pub text : String
  pub score : String

pub record SymbolHit : Type 0 where
  pub fqname : String
  pub file_path : String

-- The queries of `_chunk_fulltext_topk` (the search, how many rows, how many before the repository
-- is selected), `_symbols_in`, `_fulltext_symbols`, `_expand_one_hop` (the paths of its one row),
-- `_services_for`, `_file_summaries` and `_symbol_summaries`; and the rerank service.
pub record Sources : Type 0 where
  pub chunk_hits : String → ℕ → ℕ → Reply (List ChunkHit)
  pub symbols_of : List String → Reply (List String)
  pub symbol_hits : String → ℕ → Reply (List SymbolHit)
  pub imported : List String → Reply (Option (List String))
  pub service_names : Reply (List String)
  pub summaries_of : List String → Reply (Dict String)
  pub symbol_summaries_of : List String → Reply (List (String × String))
  pub rerank_scores : String → List String → Reply (List String)

abbrev pub search_of : List String → String
search_of tokens = join_with " OR " (escape_all tokens)
  where
    escape_all : List String → List String
    escape_all [] = []
    escape_all (t ∷ ts) = escape_lucene t ∷ escape_all ts

abbrev pub chunks_with : Sources → ℕ → List String → Reply (List ChunkHit)
chunks_with db k [] = replied []
chunks_with db k (t ∷ ts) = db.chunk_hits (search_of (t ∷ ts)) k (min (k * 4) 500)

unfoldable pub chunk_fulltext_topk : Sources → String → ℕ → Reply (List ChunkHit)
chunk_fulltext_topk db text k = chunks_with db k (tokenize_for_fulltext text)

unfoldable pub symbols_in : Sources → List String → Reply (List String)
symbols_in db [] = replied []
symbols_in db (f ∷ files) = db.symbols_of (f ∷ files)

-- `if fp and fp not in files: files.append(fp)`
abbrev pub add_path : List String → String → List String
add_path files fp =
    if fp == "" then files else (if contains fp files then files else files ++ (fp ∷ []))

abbrev pub hit_names : List SymbolHit → List String
hit_names [] = []
hit_names (r ∷ rows) = r.fqname ∷ hit_names rows

abbrev pub hit_files : List String → List SymbolHit → List String
hit_files files [] = files
hit_files files (r ∷ rows) = hit_files (add_path files r.file_path) rows

-- The names and the files of a search; one that raises gives nothing.
abbrev pub names_and_files : Reply (List SymbolHit) → List String × List String
names_and_files (raised exc) = ([], [])
names_and_files (replied rows) = (hit_names rows, hit_files [] rows)

abbrev pub symbols_with : Sources → ℕ → List String → List String × List String
symbols_with db k [] = ([], [])
symbols_with db k (t ∷ ts) = names_and_files (db.symbol_hits (search_of (t ∷ ts)) k)

unfoldable pub fulltext_symbols : Sources → String → ℕ → List String × List String
fulltext_symbols db text k = symbols_with db k (tokenize_for_fulltext text)

abbrev pub add_paths : List String → List String → List String
add_paths files [] = files
add_paths files (p ∷ paths) = add_paths (add_path files p) paths

-- At most twenty neighbours; a read that raises, or that has no row, gives none.
abbrev pub neighbours_of : Reply (Option (List String)) → List String
neighbours_of (raised exc) = []
neighbours_of (replied none) = []
neighbours_of (replied (some paths)) = take 20 (add_paths [] paths)

unfoldable pub expand_one_hop : Sources → List String → List String
expand_one_hop db [] = []
expand_one_hop db (f ∷ files) = neighbours_of (db.imported (f ∷ files))

-- What the rows of the search over chunks leave: the files, the score and the best text of each.
pub record Anchored : Type 0 where
  pub files : List String
  pub scores : Dict String
  pub texts : Dict String

abbrev pub none_yet : Anchored
none_yet = record { files = []; scores = []; texts = [] }

-- `float(r.get("score") or 0.0)`
abbrev pub score_or_zero : String → String
score_or_zero s = if s == "" then "0.0" else s

abbrev pub add_score : Floats → ChunkHit → Anchored → Anchored
add_score fl r a = if contains r.file_path a.files then a else record a {
  files = a.files ++ (r.file_path ∷ []);
  scores =
      insert r.file_path (fl.larger (get_score a.scores r.file_path) (score_or_zero r.score))
        a.scores;
}

abbrev pub add_text : ChunkHit → Anchored → Anchored
add_text r a =
    if has r.file_path a.texts
    then a
    else (if r.text == "" then a else record a { texts = insert r.file_path r.text a.texts })

unfoldable pub anchor : Floats → List ChunkHit → Anchored → Anchored
anchor fl [] a = a
anchor fl (r ∷ rows) a =
    anchor fl rows (if r.file_path == "" then a else add_text r (add_score fl r a))

-- `for x in found: if x not in known: known.append(x)`
abbrev pub append_new : List String → List String → List String
append_new known [] = known
append_new known (x ∷ found) =
    append_new (if contains x known then known else known ++ (x ∷ [])) found

-- What the searches give for a question.
pub record Candidates : Type 0 where
  pub files : List String
  pub symbols : List String
  pub scores : Dict String
  pub used : ℕ
  pub errors : List String

-- `g.used_top_k` and the symbols of the files, once these are read: `n` is the number of the rows.
abbrev pub with_symbols :
    Anchored → ℕ → Reply (List String) → Anchored × List String × ℕ × List String
with_symbols a n (raised exc) = (a, [], 0, ("embed/topk: " & exc) ∷ [])
with_symbols a n (replied symbols) = (a, symbols, n, [])

abbrev pub with_hits :
    Floats → Sources → ℕ → Reply (List ChunkHit) → Anchored × List String × ℕ × List String
with_hits fl db top_k (raised exc) = (none_yet, [], 0, ("embed/topk: " & exc) ∷ [])
with_hits fl db top_k (replied rows) =
    let a = anchor fl rows none_yet in
    with_symbols a (length rows) (symbols_in db (take top_k a.files))

-- The search over chunks, with the symbols of the files it finds.
unfoldable pub search_chunks :
    Floats → Sources → String → ℕ → Anchored × List String × ℕ × List String
search_chunks fl db expanded top_k =
    with_hits fl db top_k (chunk_fulltext_topk db expanded (max (top_k * 3) 50))

-- The fused list of files: the first of it are reranked, if that is enabled.
unfoldable pub rank_files :
    Floats → Sources → Tunables → String → Anchored → List String → List String
rank_files fl db env text a fulltext_files =
    let fused =
      rrf_fuse fl (a.files ∷ fulltext_files ∷ []) (path_prior fl text (a.files ++ fulltext_files))
        env.rrf_k in
    let top = take env.rerank_topn fused in
    if env.enable_rerank
    then rerank fl db.rerank_scores text top (docs_texts top) ++ drop env.rerank_topn fused
    else fused
  where
    docs_texts : List String → List String
    docs_texts [] = []
    docs_texts (p ∷ ps) = rerank_doc a.texts p ∷ docs_texts ps

unfoldable pub find_candidates : Floats → Sources → Tunables → ℕ → String → Candidates
find_candidates fl db env top_k text =
    let expanded = expand_query text in
    let (a, symbols, used, errors) = search_chunks fl db expanded top_k in
    let (more, files) = fulltext_symbols db expanded (max (top_k * 3) 50) in
    let ranked = rank_files fl db env text a files in
    record {
      files = take (max (top_k * 2) 40) (append_new ranked (expand_one_hop db (take 5 ranked)));
      symbols = append_new symbols more;
      scores = a.scores;
      used = used;
      errors = errors;
    }
