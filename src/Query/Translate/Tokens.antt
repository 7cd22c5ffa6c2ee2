-- ===== src/Query/Translate/Tokens.antt =====
-- query/translator.py: `_tokenize_for_fulltext`, `_escape_lucene` and `_expand_query`. Letters, digits and white space
-- are those of ASCII.
use ai_forge_memory.Prelude.{
  ℕ, String, Bool, false, ◌&&◌, ◌||◌, List, [], ◌∷◌, ◌++◌, ◌==◌, ltb, leb, eqb, if◌then◌else◌,
  length,
}
use Prim.Native.Char.{Char, code}
use ai_forge_memory.Prelude.Text.{Text, codes, lower, is_space, stripped, same_text, join_with, ◌&◌}

-- `c` before the first of the pieces.
abbrev push : Char → List String → List String
push c [] = String.◌∷◌ c "" ∷ []
push c (p ∷ ps) = String.◌∷◌ c p ∷ ps

-- The text cut at each character that is a separator.
abbrev cut_at : (ℕ → Bool) → String → List String
cut_at sep String.[] = "" ∷ []
cut_at sep (String.◌∷◌ c s) =
    let pieces = cut_at sep s in if sep (code c) then "" ∷ pieces else push c pieces

-- `[p for p in pieces if p]`
abbrev non_empty : List String → List String
non_empty [] = []
non_empty (p ∷ ps) = if p == "" then non_empty ps else p ∷ non_empty ps

abbrev is_upper : ℕ → Bool
is_upper c = leb b'A' c && leb c b'Z'

abbrev is_lower : ℕ → Bool
is_lower c = leb b'a' c && leb c b'z'

abbrev is_digit : ℕ → Bool
is_digit c = leb b'0' c && leb c b'9'

abbrev starts_lower : String → Bool
starts_lower String.[] = false
starts_lower (String.◌∷◌ c s) = is_lower (code c)

-- `_CAMEL_RE` matches between `before` and `c`, which `after` follows.
abbrev is_camel : ℕ → ℕ → String → Bool
is_camel before c after =
    (is_lower before || is_digit before) && is_upper c
    || is_upper before && is_upper c && starts_lower after

abbrev cut_camel : ℕ → String → List String
cut_camel before String.[] = "" ∷ []
cut_camel before (String.◌∷◌ c s) =
    let pieces = cut_camel (code c) s in
    if is_camel before (code c) s then "" ∷ push c pieces else push c pieces

abbrev has_code : ℕ → String → Bool
has_code n String.[] = false
has_code n (String.◌∷◌ c s) = eqb (code c) n || has_code n s

unfoldable pub camel_split : String → List String
camel_split token =
    if token == "" || has_code b'_' token
    then non_empty (cut_at (eqb b'_') token)
    else non_empty (cut_camel 0 token)

-- `low in seen`
abbrev pub in_texts : Text → List Text → Bool
in_texts t [] = false
in_texts t (u ∷ us) = same_text u t || in_texts t us

-- The pieces that are long enough and new, and the lower-case texts seen so far.
abbrev add_pieces : List String → List Text → List String → List String × List Text
add_pieces out seen [] = (out, seen)
add_pieces out seen (p ∷ ps) =
    let piece = stripped p in
    let low = lower (codes piece) in
    let skip = add_pieces out seen ps in
    let add = add_pieces (out ++ (piece ∷ [])) (low ∷ seen) ps in
    if ltb (length (codes piece)) 3 || in_texts low seen then skip else add

abbrev add_tokens : List String → List Text → List String → List String
add_tokens out seen [] = out
add_tokens out seen (tok ∷ raw) =
    let (out', seen') = add_pieces out seen (camel_split tok) in add_tokens out' seen' raw

-- White space, `/`, `.` and `-`.
abbrev is_break : ℕ → Bool
is_break c = is_space c || eqb c b'/' || eqb c b'.' || eqb c b'-'

unfoldable pub tokenize_for_fulltext : String → List String
tokenize_for_fulltext text = add_tokens [] [] (cut_at is_break text)

-- `_escape_lucene`: a backslash before each character that the search engine treats specially.
unfoldable pub escape_lucene : String → String
escape_lucene String.[] = ""
escape_lucene (String.◌∷◌ c s) =
    let rest = escape_lucene s in
    if has_code (code c) "+-!(){}[]^\"~*?:\\/" then "\\" & String.◌∷◌ c rest else String.◌∷◌ c rest

-- `_SYNONYMS`
abbrev pub synonyms : List (String × List String)
synonyms =
    ("auth", "authentication" ∷ "jwt" ∷ "login" ∷ "token" ∷ [])
    ∷ ("jwt", "auth" ∷ "authentication" ∷ "token" ∷ [])
    ∷ ("crud", "controller" ∷ "service" ∷ "repository" ∷ "create" ∷ "update" ∷ "delete" ∷ [])
    ∷ ("endpoint", "controller" ∷ "api" ∷ "route" ∷ [])
    ∷ ("api", "controller" ∷ "endpoint" ∷ [])
    ∷ ("create", "save" ∷ "insert" ∷ "post" ∷ [])
    ∷ ("update", "patch" ∷ "put" ∷ "modify" ∷ [])
    ∷ ("delete", "remove" ∷ "destroy" ∷ [])
    ∷ ("list", "getAll" ∷ "findAll" ∷ "list" ∷ [])
    ∷ ("fetch", "get" ∷ "find" ∷ "load" ∷ [])
    ∷ ("validation", "validator" ∷ "validate" ∷ "check" ∷ [])
    ∷ ("sync", "dataSync" ∷ "push" ∷ "pull" ∷ "replication" ∷ [])
    ∷ ("push", "publish" ∷ "send" ∷ "sync" ∷ [])
    ∷ ("pull", "fetch" ∷ "request" ∷ "sync" ∷ [])
    ∷ ("test", "test" ∷ "spec" ∷ "junit" ∷ [])
    ∷ ("controller", "controller" ∷ "rest" ∷ "endpoint" ∷ [])
    ∷ ("service", "service" ∷ "impl" ∷ [])
    ∷ ("repository", "repo" ∷ "dao" ∷ "store" ∷ [])
    ∷ []

-- `_SYNONYMS.get(tok.lower(), ())`
abbrev synonyms_of : Text → List (String × List String) → List String
synonyms_of low [] = []
synonyms_of low ((k, syns) ∷ table) =
    if same_text (codes k) low then syns else synonyms_of low table

abbrev add_new : List String → List Text → List String → List String × List Text
add_new extra seen [] = (extra, seen)
add_new extra seen (syn ∷ syns) =
    let low = lower (codes syn) in
    let skip = add_new extra seen syns in
    let add = add_new (extra ++ (syn ∷ [])) (low ∷ seen) syns in
    if in_texts low seen then skip else add

abbrev add_synonyms : List String → List Text → List String → List String
add_synonyms extra seen [] = extra
add_synonyms extra seen (tok ∷ toks) =
    let (extra', seen') = add_new extra seen (synonyms_of (lower (codes tok)) synonyms) in
    add_synonyms extra' seen' toks

abbrev lowers : List String → List Text
lowers [] = []
lowers (t ∷ ts) = lower (codes t) ∷ lowers ts

unfoldable pub expand_query : String → String
expand_query text =
    let base = tokenize_for_fulltext text in
    elim (add_synonyms [] (lowers base) base) [
      | [] ↦ text
      | e ∷ es ↦ text & "  " & join_with " " (e ∷ es)
    ]
