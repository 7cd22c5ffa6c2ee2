-- ===== src/Lsp/Resolver.antt =====
-- features/lsp/resolver.py: `resolve_calls` and its helpers. The server is a parameter: whether it
-- starts, and the references that it answers for a position. Opening the files only informs it.
-- The file system and the resolution of a path below the root are parameters too. A confidence is in
-- thousandths; an edge's repository is the run's.
pub mod Placed
pub mod Grounded
pub mod Resolved
use ai_forge_memory.Lsp.Index.{Symbol, SourceFile, SymRange, is_target, build_sym_index, enclosing}
use ai_forge_memory.Prelude.{
  ℕ, zero, suc, ◌+◌, ◌-◌, String, Bool, false, not, ◌&&◌, ◌||◌, Option, none, some, List, [], ◌∷◌,
  ◌++◌, ◌==◌, if◌then◌else◌,
}
use mathlib.Core.Option
use ai_forge_memory.Prelude.Dict.{Dict, lookup, insert, keys}
use ai_forge_memory.Prelude.Text.{Text, codes, is_prefix, starts_with}
use ai_forge_memory.Flow.Calls.{CallEdge}
use ai_forge_memory.Symbol.Calls.{short}
use ai_forge_memory.Lsp.Adapters.{Host, missing, failing, command, adapter_for}

-- A location: its URI, and the line of its start, from zero, if it has one.
pub record Location : Type 0 where
  pub uri : String
  pub line : Option ℕ

-- A server: `starts` is false where entering it raises `LspError`; `references` is `none` where the
-- request does, given the path, the line and the column.
pub record Server : Type 0 where
  pub starts : Bool
  pub references : String → ℕ → ℕ → Option (List Location)

-- `lines` are the lines of a file of the repository, `none` where it cannot be read; `unquote` is
-- urllib's; `below_root` is `Path(p).resolve().relative_to(repo_root)`, `none` where it raises.
pub record Disk : Type 0 where
  pub lines : String → Option (List Text)
  pub unquote : String → String
  pub below_root : String → Option String

-- `raw.find(name)`, and 0 where it is not there.
abbrev column : Text → Text → Option ℕ
column name [] = if is_prefix name [] then some 0 else none
column name (c ∷ s) =
    let later = Option.map suc (column name s) in if is_prefix name (c ∷ s) then some 0 else later

abbrev get_line : ℕ → List Text → Option Text
get_line n [] = none
get_line zero (l ∷ ls) = some l
get_line (suc n) (l ∷ ls) = get_line n ls

abbrev column_in : Text → Option Text → ℕ
column_in name none = 0
column_in name (some raw) = elim (column name raw) [ none ↦ 0 | some n ↦ n ]

-- `_name_position`
unfoldable pub name_position : Disk → String → Symbol → ℕ × ℕ
name_position d path s =
    let line0 = s.line_start - 1 in
    (
      line0,
      elim (d.lines path) [
        | none ↦ 0
        | some ls ↦ column_in (codes (short s.fqname)) (get_line line0 ls)
      ],
    )

abbrev drop_chars : ℕ → String → String
drop_chars zero s = s
drop_chars (suc n) String.[] = ""
drop_chars (suc n) (String.◌∷◌ c s) = drop_chars n s

unfoldable pub uri_to_path : Disk → String → String
uri_to_path d uri = if starts_with "file://" uri then d.unquote (drop_chars 7 uri) else uri

abbrev edge_from : Symbol → Option SymRange → Option CallEdge
edge_from callee none = none
edge_from callee (some r) =
    if r.fqname == callee.fqname
    then none
    else some (record { caller = r.fqname; callee = callee.fqname; confidence = 1000 })

abbrev ranges_at : Dict (List SymRange) → Option String → List SymRange
ranges_at index none = []
ranges_at index (some path) = elim (lookup path index) [ none ↦ [] | some rs ↦ rs ]

-- The range around a location, if it names a line of a file of the index.
unfoldable pub around : Disk → Dict (List SymRange) → Location → Option SymRange
around d index ref = elim ref.line [
  | none ↦ none
  | some line ↦ enclosing (line + 1) (ranges_at index (d.below_root (uri_to_path d ref.uri)))
]

-- `_ref_to_edge`
unfoldable pub ref_to_edge : Disk → Dict (List SymRange) → Symbol → Location → Option CallEdge
ref_to_edge d index callee ref = edge_from callee (around d index ref)

abbrev pub is_seen : CallEdge → List CallEdge → Bool
is_seen e [] = false
is_seen e (x ∷ xs) = (x.caller == e.caller && x.callee == e.callee) || is_seen e xs

abbrev pub add_edge : Option CallEdge → List CallEdge → List CallEdge
add_edge none edges = edges
add_edge (some e) edges = if is_seen e edges then edges else edges ++ e ∷ []

-- The loop over the references of a target, with the edges so far.
unfoldable pub add_refs :
    Disk → Dict (List SymRange) → Symbol → List Location → List CallEdge → List CallEdge
add_refs d index callee [] edges = edges
add_refs d index callee (ref ∷ refs) edges =
    add_refs d index callee refs (add_edge (ref_to_edge d index callee ref) edges)

abbrev pub or_empty : Option (List Location) → List Location
or_empty none = []
or_empty (some refs) = refs

abbrev pub ask : Disk → Server → String → Symbol → List Location
ask d server path s = let at = name_position d path s in or_empty (server.references path at.0 at.1)

-- The symbols of one file, as targets.
unfoldable pub add_symbols :
    Disk → Server → Dict (List SymRange) → String → List Symbol → List CallEdge → List CallEdge
add_symbols d server index path [] edges = edges
add_symbols d server index path (s ∷ ss) edges =
    add_symbols d server index path ss
      (if is_target s.kind then add_refs d index s (ask d server path s) edges else edges)

unfoldable pub add_files :
    Disk → Server → Dict (List SymRange) → List SourceFile → List CallEdge → List CallEdge
add_files d server index [] edges = edges
add_files d server index (f ∷ fs) edges =
    add_files d server index fs (add_symbols d server index f.path f.symbols edges)

-- `_resolve_one_lang`; a server that does not start gives no edge. Without a target no server is
-- started, and there is no edge either.
unfoldable pub resolve_one_lang : Disk → Server → List SourceFile → List CallEdge
resolve_one_lang d server files =
    if server.starts then add_files d server (build_sym_index files []) files [] else []

-- `by_lang.get(lang, [])`
unfoldable pub files_of : String → List SourceFile → List SourceFile
files_of lang [] = []
files_of lang (f ∷ fs) =
    let rest = files_of lang fs in if not f.parse_error && f.lang == lang then f ∷ rest else rest

-- `list(by_lang)`
abbrev by_lang : List SourceFile → Dict (Unit {0}) → Dict (Unit {0})
by_lang [] d = d
by_lang (f ∷ fs) d = by_lang fs (if f.parse_error then d else insert f.lang tt d)

unfoldable pub target_langs : Option (List String) → List SourceFile → List String
target_langs none walked = keys (by_lang walked [])
target_langs (some langs) walked = langs

abbrev prepend : List CallEdge → Option (List CallEdge) → Option (List CallEdge)
prepend es none = none
prepend es (some out) = some (es ++ out)

-- The loop over the languages; `none` where an adapter raises. `servers` gives the server that a
-- command starts for a language.
unfoldable pub over_langs :
    Disk
    → Host
    → (List String → String → Server)
    → List SourceFile
    → List String
    → Option (List CallEdge)
over_langs d h servers walked [] = some []
over_langs d h servers walked (lang ∷ langs) =
    let files = files_of lang walked in
    let rest = over_langs d h servers walked langs in
    elim files [
      | [] ↦ rest
      | f ∷ fs ↦ elim (adapter_for h lang) [
        | missing ↦ rest
        | failing ↦ none
        | command cmd language_id ↦
            prepend (resolve_one_lang d (servers cmd language_id) (f ∷ fs)) rest
      ]
    ]

-- `resolve_calls`
unfoldable pub resolve_calls :
    Disk
    → Host
    → (List String → String → Server)
    → Option (List String)
    → List SourceFile
    → Option (List CallEdge)
resolve_calls d h servers langs walked = over_langs d h servers walked (target_langs langs walked)
