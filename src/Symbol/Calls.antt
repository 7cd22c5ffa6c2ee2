-- ===== src/Symbol/Calls.antt =====
-- features/symbol/extract_calls.py: `resolve_calls_with_source` and its helpers. The parse is a
-- parameter: the symbols and imports of a walked file, and the call sites that reading it again
-- gives. A confidence is in thousandths; an edge's repository is the run's.
pub mod Imports
pub mod Lookups
pub mod Grounded
pub mod Innermost
use ai_forge_memory.Prelude.{
  ℕ, ◌-◌, String, Bool, true, false, not, ◌&&◌, ◌||◌, Option, none, some, List, [], ◌∷◌, ◌++◌, ◌==◌,
  map, ltb, leb, eqb, if◌then◌else◌,
}
use Prim.Native.Char.{Char, code}
use ai_forge_memory.Prelude.Dict.{Dict, lookup, insert}
use ai_forge_memory.Prelude.Sort.{contains}
use ai_forge_memory.Flow.Calls.{CallEdge}
use Imports.{import_files}

pub record Symbol : Type 0 where
  pub fqname : String
  pub line_start : ℕ
  pub line_end : ℕ

pub record Call : Type 0 where
  pub name : String
  pub line : ℕ

-- A walked file; `calls` is `none` where the file cannot be read or its calls cannot be extracted.
pub record SourceFile : Type 0 where
  pub path : String
  pub lang : String
  pub parse_error : Bool
  pub symbols : List Symbol
  pub imports : List String
  pub calls : Option (List Call)

-- The text after the last `::`, if there is one.
abbrev pub after_colons : String → Option String
after_colons String.[] = none
after_colons (String.◌∷◌ c String.[]) = none
after_colons (String.◌∷◌ c (String.◌∷◌ d s)) = elim (after_colons (String.◌∷◌ d s)) [
  | some r ↦ some r
  | none ↦ if eqb (code c) b':' && eqb (code d) b':' then some s else none
]

-- `fqname.rsplit("::", 1)[-1]`
unfoldable pub short : String → String
short s = elim (after_colons s) [ none ↦ s | some r ↦ r ]

-- The names of one file: a later symbol of the same name takes the place of an earlier one.
abbrev pub index_symbols : List Symbol → Dict String → Dict String
index_symbols [] d = d
index_symbols (s ∷ ss) d = index_symbols ss (insert (short s.fqname) s.fqname d)

abbrev pub FileIndex : Type 0
FileIndex = Dict (Dict String)

unfoldable pub file_index : List SourceFile → FileIndex → FileIndex
file_index [] d = d
file_index (f ∷ fs) d = file_index fs (insert f.path (index_symbols f.symbols []) d)

-- `by_name.get(name, [])`: every symbol of that short name, in the order of the files.
abbrev pub named_symbols : String → List Symbol → List String → List String
named_symbols name [] rest = rest
named_symbols name (s ∷ ss) rest =
    let more = named_symbols name ss rest in
    if short s.fqname == name then s.fqname ∷ more else more

unfoldable pub by_name : List SourceFile → String → List String
by_name [] name = []
by_name (f ∷ fs) name = named_symbols name f.symbols (by_name fs name)

-- `file_index.get(path, {}).get(name)`
unfoldable pub find_in : FileIndex → String → String → Option String
find_in index path name = elim (lookup path index) [ none ↦ none | some d ↦ lookup name d ]

-- `_enclosing_symbol`: the first of those with the smallest range.
abbrev pub encloses : ℕ → Symbol → Bool
encloses line s = leb s.line_start line && leb line s.line_end

abbrev pub span : Symbol → ℕ
span s = s.line_end - s.line_start

abbrev pub innermost : ℕ → List Symbol → Option Symbol
innermost line [] = none
innermost line (s ∷ ss) =
    let rest = innermost line ss in
    if encloses line s
    then elim rest [ none ↦ some s | some t ↦ if ltb (span t) (span s) then some t else some s ]
    else rest

unfoldable pub enclosing_symbol : List Symbol → ℕ → Option String
enclosing_symbol ss line = elim (innermost line ss) [ none ↦ none | some s ↦ some s.fqname ]

-- `_from_imports`: an empty name does not count.
unfoldable pub from_imports : String → List String → FileIndex → Option String
from_imports name [] index = none
from_imports name (p ∷ ps) index =
    let rest = from_imports name ps index in
    elim (find_in index p name) [ none ↦ rest | some fq ↦ if fq == "" then rest else some fq ]

abbrev pub first : List String → Option String
first [] = none
first (x ∷ xs) = some x

-- A tier takes its candidate unless that is the caller itself.
abbrev pub tier : ℕ → String → Option String → List CallEdge → List CallEdge
tier confidence caller none rest = rest
tier confidence caller (some callee) rest =
    if callee == caller
    then rest
    else record { caller = caller; callee = callee; confidence = confidence } ∷ []

abbrev pub truthy : Option String → Option String
truthy none = none
truthy (some s) = if s == "" then none else some s

-- One call site, by the three tiers; no edge or one.
unfoldable pub resolve_call :
    FileIndex → (String → List String) → String → List String → String → String → List CallEdge
resolve_call index names path imported caller name =
    tier 1000 caller (truthy (find_in index path name))
      (tier 700 caller (from_imports name imported index) (tier 400 caller (first (names name)) []))

-- The languages whose calls are extracted.
abbrev pub call_langs : List String
call_langs = "python" ∷ "java" ∷ "typescript" ∷ "tsx" ∷ "javascript" ∷ []

null : {A : Type 0} → List A → Bool
null [] = true
null (x ∷ xs) = false

module _ (index : FileIndex) (names : String → List String) where
  -- The loop over the call sites of a file.
  pub resolve_sites : SourceFile → List String → List Call → List CallEdge
  resolve_sites f imported [] = []
  resolve_sites f imported (c ∷ cs) =
      let rest = resolve_sites f imported cs in
      elim (enclosing_symbol f.symbols c.line) [
        | none ↦ rest
        | some caller ↦ resolve_call index names f.path imported caller c.name ++ rest
      ]

  -- The body of the loop over the files; `all` are the files of the run.
  pub resolve_file : List SourceFile → SourceFile → List CallEdge
  unfolding null
  resolve_file all f =
      if f.parse_error || null f.symbols || not (contains f.lang call_langs)
      then []
      else elim f.calls [
        | none ↦ []
        | some sites ↦ resolve_sites f (import_files f.path f.imports (map (λ g. g.path) all)) sites
      ]

  pub resolve_files : List SourceFile → List SourceFile → List CallEdge
  unfolding resolve_file resolve_sites
  resolve_files all [] = []
  resolve_files all (f ∷ fs) = resolve_file all f ++ resolve_files all fs

unfoldable pub resolve_calls_with_source : List SourceFile → List CallEdge
unfolding resolve_files
resolve_calls_with_source files = resolve_files (file_index files []) (by_name files) files files
