-- ===== src/Symbol/Calls/Imports.antt =====
-- features/symbol/extract_calls.py: `_resolve_imports_to_files`, from import texts to paths of the
-- repository.
use ai_forge_memory.Prelude.{
  String, ◌||◌, Option, none, some, List, [], ◌∷◌, ◌++◌, ◌==◌, eqb, if◌then◌else◌,
}
use Prim.Native.Char.{code}
use ai_forge_memory.Prelude.Text.{◌&◌, starts_with, is_in}
use ai_forge_memory.Prelude.Sort.{contains}

-- `imp.lstrip("./")`
abbrev strip_dots : String → String
strip_dots String.[] = ""
strip_dots (String.◌∷◌ c s) =
    if eqb (code c) b'.' || eqb (code c) b'/' then strip_dots s else String.◌∷◌ c s

-- `"/".join(imp.split("."))`
abbrev dots_to_slashes : String → String
dots_to_slashes String.[] = ""
dots_to_slashes (String.◌∷◌ c s) =
    if eqb (code c) b'.'
    then String.◌∷◌ "/" (dots_to_slashes s)
    else String.◌∷◌ c (dots_to_slashes s)

-- The text before the last `/`, if there is one.
abbrev before_slash : String → Option String
before_slash String.[] = none
before_slash (String.◌∷◌ c s) = elim (before_slash s) [
  | some r ↦ some (String.◌∷◌ c r)
  | none ↦ if eqb (code c) b'/' then some "" else none
]

-- `importer_path.rsplit("/", 1)[0]`, and the empty text where there is no directory.
unfoldable pub importer_dir : String → String
importer_dir path = elim (before_slash path) [ none ↦ "" | some d ↦ d ]

-- `_JAVA_PATH_PREFIXES`
abbrev pub java_path_prefixes : List String
java_path_prefixes =
    "src/main/java/" ∷ "src/test/java/" ∷ "src/main/kotlin/" ∷ "src/test/kotlin/" ∷ []

abbrev java_paths : String → List String → List String
java_paths joined [] = []
java_paths joined (p ∷ ps) = p & joined & ".java" ∷ p & joined & ".kt" ∷ java_paths joined ps

abbrev siblings : String → String → List String
siblings dir imp =
    if dir == ""
    then []
    else dir & "/" & imp & ".py"
      ∷ dir & "/" & imp & ".ts"
      ∷ dir & "/" & imp & ".tsx"
      ∷ dir & "/" & imp & "/__init__.py"
      ∷ []

-- `_import_candidates`
unfoldable pub import_candidates : String → String → List String
import_candidates dir imp =
    if starts_with "./" imp || starts_with "../" imp
    then (let base = (if dir == "" then "" else dir & "/") & strip_dots imp in
        base & ".ts" ∷ base & ".tsx" ∷ base & "/index.ts" ∷ [])
    else if is_in "." imp
    then (let joined = dots_to_slashes imp in
        joined & ".py"
        ∷ joined & "/__init__.py"
        ∷ joined & ".java"
        ∷ joined & ".kt"
        ∷ java_paths joined java_path_prefixes)
    else siblings dir imp ++ imp & ".py" ∷ imp & ".java" ∷ imp & ".ts" ∷ []

-- The first candidate that is a file of the run.
abbrev pub first_known : List String → List String → List String
first_known [] paths = []
first_known (c ∷ cs) paths =
    let rest = first_known cs paths in if contains c paths then c ∷ [] else rest

-- `_resolve_imports_to_files`
unfoldable pub import_files : String → List String → List String → List String
import_files path [] paths = []
import_files path (i ∷ is) paths =
    first_known (import_candidates (importer_dir path) i) paths ++ import_files path is paths
