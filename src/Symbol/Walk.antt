-- ===== src/Symbol/Walk.antt =====
-- features/symbol/extract.py: which files the walk takes, and in which language. The parse by
-- tree-sitter is left out, but for whether it raises.
pub mod Agreement
use ai_forge_memory.Prelude.{
  ℕ, String, Bool, true, false, not, ◌||◌, ◌&&◌, Option, none, some, is_some, List, [], ◌∷◌, ◌++◌,
  if◌then◌else◌,
}
use ai_forge_memory.Prelude.Sort.{contains}
use ai_forge_memory.Prelude.Dict.{Dict, lookup, insert, has}

-- `_EXT_LANG`
abbrev pub ext_lang : Dict String
ext_lang =
    (".py", "python")
    ∷ (".java", "java")
    ∷ (".ts", "typescript")
    ∷ (".tsx", "tsx")
    ∷ (".js", "javascript")
    ∷ (".jsx", "tsx")
    ∷ (".mjs", "javascript")
    ∷ (".cjs", "javascript")
    ∷ []

-- `_DOC_EXT`
abbrev pub doc_ext : Dict String
doc_ext = (".md", "doc-md") ∷ (".rst", "doc-rst") ∷ (".adoc", "doc-adoc") ∷ (".txt", "doc-txt") ∷ []

-- `_MANIFEST_NAMES`
abbrev pub manifest_names : List String
manifest_names =
    "pom.xml" ∷ "build.gradle" ∷ "build.gradle.kts" ∷ "settings.gradle" ∷ "settings.gradle.kts"
    ∷ "package.json" ∷ "package-lock.json" ∷ "pyproject.toml" ∷ "requirements.txt" ∷ "setup.py"
    ∷ "setup.cfg" ∷ "cargo.toml" ∷ "go.mod" ∷ "go.sum" ∷ "dockerfile" ∷ "docker-compose.yml"
    ∷ "docker-compose.yaml" ∷ "makefile" ∷ ".env.example" ∷ []

-- `_SKIP_DIRS`
abbrev pub skip_dirs : List String
skip_dirs =
    ".git" ∷ ".venv" ∷ "venv" ∷ "node_modules" ∷ "target" ∷ "build" ∷ "dist" ∷ "__pycache__"
    ∷ ".pytest_cache" ∷ ".mypy_cache" ∷ ".ruff_cache" ∷ ".idea" ∷ ".vscode" ∷ ".DS_Store"
    ∷ ".aiforge" ∷ ".aiforge-worktrees" ∷ "graphify-out" ∷ []

-- What `rglob("*")` meets: the path below the root and its parts, the name and the suffix in lower
-- case, whether it is a file, the SHA-256 and the number of lines of its bytes (`none` where they
-- cannot be read), and whether the parser takes it.
pub record FileEntry : Type 0 where
  pub path : String
  pub parts : List String
  pub name : String
  pub suffix : String
  pub is_file : Bool
  pub content : Option (String × ℕ)
  pub parses : Bool

pub record WalkedFile : Type 0 where
  pub path : String
  pub hash : String
  pub lang : String
  pub lines : ℕ
  pub parse_error : Bool

unfoldable pub is_skipped : String → Bool
is_skipped part = contains part skip_dirs

unfoldable pub is_manifest : String → Bool
is_manifest name = contains name manifest_names

unfoldable pub code_lang : String → Option String
code_lang suffix = lookup suffix ext_lang

unfoldable pub doc_lang : String → Option String
doc_lang suffix = lookup suffix doc_ext

abbrev pub or_else : Option String → Option String → Option String
or_else none b = b
or_else (some a) b = some a

unfoldable pub lang_for : FileEntry → Option String
lang_for e =
    if is_manifest e.name
    then some "doc-manifest"
    else or_else (code_lang e.suffix) (doc_lang e.suffix)

abbrev pub meets_skip : List String → Bool
meets_skip [] = false
meets_skip (p ∷ ps) = is_skipped p || meets_skip ps

-- The test of `_iter_source_files`. It looks at the parts of the whole path, those of the root too.
abbrev pub is_source : List String → FileEntry → Bool
is_source root e =
    not (meets_skip (root ++ e.parts))
    && e.is_file
    && (is_some (code_lang e.suffix) || is_some (doc_lang e.suffix) || is_manifest e.name)

abbrev lang_or_other : Option String → String
lang_or_other none = "other"
lang_or_other (some l) = l

abbrev walked : FileEntry → String × ℕ → WalkedFile
walked e (sha, lines) = record {
  path = e.path;
  hash = sha;
  lang = lang_or_other (lang_for e);
  lines = lines;
  parse_error = is_some (code_lang e.suffix) && not e.parses;
}

-- `walk_repo`: the root's own parts, the paths that git ignores, and the files in the order met.
unfoldable pub walk_repo : List String → List String → List FileEntry → List WalkedFile
unfolding lang_for
walk_repo root ignored [] = []
walk_repo root ignored (e ∷ es) =
    let rest = walk_repo root ignored es in
    if is_source root e && not (contains e.path ignored)
    then elim e.content [ none ↦ rest | some c ↦ walked e c ∷ rest ]
    else rest

-- `_hash_repo` of features/delta/extract.py, which takes the parts below the root alone, and does
-- not ask git what it ignores; `out` is the dict so far.
unfoldable pub hash_repo : List FileEntry → Dict String → Dict String
unfolding lang_for
hash_repo [] out = out
hash_repo (e ∷ es) out = hash_repo es (
    if e.is_file && not (meets_skip e.parts) && is_some (lang_for e)
    then elim e.content [ none ↦ out | some c ↦ insert e.path c.0 out ]
    else out)
