-- ===== src/Lsp/Index.antt =====
-- features/lsp/resolver.py: the symbols of the files by their lines, `_build_sym_index` and `_enclosing`.
pub mod Ranges
use ai_forge_memory.Prelude.{
  ℕ, ◌+◌, String, Bool, ◌&&◌, ◌||◌, Option, none, some, List, [], ◌∷◌, ◌==◌, leb, ltb, eqb,
  if◌then◌else◌,
}
use ai_forge_memory.Prelude.Insertion.{place}
use ai_forge_memory.Prelude.Dict.{Dict, insert}

pub record Symbol : Type 0 where
  pub fqname : String
  pub kind : String
  pub line_start : ℕ
  pub line_end : ℕ

pub record SourceFile : Type 0 where
  pub path : String
  pub lang : String
  pub parse_error : Bool
  pub symbols : List Symbol

pub record SymRange : Type 0 where
  pub fqname : String
  pub file_path : String
  pub line_start : ℕ
  pub line_end : ℕ

abbrev pub is_target : String → Bool
is_target kind = kind == "method" || kind == "function"

-- The order of the sort key, the span and then the first line. A span may be negative.
abbrev pub is_before : SymRange → SymRange → Bool
is_before r s =
    let a = r.line_end + s.line_start in
    let b = s.line_end + r.line_start in ltb a b || eqb a b && ltb r.line_start s.line_start

abbrev pub is_caller : String → Bool
is_caller kind = is_target kind || kind == "class"

abbrev pub range_of : String → Symbol → SymRange
range_of path s = record {
  fqname = s.fqname;
  file_path = path;
  line_start = s.line_start;
  line_end = s.line_end;
}

-- The ranges of one file, sorted.
unfoldable pub sorted_ranges : String → List Symbol → List SymRange
sorted_ranges path [] = []
sorted_ranges path (s ∷ ss) =
    let rest = sorted_ranges path ss in
    if is_caller s.kind then place is_before (range_of path s) rest else rest

-- `_build_sym_index`
unfoldable pub build_sym_index : List SourceFile → Dict (List SymRange) → Dict (List SymRange)
build_sym_index [] out = out
build_sym_index (f ∷ fs) out =
    build_sym_index fs (insert f.path (sorted_ranges f.path f.symbols) out)

abbrev pub contains_line : ℕ → SymRange → Bool
contains_line line r = leb r.line_start line && leb line r.line_end

-- `_enclosing`
unfoldable pub enclosing : ℕ → List SymRange → Option SymRange
enclosing line [] = none
enclosing line (r ∷ rs) =
    let rest = enclosing line rs in if contains_line line r then some r else rest
