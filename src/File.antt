-- ===== src/File.antt =====
-- features/file/extract.py: `summarize_files` and `_parse`. The file system, the model and the reading
-- of its answer as JSON are parameters.
pub mod Outcome
pub mod Store
use ai_forge_memory.Prelude.{
  ℕ, String, Bool, true, false, not, ◌&&◌, Option, none, some, List, [], ◌∷◌, ◌==◌, take, ltb,
  if◌then◌else◌,
}
use ai_forge_memory.Prelude.Text.{Text, codes, lower, stripped}
use ai_forge_memory.Json.{Value, arr, obj, get, is_true, list_of}

pub record SourceFile : Type 0 where
  pub path : String
  pub lang : String
  pub parse_error : Bool
  pub has_symbols : Bool

pub record FileSummary : Type 0 where
  pub path : String
  pub summary : String
  pub purpose_tags : List Text
  pub skipped_reason : String

-- The size of a file, and its text.
pub record Content : Type 0 where
  pub bytes : ℕ
  pub text : String

-- `read` is `none` where it raises OSError. `complete` takes the strict prompt or the usual one, and is
-- `none` where the call raises. `loads` is the reading of an answer without its fences, `none` where
-- it is no JSON; `str` prints a value.
pub record Machine : Type 0 where
  pub read : String → Option Content
  pub complete : Bool → SourceFile → String → Option String
  pub loads : String → Option Value
  pub str : Value → String

abbrev pub clean_tags : Machine → List Value → List Text
clean_tags m [] = []
clean_tags m (v ∷ vs) =
    let t = stripped (m.str v) in
    if t == "" then clean_tags m vs else lower (codes t) ∷ clean_tags m vs

-- Nothing where the summary is empty or no tag is left.
abbrev pub both : String → List Text → Option (String × List Text)
both summary [] = none
both summary (t ∷ ts) = if summary == "" then none else some (summary, take 5 (t ∷ ts))

abbrev pub text_of : Machine → Option Value → String
text_of m none = ""
text_of m (some v) = m.str v

abbrev pub tags_of : Machine → Option Value → Option (List Text)
tags_of m none = some []
tags_of m (some (arr vs)) = some (clean_tags m (list_of vs))
tags_of m (some v) = if is_true v then none else some []

abbrev pub with_tags : String → Option (List Text) → Option (String × List Text)
with_tags summary none = none
with_tags summary (some ts) = both summary ts

abbrev pub parse_value : Machine → Option Value → Option (String × List Text)
parse_value m (some (obj fs)) =
    with_tags (stripped (text_of m (get "summary" fs))) (tags_of m (get "purpose_tags" fs))
parse_value m other = none

-- `_parse`
unfoldable pub parse : Machine → String → Option (String × List Text)
parse m raw = parse_value m (m.loads raw)

abbrev pub skipped : SourceFile → String → FileSummary
skipped f reason = record {
  path = f.path;
  summary = "";
  purpose_tags = [];
  skipped_reason = reason;
}

abbrev pub of_parsed : SourceFile → Option (String × List Text) → FileSummary
of_parsed f none = skipped f ""
of_parsed f (some (summary, tags)) = record {
  path = f.path;
  summary = summary;
  purpose_tags = tags;
  skipped_reason = "";
}

abbrev pub second : Machine → SourceFile → Option String → FileSummary
second m f none = skipped f "llm_error"
second m f (some raw) = of_parsed f (parse m raw)

abbrev pub retry : Machine → SourceFile → String → Option (String × List Text) → FileSummary
retry m f text none = second m f (m.complete true f text)
retry m f text (some p) = of_parsed f (some p)

abbrev pub first : Machine → SourceFile → String → Option String → FileSummary
first m f text none = skipped f "llm_error"
first m f text (some raw) = retry m f text (parse m raw)

abbrev pub with_content : Machine → ℕ → SourceFile → Option Content → FileSummary
with_content m max_file_bytes f none = skipped f "io_error"
with_content m max_file_bytes f (some c) =
    if ltb max_file_bytes c.bytes
    then skipped f "too_large"
    else first m f c.text (m.complete false f c.text)

-- One round of the loop.
unfoldable pub summarize_file : Machine → ℕ → SourceFile → FileSummary
summarize_file m max_file_bytes f =
    if f.parse_error
    then skipped f "parse_error"
    else if not f.has_symbols && f.lang == "other"
    then skipped f "no_symbols"
    else with_content m max_file_bytes f (m.read f.path)

unfoldable pub summarize_files : Machine → ℕ → List SourceFile → List FileSummary
summarize_files m max_file_bytes [] = []
summarize_files m max_file_bytes (f ∷ fs) =
    summarize_file m max_file_bytes f ∷ summarize_files m max_file_bytes fs
