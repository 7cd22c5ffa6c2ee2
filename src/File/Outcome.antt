-- ===== src/File/Outcome.antt =====
-- features/file/extract.py: what the summary of a file can be.
use ai_forge_memory.Prelude.{
  ℕ, ◌≤◌, String, Bool, true, false, not, ◌&&◌, Option, none, some, List, [], ◌∷◌, ◌==◌, ◌≡◌, ◌≢◌,
  refl, ◌⊎◌, inl, inr, length, length-take, ltb, arith, text_cases, Bool-cases, if◌then◌else◌,
}
use ai_forge_memory.Prelude.Text.{Text, stripped}
use ai_forge_memory.Json.{Value, get, null, bool, nat, number, str, arr, obj}
use ai_forge_memory.File.{
  SourceFile, FileSummary, Content, Machine, both, text_of, tags_of, with_tags, parse_value, parse,
  skipped, of_parsed, second, retry, first, with_content, summarize_file, summarize_files,
}

-- Of that file: a summary with one tag to five, and no reason; or neither summary nor tags.
abbrev pub IsOutcome : SourceFile → FileSummary → Type 0
IsOutcome f s =
    (s.path ≡ f.path)
    × (((s.skipped_reason ≡ "")
          × (s.summary ≢ "")
          × (1 ≤ length s.purpose_tags)
          × (length s.purpose_tags ≤ 5))
        ⊎ ((s.summary ≡ "") × (s.purpose_tags ≡ [])))

-- What a parse gives has a summary and one tag to five.
abbrev IsFull : Option (String × List Text) → Type 0
IsFull none = Unit
IsFull (some (summary, tags)) = (summary ≢ "") × (1 ≤ length tags) × (length tags ≤ 5)

both-IsFull : (summary : String) (tags : List Text) → IsFull (both summary tags)
both-IsFull summary [] = tt
both-IsFull summary (t ∷ ts) = elim (text_cases summary "") [
  | inl e ↦ rw e tt
  | inr (f, n) ↦
      rw f (n, omega (arith, length-take 5 (t ∷ ts)), omega (arith, length-take 5 (t ∷ ts)))
]

with_tags-IsFull : (summary : String) (o : Option (List Text)) → IsFull (with_tags summary o)
with_tags-IsFull summary none = tt
with_tags-IsFull summary (some tags) = both-IsFull summary tags

parse-IsFull : (m : Machine) (raw : String) → IsFull (parse m raw)
unfolding parse
parse-IsFull m raw = by_value (m.loads raw)
  where
    by_value : (o : Option Value) → IsFull (parse_value m o)
    by_value none = tt
    by_value (some (obj fs)) =
        with_tags-IsFull (stripped (text_of m (get "summary" fs)))
          (tags_of m (get "purpose_tags" fs))
    by_value (some null) = tt
    by_value (some (bool b)) = tt
    by_value (some (nat n)) = tt
    by_value (some (number s)) = tt
    by_value (some (str s)) = tt
    by_value (some (arr vs)) = tt

of_parsed-IsOutcome :
    (f : SourceFile) (o : Option (String × List Text)) → IsFull o → IsOutcome f (of_parsed f o)
of_parsed-IsOutcome f none h = (refl, inr (refl, refl))
of_parsed-IsOutcome f (some (summary, tags)) (n, a, b) = (refl, inl (refl, n, a, b))

second-IsOutcome : (m : Machine) (f : SourceFile) (o : Option String) → IsOutcome f (second m f o)
second-IsOutcome m f none = (refl, inr (refl, refl))
second-IsOutcome m f (some raw) = of_parsed-IsOutcome f (parse m raw) (parse-IsFull m raw)

retry-IsOutcome :
    (m : Machine) (f : SourceFile) (text : String) (o : Option (String × List Text))
    → IsFull o
    → IsOutcome f (retry m f text o)
retry-IsOutcome m f text none h = second-IsOutcome m f (m.complete true f text)
retry-IsOutcome m f text (some p) h = of_parsed-IsOutcome f (some p) h

first-IsOutcome :
    (m : Machine) (f : SourceFile) (text : String) (o : Option String)
    → IsOutcome f (first m f text o)
first-IsOutcome m f text none = (refl, inr (refl, refl))
first-IsOutcome m f text (some raw) = retry-IsOutcome m f text (parse m raw) (parse-IsFull m raw)

with_content-IsOutcome :
    (m : Machine) (max_file_bytes : ℕ) (f : SourceFile) (o : Option Content)
    → IsOutcome f (with_content m max_file_bytes f o)
with_content-IsOutcome m max_file_bytes f none = (refl, inr (refl, refl))
with_content-IsOutcome m max_file_bytes f (some c) =
    elim (Bool-cases (ltb max_file_bytes c.bytes)) [
      | inl t ↦ rw t (refl, inr (refl, refl))
      | inr e ↦ rw e (first-IsOutcome m f c.text (m.complete false f c.text))
    ]

summarize_file-IsOutcome :
    (m : Machine) (max_file_bytes : ℕ) (f : SourceFile)
    → IsOutcome f (summarize_file m max_file_bytes f)
unfolding summarize_file
summarize_file-IsOutcome m max_file_bytes f =
    by_tests f.parse_error (not f.has_symbols && f.lang == "other")
  where
    by_tests :
        (b c : Bool)
        → IsOutcome f (
            if b
            then skipped f "parse_error"
            else if c
            then skipped f "no_symbols"
            else with_content m max_file_bytes f (m.read f.path))
    by_tests true c = (refl, inr (refl, refl))
    by_tests false true = (refl, inr (refl, refl))
    by_tests false false = with_content-IsOutcome m max_file_bytes f (m.read f.path)

-- The summaries are those of the files, in their order.
abbrev pub AreOutcomes : List SourceFile → List FileSummary → Type 0
AreOutcomes [] [] = Unit
AreOutcomes [] (s ∷ ss) = ⊥
AreOutcomes (f ∷ fs) [] = ⊥
AreOutcomes (f ∷ fs) (s ∷ ss) = IsOutcome f s × AreOutcomes fs ss

pub summarize_files-AreOutcomes :
    (m : Machine) (max_file_bytes : ℕ) (fs : List SourceFile)
    → AreOutcomes fs (summarize_files m max_file_bytes fs)
unfolding summarize_files
summarize_files-AreOutcomes m max_file_bytes [] = tt
summarize_files-AreOutcomes m max_file_bytes (f ∷ fs) =
    (summarize_file-IsOutcome m max_file_bytes f, summarize_files-AreOutcomes m max_file_bytes fs)
