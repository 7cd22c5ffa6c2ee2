-- ===== src/Symbol/Summarise/Answer.antt =====
-- features/symbol/summarise.py: one symbol, from its lines to its summary: `_slice_body`, `_call_llm`,
-- `_parse` and `_process_one`. The requests, `json.loads` and the matches of the two regular
-- expressions are parameters; the text of the prompt is left out.
use ai_forge_memory.Prelude.{
  ℕ, zero, suc, ◌+◌, ◌-◌, String, Bool, true, false, Option, none, some, List, [], ◌∷◌, ◌++◌,
  length, take, drop, ltb, leb, eqb, if◌then◌else◌,
}
use mathlib.Core.Option
use ai_forge_memory.Prelude.Text.{Text, codes, strip}
use ai_forge_memory.Chunk.Split.{join_lines}
use ai_forge_memory.Symbol.Summarise.Candidates.{Candidate}

pub record Settings : Type 0 where
  pub head_lines : ℕ
  pub tail_lines : ℕ
  pub retry_max : ℕ

pub record SymbolSummary : Type 0 where
  pub fqname : String
  pub summary : Text
  pub skipped_reason : String

abbrev truncated : Text
truncated = codes "    // … truncated …"

-- `lines[-n:]`, which is the whole list for `n = 0`.
abbrev pub last_lines : ℕ → List Text → List Text
last_lines n ls = if eqb n 0 then ls else drop (length ls - n) ls

abbrev pub shorten : Settings → List Text → List Text
shorten z span =
    if ltb (z.head_lines + z.tail_lines) (length span)
    then take z.head_lines span ++ truncated ∷ last_lines z.tail_lines span
    else span

-- `_slice_body`
unfoldable pub slice_body : Settings → List Text → ℕ → ℕ → Text
slice_body z lines line_start line_end =
    let first = if ltb line_start 1 then 1 else line_start in
    let last = if ltb line_end first then first else line_end in
    join_lines (shorten z (drop (first - 1) (take last lines)))

pub record Message : Type 0 where
  pub content : Text
  pub reasoning_content : Text

-- The choices of an answer, an `HTTPStatusError`, or any other exception.
pub data Reply : Type 0 where
  answered : List Message → Reply
  refused failed : Reply

abbrev pub is_blank : Text → Bool
is_blank s = elim (strip s) [ [] ↦ true | c ∷ r ↦ false ]

abbrev pub content_of : List Message → Text
content_of [] = []
content_of (m ∷ ms) = if is_blank m.content then strip m.reasoning_content else strip m.content

-- The loop over the attempts of `_call_llm`, from attempt `k` on, with `n` left; `none` where it
-- raises.
unfoldable pub attempts : (ℕ → Reply) → ℕ → ℕ → ℕ → Option Text
attempts post retry_max zero k = none
attempts post retry_max (suc n) k =
    let again = attempts post retry_max n (suc k) in
    elim (post k) [
      | answered choices ↦ some (content_of choices)
      | refused ↦ none
      | failed ↦ if leb retry_max k then none else again
    ]

unfoldable pub call_llm : (ℕ → Reply) → ℕ → Option Text
call_llm post retry_max = attempts post retry_max (suc retry_max) 0

-- What `json.loads` gives: an object, with `str(obj.get("summary", ""))`, or another value.
pub data Json : Type 0 where
  object : Text → Json
  other : Json

-- `post` makes the request for a symbol and its body, given the number of the attempt; `extract` is
-- the group of `_SUMMARY_JSON_RE`, and `unescape` reads that group as a JSON text.
pub record Llm : Type 0 where
  pub post : Candidate → Text → ℕ → Reply
  pub strip_fences : Text → Text
  pub loads : Text → Option Json
  pub extract : Text → Option Text
  pub unescape : Text → Option Text

-- `s.find(c)`
abbrev pub find : ℕ → Text → Option ℕ
find c [] = none
find c (d ∷ s) = if eqb c d then some 0 else Option.map suc (find c s)

-- `s.rfind(c)`
abbrev pub rfind : ℕ → Text → Option ℕ
rfind c [] = none
rfind c (d ∷ s) = elim (rfind c s) [
  | some n ↦ some (suc n)
  | none ↦ if eqb c d then some 0 else none
]

-- The text from the first `{` to the last `}`, if that comes later.
abbrev pub between : Text → Option Text
between s = elim (find b'{' s) [
  | none ↦ none
  | some i ↦ elim (rfind b'}' s) [
    | none ↦ none
    | some j ↦ if ltb i j then some (take (j + 1 - i) (drop i s)) else none
  ]
]

abbrev pub summary_of : Option Json → Option Text
summary_of none = none
summary_of (some (object s)) = some (strip s)
summary_of (some other) = none

abbrev or_else : Option Text → Option Text → Option Text
or_else none b = b
or_else (some a) b = some a

abbrev extracted : Llm → Text → Option Text
extracted llm s = elim (llm.extract s) [
  | none ↦ none
  | some g ↦ or_else (llm.unescape g) (some (strip g))
]

-- `_parse`: the three strategies, in their order; `none` where all fail.
unfoldable pub parse : Llm → Text → Option Text
parse llm raw =
    let cleaned = strip (llm.strip_fences raw) in
    or_else (summary_of (llm.loads cleaned)) (
      or_else (elim (between cleaned) [ none ↦ none | some s ↦ summary_of (llm.loads s) ])
        (extracted llm cleaned))

abbrev skipped : Candidate → String → SymbolSummary
skipped c reason = record { fqname = c.sym.fqname; summary = []; skipped_reason = reason }

abbrev answer_of : Candidate → Option Text → SymbolSummary
answer_of c none = skipped c "llm_error"
answer_of c (some []) = skipped c "trivial"
answer_of c (some (x ∷ s)) = record { fqname = c.sym.fqname; summary = x ∷ s; skipped_reason = "" }

abbrev answered_with : Llm → Candidate → Option Text → SymbolSummary
answered_with llm c none = skipped c "llm_error"
answered_with llm c (some raw) = answer_of c (parse llm raw)

-- `_process_one`
unfoldable pub process_one : Settings → Llm → Candidate → SymbolSummary
process_one z llm c =
    let body = slice_body z c.content.lines c.sym.line_start c.sym.line_end in
    if is_blank body
    then skipped c "too_short"
    else answered_with llm c (call_llm (llm.post c body) z.retry_max)
