-- ===== src/Query/Translate/Ground.antt =====
-- query/translator.py: `translate` from the candidates to the `Grounding`. The model, and the reading
-- of its answer as JSON, are parameters.
pub mod Grounded
use ai_forge_memory.Prelude.{
  ℕ, suc, ◌+◌, min, max, String, Bool, true, false, Option, none, some, List, [], ◌∷◌, ◌++◌, ◌==◌,
  if◌then◌else◌, keep, take,
}
use ai_forge_memory.Prelude.Dict.{Dict, lookup, insert, has}
use ai_forge_memory.Prelude.Sort.{contains}
use ai_forge_memory.Prelude.Text.{stripped, clip, ◌&◌}
use ai_forge_memory.Query.{Reply, replied, raised, failure, or_else}
use ai_forge_memory.Query.Translate.{Grounding, empty_grounding}
use ai_forge_memory.Query.Translate.Rank.{Floats, get_score}
use ai_forge_memory.Query.Translate.Candidates.{Tunables, Sources, Candidates, find_candidates}

-- An entry of `candidate_files`, and one of `candidate_symbols` (a bare name where the repository
-- has no summaries).
pub record FileItem : Type 0 where
  pub path : String
  pub summary : Option String
  pub score : Option String

pub data SymbolItem : Type 0 where
  bare : String → SymbolItem
  described : String → Option String → SymbolItem

pub record Payload : Type 0 where
  pub query : String
  pub services_catalog : List String
  pub candidate_files : List FileItem
  pub candidate_symbols : List SymbolItem

-- The fields of the JSON object that the model answers: what `int`, or the iteration over a field
-- that may be missing or null, gives of each. An item that is no text is in no catalog, and is left
-- out.
pub record Answer : Type 0 where
  pub intent : String
  pub hops : Reply ℕ
  pub keywords : Reply (List String)
  pub services : Reply (List String)
  pub files : Reply (List String)
  pub symbols : Reply (List String)

-- What `json.loads` gives.
pub data Json : Type 0 where
  object : Answer → Json
  empty_object : Json
  other : Json

-- `complete` posts the payload with the system prompt; `strip_fences` is the substitution by
-- `_FENCE_RE`; `loads` is `json.loads`.
pub record Llm : Type 0 where
  pub complete : Payload → Reply String
  pub strip_fences : String → String
  pub loads : String → Reply Json

-- An object with a field, if the text is one.
abbrev pub object_of : Reply Json → Option Answer
object_of (raised exc) = none
object_of (replied (object a)) = some a
object_of (replied empty_object) = none
object_of (replied other) = none

-- `_parse`, and the test of what it gives: an empty object counts as none.
unfoldable pub parse : Llm → String → Option Answer
parse llm raw = object_of (llm.loads (stripped (llm.strip_fences raw)))

-- `_file_summaries`
unfoldable pub file_summaries : Sources → List String → Reply (Dict String)
file_summaries db [] = replied []
file_summaries db (p ∷ paths) = db.summaries_of (p ∷ paths)

abbrev add_summaries : List (String × String) → Dict String → Dict String
add_summaries [] out = out
add_summaries ((f, d) ∷ rows) out =
    let text = stripped d in add_summaries rows (if text == "" then out else insert f text out)

-- `_symbol_summaries`: the summaries that are not blank.
unfoldable pub symbol_summaries : Sources → List String → Reply (Dict String)
symbol_summaries db [] = replied []
symbol_summaries db (fq ∷ fqnames) = elim (db.symbol_summaries_of (fq ∷ fqnames)) [
  | raised exc ↦ raised exc
  | replied rows ↦ replied (add_summaries rows [])
]

-- The first `n` characters of a summary that is there and not empty.
abbrev summary_of : Dict String → ℕ → String → Option String
summary_of summaries n name = elim (lookup name summaries) [
  | none ↦ none
  | some s ↦ if s == "" then none else some (clip n s)
]

abbrev file_items : Floats → Dict String → Dict String → List String → List FileItem
file_items fl summaries scores [] = []
file_items fl summaries scores (p ∷ paths) =
    record {
      path = p;
      summary = summary_of summaries 300 p;
      score = elim (lookup p scores) [ none ↦ none | some s ↦ some (fl.round s 3) ];
    }
    ∷ file_items fl summaries scores paths

abbrev described_items : Dict String → List String → List SymbolItem
described_items summaries [] = []
described_items summaries (fq ∷ fqnames) =
    described fq (summary_of summaries 240 fq) ∷ described_items summaries fqnames

abbrev bare_items : List String → List SymbolItem
bare_items [] = []
bare_items (fq ∷ fqnames) = bare fq ∷ bare_items fqnames

abbrev symbol_items : Dict String → List String → List SymbolItem
symbol_items [] fqnames = bare_items fqnames
symbol_items (s ∷ summaries) fqnames = described_items (s ∷ summaries) fqnames

-- What `_call_llm` sends.
unfoldable pub payload :
    Floats → String → List String → Candidates → Dict String → Dict String → Payload
payload fl text services c summaries symbol_summaries = record {
  query = text;
  services_catalog = services;
  candidate_files = file_items fl summaries c.scores c.files;
  candidate_symbols = symbol_items symbol_summaries c.symbols;
}

abbrev pub add_errors : List String → Grounding → Grounding
add_errors errors g = record g { errors = g.errors ++ errors }

-- `g.field = …`: an exception ends the answer, and what was written before stays.
abbrev pub take_field :
    {A : Type 0}
    → Reply A
    → (A → Grounding → Grounding)
    → (Grounding → Grounding)
    → Grounding
    → Grounding
take_field (raised exc) set next g = add_errors (("translator: " & exc) ∷ []) g
take_field (replied a) set next g = next (set a g)

abbrev pub only : List String → List String → List String
only known names = keep (λ x. contains x known) names

abbrev pub set_hops : ℕ → Grounding → Grounding
set_hops n g = record g { hops = max 1 (min n 2) }

abbrev pub set_keywords : List String → Grounding → Grounding
set_keywords ks g = record g { keywords = ks }

abbrev pub set_services : List String → List String → Grounding → Grounding
set_services known names g = record g { services = only known names }

abbrev pub set_files : List String → List String → Grounding → Grounding
set_files known names g = record g { files = only known names }

abbrev pub set_symbols : List String → List String → Grounding → Grounding
set_symbols known names g = record g { symbols = only known names }

-- The answer's fields in order: names that are in no catalog are dropped.
unfoldable pub read_answer : List String → Candidates → Answer → Grounding → Grounding
read_answer services c answer g =
    take_field answer.hops set_hops
      (take_field answer.keywords set_keywords (
        take_field answer.services (set_services services) (
          take_field answer.files (set_files c.files)
            (take_field answer.symbols (set_symbols c.symbols) (λ g. g)))))
      (record g { intent = answer.intent })

unfoldable pub ask : Llm → List String → Candidates → Payload → Grounding → Grounding
ask llm services c sent g = elim (llm.complete sent) [
  | raised exc ↦ add_errors (("translator: " & exc) ∷ []) g
  | replied raw ↦ elim (parse llm raw) [
    | none ↦ add_errors ("translator: invalid JSON" ∷ []) g
    | some answer ↦ read_answer services c answer g
  ]
]

-- The first candidates, where the answer names nothing.
abbrev pub fall_back : List String → List String → List String → Candidates → Grounding → Grounding
fall_back [] [] [] c g = record g { files = take 5 c.files; symbols = take 5 c.symbols }
fall_back [] [] (s ∷ ss) c g = g
fall_back [] (f ∷ fs) ss c g = g
fall_back (s ∷ ss) fs ss' c g = g

abbrev file_scores : Floats → Dict String → List String → Dict String → Dict String
file_scores fl scores [] out = out
file_scores fl scores (p ∷ paths) out =
    file_scores fl scores paths (insert p (fl.round (get_score scores p) 4) out)

-- The rank of a candidate: the last one, of a name that stands twice.
abbrev ranks : ℕ → List String → Dict ℕ → Dict ℕ
ranks i [] out = out
ranks i (fq ∷ fqnames) out = ranks (suc i) fqnames (insert fq i out)

abbrev symbol_scores : Floats → Dict ℕ → List String → Dict String → Dict String
symbol_scores fl rank [] out = out
symbol_scores fl rank (fq ∷ fqnames) out = symbol_scores fl rank fqnames (elim (lookup fq rank) [
  | none ↦ out
  | some i ↦ insert fq (fl.round (fl.inverse (i + 1)) 4) out
])

unfoldable pub add_scores : Floats → Candidates → Grounding → Grounding
add_scores fl c g = record g {
  file_scores = file_scores fl c.scores g.files [];
  symbol_scores = symbol_scores fl (ranks 0 c.symbols []) g.symbols [];
}

-- The answer of the model for the candidates, with the service catalog at hand.
unfoldable pub ground : Floats → Sources → Llm → String → List String → Candidates → Grounding
ground fl db llm text services c =
    let summaries = file_summaries db c.files in
    let described = symbol_summaries db c.symbols in
    let sent = payload fl text services c (or_else [] summaries) (or_else [] described) in
    let start = record empty_grounding {
      used_top_k = c.used;
      errors = c.errors ++ failure "summaries" summaries ++ failure "sym_summaries" described;
    } in
    let g = ask llm services c sent start in
    add_scores fl c (fall_back g.services g.files g.symbols c g)

-- `translate` once the service catalog is read: that read is not guarded.
abbrev pub with_catalog :
    Floats → Sources → Llm → Tunables → ℕ → String → Reply (List String) → Reply Grounding
with_catalog fl db llm env top_k text (raised exc) = raised exc
with_catalog fl db llm env top_k text (replied names) =
    replied (ground fl db llm text names (find_candidates fl db env top_k text))

unfoldable pub translate : Floats → Sources → Llm → Tunables → ℕ → String → Reply Grounding
translate fl db llm env top_k text =
    if stripped text == ""
    then replied empty_grounding
    else with_catalog fl db llm env top_k text db.service_names
