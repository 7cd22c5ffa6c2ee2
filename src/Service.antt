-- ===== src/Service.antt =====
-- features/service/extract.py: `extract_services` and its helpers. The model, `json.loads`, YAML, the
-- glob and the files of the repository are parameters, and so is `str`. An exception is `none`.
pub mod Grounded
use ai_forge_memory.Prelude.{
  ℕ, ◌+◌, String, Bool, true, false, ◌&&◌, Option, none, some, List, [], ◌∷◌, ◌++◌, ◌==◌, map, keep,
  if◌then◌else◌,
}
use mathlib.Core.Option
use ai_forge_memory.Json.{Value, bool, nat, arr, obj, Pairs, get, is_true, list_of, each_of}
use ai_forge_memory.Prelude.Sort.{contains}

pub record ServiceDraft : Type 0 where
  pub name : String
  pub description : String
  pub role : String
  pub tech_stack : List String
  pub port : Option ℕ
  pub files : List String
  pub source : String

-- `answer` is what the model says to the first prompt, and to the strict one, `none` where the call
-- raises; `loads` is the reading of an answer without its fences, `none` where it is no JSON.
pub record Llm : Type 0 where
  pub answer : Bool → Option String
  pub loads : String → Option Value

-- The operator's file: it is not there, it is no YAML, or a value.
pub data Override : Type 0 where
  absent invalid : Override
  value : Value → Override

-- `str` prints a value; `glob` gives the files of a pattern, relative to the root, `none` where it
-- raises; `is_below` and `is_file` test a path from the root, once it is resolved.
pub record Repository : Type 0 where
  pub str : Value → String
  pub glob : String → Option (List String)
  pub is_below : String → Bool
  pub is_file : String → Bool

abbrev pub or_bind {ℓ κ} : {A : Type ℓ} {B : Type κ} → Option A → (A → Option B) → Option B
or_bind none f = none
or_bind (some a) f = f a

-- `int(port) if isinstance(port, int) else None`, for ports that are not negative.
abbrev pub port_of : Option Value → Option ℕ
port_of none = none
port_of (some (nat n)) = some n
port_of (some (bool true)) = some 1
port_of (some (bool false)) = some 0
port_of (some other) = none

-- The name of an entry, if it is an object with a true one.
abbrev pub named : Value → Option (Pairs × Value)
named (obj fs) = or_bind (get "name" fs) (λ n. if is_true n then some (fs, n) else none)
named other = none

-- What `_parse` makes of an answer: `bad` where it returns None.
pub data Parsed : Type 0 where
  bad raising : Parsed
  parsed : List ServiceDraft → Parsed

abbrev pub or_raise : Option (List ServiceDraft) → Parsed
or_raise none = raising
or_raise (some ds) = parsed ds

abbrev pub raising_or_bad : Parsed → Option (List ServiceDraft)
raising_or_bad (parsed ds) = some ds
raising_or_bad other = none

-- The files of the patterns, each once, after those that are listed.
abbrev pub add_new : List String → List String → List String
add_new files [] = files
add_new files (f ∷ fs) = add_new (if contains f files then files else files ++ f ∷ []) fs

abbrev pub patterns : Value → List Value
patterns (arr vs) = list_of vs
patterns v = v ∷ []

-- `by_name[name] = d`, in a dict that keeps the place of a known name.
abbrev pub put_draft : ServiceDraft → List ServiceDraft → List ServiceDraft
put_draft d [] = d ∷ []
put_draft d (e ∷ es) = let rest = put_draft d es in if e.name == d.name then d ∷ es else e ∷ rest

abbrev pub put_drafts : List ServiceDraft → List ServiceDraft → List ServiceDraft
put_drafts [] by_name = by_name
put_drafts (d ∷ ds) by_name = put_drafts ds (put_draft d by_name)

module _ (r : Repository) where
  -- `str(d.get(k, ""))`
  abbrev pub text_of : Option Value → String
  text_of none = ""
  text_of (some v) = r.str v

  -- `[str(x) for x in (d.get(k) or [])]`
  abbrev pub texts_of : Option Value → Option (List String)
  texts_of v = Option.map (map r.str) (each_of v)

  abbrev pub draft :
      Pairs → Value → String → Option (List String) → Option (List String) → Option ServiceDraft
  draft fs name source none files = none
  draft fs name source (some tech) none = none
  draft fs name source (some tech) (some files) = some (record {
    name = r.str name;
    description = text_of (get "description" fs);
    role = text_of (get "role" fs);
    tech_stack = tech;
    port = port_of (get "port" fs);
    files = files;
    source = source;
  })

  abbrev pub draft_of : Pairs × Value → Option ServiceDraft
  draft_of (fs, name) =
      draft fs name "llm" (texts_of (get "tech_stack" fs)) (texts_of (get "files" fs))

  -- The loop of `_parse`.
  unfoldable pub drafts_of : List Value → Option (List ServiceDraft)
  drafts_of [] = some []
  drafts_of (v ∷ vs) =
      let rest = drafts_of vs in
      elim (named v) [
        | none ↦ rest
        | some entry ↦ or_bind (draft_of entry) (λ d. Option.map (λ ds. d ∷ ds) rest)
      ]

  abbrev pub parse_services : Value → Parsed
  parse_services (arr vs) = or_raise (drafts_of (list_of vs))
  parse_services v = if is_true v then bad else parsed []

  -- `_parse`
  unfoldable pub parse : Option Value → Parsed
  parse none = bad
  parse (some (obj fs)) = elim (get "services" fs) [ none ↦ parsed [] | some v ↦ parse_services v ]
  parse (some other) = bad

  abbrev pub retry : Llm → Parsed → Option (List ServiceDraft)
  retry llm (parsed ds) = some ds
  retry llm raising = none
  retry llm bad = or_bind (llm.answer true) (λ raw. raising_or_bad (parse (llm.loads raw)))

  -- The two calls of the model; a second answer that is no JSON raises `ServiceExtractError`.
  unfoldable pub ask : Llm → Option (List ServiceDraft)
  ask llm = or_bind (llm.answer false) (λ raw. retry llm (parse (llm.loads raw)))

  abbrev pub add_globs : List String → List Value → Option (List String)
  add_globs files [] = some files
  add_globs files (p ∷ ps) =
      or_bind (r.glob (r.str p)) (λ found. add_globs (add_new files found) ps)

  abbrev pub globbed : Option Value → List String → Option (List String)
  globbed none files = some files
  globbed (some g) files = if is_true g then add_globs files (patterns g) else some files

  -- One operator's entry as a draft.
  unfoldable pub manual_of : Pairs × Value → Option ServiceDraft
  manual_of (fs, name) =
      draft fs name "manual" (texts_of (get "tech_stack" fs))
        (or_bind (texts_of (get "files" fs)) (globbed (get "file_glob" fs)))

  -- The loop over the operator's entries.
  unfoldable pub override : List Value → List ServiceDraft → Option (List ServiceDraft)
  override [] by_name = some by_name
  override (v ∷ vs) by_name = elim (named v) [
    | none ↦ override vs by_name
    | some entry ↦ or_bind (manual_of entry) (λ d. override vs (put_draft d by_name))
  ]

  abbrev pub with_entries : Value → List ServiceDraft → Option (List ServiceDraft)
  with_entries (arr vs) drafts = override (list_of vs) (put_drafts drafts [])
  with_entries v drafts = if is_true v then some drafts else some (put_drafts drafts [])

  abbrev pub with_services : Option Value → List ServiceDraft → Option (List ServiceDraft)
  with_services none drafts = some (put_drafts drafts [])
  with_services (some v) drafts = with_entries v drafts

  -- `data = yaml.safe_load(…) or {}`
  abbrev pub with_data : Value → List ServiceDraft → Option (List ServiceDraft)
  with_data (obj fs) drafts = with_services (get "services" fs) drafts
  with_data v drafts = if is_true v then none else some (put_drafts drafts [])

  -- `_merge_overrides`
  unfoldable pub merge_overrides : Override → List ServiceDraft → Option (List ServiceDraft)
  merge_overrides absent drafts = some drafts
  merge_overrides invalid drafts = some drafts
  merge_overrides (value v) drafts = with_data v drafts

  -- `_validate_files`
  unfoldable pub validate_files : List ServiceDraft → List ServiceDraft
  validate_files [] = []
  validate_files (d ∷ ds) =
      record d { files = keep (λ f. r.is_below f && r.is_file f) d.files } ∷ validate_files ds

  unfoldable pub extract_services : Llm → Override → Option (List ServiceDraft)
  extract_services llm file =
      or_bind (ask llm) (λ drafts. Option.map validate_files (merge_overrides file drafts))
