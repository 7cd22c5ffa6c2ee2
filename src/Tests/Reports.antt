-- ===== src/Tests/Reports.antt =====
-- The extraction of services and the evaluation at concrete inputs.
use ai_forge_memory.Prelude.{
  String, true, none, some, List, [], ◌∷◌, ◌==◌, ◌≡◌, ◌↔◌, inl, refl, arith,
}
use ai_forge_memory.Prelude.Insertion.{sorted_by}
use ai_forge_memory.Json.{Value, no_element, element, Pairs, no_pair, pair, str, arr, obj}
use ai_forge_memory.Service.{
  ServiceDraft, Llm, absent, value, Repository, put_drafts, validate_files, parse, drafts_of, ask,
  extract_services, merge_overrides, manual_of,
}
use ai_forge_memory.Service.Grounded.{
  HaveFiles, find, AreDistinct, last, or_else, extract_services-HaveFiles, merge_overrides_lem,
}
use ai_forge_memory.Query.{replied}
use ai_forge_memory.Query.Bundle.{ContextBundle, empty_bundle}
use ai_forge_memory.Eval.{Probe, run_probe}
use ai_forge_memory.Eval.Report.{p50, p95, EvalReport, run_eval}
use ai_forge_memory.Eval.Ranks.{Hits, HitsSymbol, Returns, run_probe_iff}
use ai_forge_memory.Eval.Order.{IsOrdered, run_eval-IsOrdered}

abbrev text : Value → String
text v = elim v [ str s ↦ s | other ↦ "" ]

abbrev entry : String → String → Value
entry name file =
    obj (pair "name" (str name) (pair "files" (arr (element (str file) no_element)) no_pair))

-- A repository of one file.
abbrev repository : Repository
repository = record {
  str = text;
  glob = λ p. some [];
  is_below = λ f. true;
  is_file = λ f. f == "api.py";
}

abbrev llm : Llm
llm = record {
  answer = λ strict. some "answer";
  loads = λ raw.
      some (obj (pair "services" (arr (element (entry "api" "made_up.py") no_element)) no_pair));
}

abbrev draft : String → List String → String → ServiceDraft
draft name files source = record {
  name = name;
  description = "";
  role = "";
  tech_stack = [];
  port = none;
  files = files;
  source = source;
}

extract_services-HaveFiles_example : HaveFiles repository (draft "api" [] "llm" ∷ [])
unfolding extract_services ask parse drafts_of merge_overrides validate_files
extract_services-HaveFiles_example = extract_services-HaveFiles repository llm absent refl

abbrev drafts : List ServiceDraft
drafts = draft "api" ("made_up.py" ∷ []) "llm" ∷ draft "web" [] "llm" ∷ []

abbrev manual : List ServiceDraft
manual = draft "api" ("api.py" ∷ []) "manual" ∷ []

abbrev services : Pairs
services = pair "services" (arr (element (entry "api" "api.py") no_element)) no_pair

merge_overrides_lem_example :
    let out = put_drafts manual (put_drafts drafts []) in
    (merge_overrides repository (value (obj services)) drafts ≡ some out)
    × (find "api" out ≡ or_else (last "api" manual) (last "api" drafts))
    × AreDistinct out
unfolding manual_of
merge_overrides_lem_example =
    merge_overrides_lem repository services (element (entry "api" "api.py") no_element) drafts
      manual "api" refl refl

abbrev probe : Probe
probe = record {
  query = "where is the API";
  expected_files = "api.py" ∷ [];
  expected_symbols = "api::run" ∷ [];
}

abbrev bundle : ContextBundle
bundle = record (empty_bundle "api") {
  files =
      record { path = "web.py"; summary = ""; score = "1.0" }
      ∷ record { path = "api.py"; summary = ""; score = "0.5" }
      ∷ [];
}

run_probe_iff_example :
    let r = run_probe (λ q. replied bundle) 30 probe in
    ((r.hit_at_1 ≡ true) ↔ Hits 1 ("api.py" ∷ []) r.returned_files)
    × ((r.hit_at_5 ≡ true) ↔ Hits 5 ("api.py" ∷ []) r.returned_files)
    × ((r.hit_at_10 ≡ true) ↔ Hits 10 ("api.py" ∷ []) r.returned_files)
    × ((r.sym_hit_at_5 ≡ true) ↔ HitsSymbol 5 ("api::run" ∷ []) r.returned_symbols)
    × Returns (replied bundle) r
run_probe_iff_example = run_probe_iff (λ q. replied bundle) 30 probe

run_eval-IsOrdered_example :
    (r : EvalReport) × (run_eval (λ repo q. replied bundle) (λ i. 30) "api" "" (probe ∷ [])
      ≡ some r)
    × IsOrdered 1 r
run_eval-IsOrdered_example =
    run_eval-IsOrdered (λ repo q. replied bundle) (λ i. 30) "api" "" (probe ∷ []) (omega arith)
      (inl λ e. cc)

-- With two probes the upper percentile is the smaller latency.
percentiles_of_two : (p50 (10 ∷ 30 ∷ []) ≡ 30) × (p95 (10 ∷ 30 ∷ []) ≡ 10)
unfolding p50 p95 sorted_by
percentiles_of_two = (refl, refl)

percentiles_of_three : (p50 (30 ∷ 10 ∷ 20 ∷ []) ≡ 20) × (p95 (30 ∷ 10 ∷ 20 ∷ []) ≡ 20)
unfolding p50 p95 sorted_by
percentiles_of_three = (refl, refl)
