-- ===== src/Tests/Query.antt =====
-- The context bundle and the translator at concrete inputs.
use ai_forge_memory.Prelude.{ℕ, String, true, false, none, some, List, [], ◌∷◌, ◌≡◌, refl, length}
use ai_forge_memory.Prelude.Text.{codes, stripped, lower, ◌&◌}
use ai_forge_memory.Query.{Reply, replied, raised}
use ai_forge_memory.Query.Fastpath.{Searches}
use ai_forge_memory.Query.Translate.{Grounding, empty_grounding}
use ai_forge_memory.Query.Translate.Tokens.{tokenize_for_fulltext, expand_query, camel_split}
use ai_forge_memory.Query.Translate.Rank.{Floats}
use ai_forge_memory.Query.Translate.Candidates.{Tunables, Sources, find_candidates}
use ai_forge_memory.Query.Translate.Ground.{Json, Llm, ground, translate}
use ai_forge_memory.Query.Translate.Ground.Grounded.{IsGrounded, translate-IsGrounded}
use ai_forge_memory.Query.Bundle.{FileRow, SymbolRow, ContextBundle, empty_bundle}
use ai_forge_memory.Query.Bundle.Render.{render}
use ai_forge_memory.Query.Bundle.Anchors.{Reads}
use ai_forge_memory.Query.Bundle.Trim.{trim_to_budget}
use ai_forge_memory.Query.Bundle.Trim.Budget.{IsTrimmed, trim_to_budget-IsTrimmed}

-- `len(text)`, for a tokenizer.
abbrev count : String → Reply ℕ
count s = replied (length (codes s))

abbrev main_row : FileRow
main_row = record { path = "app/main.py"; summary = "starts the service"; score = "" }

abbrev run_row : SymbolRow
run_row = record {
  fqname = "app.main::run";
  signature = "def run(port)";
  summary = "";
  doc = "Start.";
  deprecated = false;
  params = replied ("port", "int") ∷ [];
  score = "";
}

abbrev full : ContextBundle
full = record (empty_bundle "api") {
  intent = "fix";
  files = main_row ∷ [];
  symbols = run_row ∷ [];
  callers = record { fqname = "app.cli::main"; anchor = "app.main::run" } ∷ [];
  decisions = record { title = "One port"; rationale = ""; status = "" } ∷ [];
}

trim_to_budget-IsTrimmed_example : IsTrimmed count 120 full (trim_to_budget count 120 full)
trim_to_budget-IsTrimmed_example = trim_to_budget-IsTrimmed count 120 full

rendered :
    render (record full { callers = []; decisions = [] })
    ≡ replied
        "## Intent\n- fix\n\n## Anchor files\n- `app/main.py` — starts the service\n\n## Symbols\n- `app.main::run` — `def run(port)` — Start. params: port:int"
unfolding render stripped
rendered = refl

-- A graph in which the read of the decisions raises.
abbrev reads : Reads
reads = record {
  services_named = λ ns. replied [];
  files_at = λ ps. replied (main_row ∷ []);
  symbols_named = λ ns. replied (run_row ∷ []);
  symbols_ending = λ s. replied [];
  callers_of = λ s. replied ("app.cli::main" ∷ []);
  callees_of = λ s. replied [];
  repo_docs = replied none;
  defined_at = λ ps. replied [];
  chunks_at = λ ps n. replied [];
  decisions_on = λ ps ss n. raised "down";
  observations_on = λ ps ss n. replied [];
  recall_ppr = λ v. replied [];
  nearest_observations = λ v. replied [];
  notes_on = λ ps ss n. replied [];
  docs_on = λ ps ss n. replied [];
  linked_repos = λ n. replied [];
}

abbrev searches : Searches
searches = record { ticket_re = λ t. none; file_re = λ t. none; symbol_re = λ t. none }

abbrev answer_grounding : Grounding
answer_grounding = record empty_grounding {
  intent = "fix";
  files = "app/main.py" ∷ [];
  symbols = "app.main::run" ∷ [];
}

-- Floats whose values the examples do not look at.
abbrev floats : Floats
floats = record {
  add = λ x y. x & y;
  inverse = λ n. "1";
  greater = λ x y. false;
  larger = λ x y. y;
  round = λ x n. x;
}

abbrev ranked_lists : List (List String)
ranked_lists = ("a.py" ∷ "b.py" ∷ []) ∷ ("b.py" ∷ "c.py" ∷ []) ∷ []

expanded :
    expand_query "fix the AuthHTTPController"
    ≡ "fix the AuthHTTPController  authentication jwt login token rest endpoint"
unfolding expand_query tokenize_for_fulltext camel_split stripped lower
expanded = refl

-- One chunk matches, and the rerank service is down.
abbrev sources : Sources
sources = record {
  chunk_hits =
      λ q n m. replied (record { file_path = "app/main.py"; text = "def run"; score = "2.5" } ∷ []);
  symbols_of = λ ps. replied ("app.main::run" ∷ []);
  symbol_hits = λ q n. raised "down";
  imported = λ ps. replied (some ("app/store.py" ∷ []));
  service_names = replied ("api" ∷ []);
  summaries_of = λ ps. replied [];
  symbol_summaries_of = λ ss. replied [];
  rerank_scores = λ q ts. raised "down";
}

-- A model that also names what it was not offered.
abbrev model : Llm
model = record {
  complete = λ p. replied "{}";
  strip_fences = λ s. s;
  loads = λ s. replied (
      Json.object (record {
        intent = "fix";
        hops = replied 7;
        keywords = replied [];
        services = replied ("api" ∷ "made_up" ∷ []);
        files = replied ("app/main.py" ∷ "made/up.py" ∷ []);
        symbols = replied [];
      }));
}

abbrev env : Tunables
env = record { rrf_k = 60; rerank_topn = 30; enable_rerank = true }

abbrev grounded : Grounding
grounded =
    ground floats sources model "fix run" ("api" ∷ [])
      (find_candidates floats sources env 20 "fix run")

translate-IsGrounded_example : IsGrounded sources grounded
unfolding translate stripped
translate-IsGrounded_example =
    translate-IsGrounded floats sources model env 20 "fix run" grounded refl

abbrev no_catalog : Sources
no_catalog = record sources { service_names = raised "down" }
