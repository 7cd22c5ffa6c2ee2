-- ===== src/Query/Bundle/Trim.antt =====
-- query/bundle.py: `_trim_to_budget`. The tokenizer is a parameter: how many tokens a text has, or
-- that it raises, as tiktoken does on a text with a special token.
pub mod Budget
use ai_forge_memory.Prelude.{ℕ, String, Bool, List, [], ◌∷◌, take, leb, if◌then◌else◌}
use ai_forge_memory.Query.{Reply, replied, raised}
use ai_forge_memory.Query.Bundle.{ContextBundle}
use ai_forge_memory.Prelude.Text.{clip}
use ai_forge_memory.Query.Bundle.Render.{render}

abbrev pub drop_calls : ContextBundle → ContextBundle
drop_calls b = record b { callers = []; callees = [] }

abbrev pub keep_two_chunks : ContextBundle → ContextBundle
keep_two_chunks b = record b { chunks = take 2 b.chunks }

abbrev pub drop_chunks : ContextBundle → ContextBundle
drop_chunks b = record b { chunks = [] }

abbrev pub drop_memory : ContextBundle → ContextBundle
drop_memory b = record b {
  cross_repo = [];
  decisions = [];
  observations = [];
  notes = [];
  docs = [];
}

abbrev pub keep_few_anchors : ContextBundle → ContextBundle
keep_few_anchors b = record b { symbols = take 6 b.symbols; files = take 4 b.files }

abbrev pub cut_hard : ContextBundle → ContextBundle
cut_hard b = record b {
  symbols = [];
  files = [];
  services = [];
  runbook_md = clip 500 b.runbook_md;
  conventions_md = clip 500 b.conventions_md;
}

-- `_count_tokens(bundle.render())`
abbrev pub count_tokens : (String → Reply ℕ) → ContextBundle → Reply ℕ
count_tokens count b = elim (render b) [ raised exc ↦ raised exc | replied text ↦ count text ]

-- `_count_tokens(bundle.render()) <= token_budget`
unfoldable pub fits : (String → Reply ℕ) → ℕ → ContextBundle → Reply Bool
fits count budget b = elim (count_tokens count b) [
  | raised exc ↦ raised exc
  | replied n ↦ replied (leb n budget)
]

-- The steps in order: each is made if the bundle does not fit, and the next looks again. An exception
-- of the rendering or of the tokenizer is not caught.
abbrev pub trim_by :
    (ContextBundle → Reply Bool)
    → List (ContextBundle → ContextBundle)
    → ContextBundle
    → Reply ContextBundle
trim_by fit [] b = replied b
trim_by fit (cut ∷ cuts) b =
    let rest = trim_by fit cuts (cut b) in
    elim (fit b) [ raised exc ↦ raised exc | replied ok ↦ if ok then replied b else rest ]

abbrev pub cuts : List (ContextBundle → ContextBundle)
cuts = drop_calls ∷ keep_two_chunks ∷ drop_chunks ∷ drop_memory ∷ keep_few_anchors ∷ cut_hard ∷ []

unfoldable pub trim_to_budget : (String → Reply ℕ) → ℕ → ContextBundle → Reply ContextBundle
trim_to_budget count budget b = trim_by (fits count budget) cuts b
