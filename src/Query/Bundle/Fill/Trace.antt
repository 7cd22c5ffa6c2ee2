-- ===== src/Query/Bundle/Fill/Trace.antt =====
-- query/bundle.py: the errors that `query` leaves in a bundle.
use ai_forge_memory.Prelude.{ℕ, String, List, ◌≡◌}
use ai_forge_memory.Prelude.Dict.{Dict}
use ai_forge_memory.Query.{Reply, replied, raised}
use ai_forge_memory.Query.Bundle.{ContextBundle}
use ai_forge_memory.Query.Bundle.Trim.{count_tokens}

-- A bundle with these errors; or what the rendering of a bundle, or the tokenizer on it, raises.
abbrev pub AnswersWith : (String → Reply ℕ) → List String → Reply ContextBundle → Type 0
AnswersWith count errors (replied b) = b.errors ≡ errors
AnswersWith count errors (raised exc) = (x : ContextBundle) × (count_tokens count x ≡ raised exc)
