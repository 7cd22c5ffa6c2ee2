-- ===== src/Symbol/Summarise/Run.antt =====
-- features/symbol/summarise.py: the two ways in which `summarise_symbols` goes over the candidates,
-- each with its circuit breaker. In the concurrent one the order in which the calls end is whatever
-- it happens to be, and is given. The throttle only waits. `on_each` may raise, which is swallowed.
pub mod Window
pub mod Breaker
pub mod Aborts
use ai_forge_memory.Prelude.{
  ℕ, suc, ◌+◌, ◌*◌, max, String, Bool, ◌&&◌, Option, none, some, List, [], ◌∷◌, ◌++◌, ◌==◌, length,
  ltb, leb, if◌then◌else◌, map,
}
use mathlib.Core.Option
use ai_forge_memory.Chunk.Embed.{Content}
use ai_forge_memory.Symbol.Summarise.Candidates.{SourceFile, Limits, candidates}
use ai_forge_memory.Symbol.Summarise.Answer.{Settings, SymbolSummary, Llm, process_one}

-- The calls of `on_each`, with the number of the symbol; and what is returned, `none` where
-- `SymbolSummaryAborted` is raised.
pub record Run : Type 0 where
  pub reported : List (SymbolSummary × ℕ)
  pub result : Option (List SymbolSummary)

abbrev pub is_error : SymbolSummary → Bool
is_error ss = ss.skipped_reason == "llm_error"

abbrev after : SymbolSummary → ℕ → Run → Run
after ss idx rest = record {
  reported = (ss, idx) ∷ rest.reported;
  result = Option.map (λ out. ss ∷ out) rest.result;
}

abbrev stop : SymbolSummary → ℕ → Run
stop ss idx = record { reported = (ss, idx) ∷ []; result = none }

-- The serial path, from symbol `idx` on, after `errors` failures in a row. The summaries are those
-- that the calls give, in the order of the candidates.
unfoldable pub serial : ℕ → ℕ → ℕ → List SymbolSummary → Run
serial abort_after errors idx [] = record { reported = []; result = some [] }
serial abort_after errors idx (ss ∷ rest) =
    let errors' = if is_error ss then errors + 1 else 0 in
    let more = serial abort_after errors' (idx + 1) rest in
    if leb abort_after errors' then stop ss (idx + 1) else after ss (idx + 1) more

-- `cb_window`
abbrev pub window_of : ℕ → ℕ
window_of abort_after = max 8 (abort_after * 2)

abbrev pub count_errors : List Bool → ℕ
count_errors [] = 0
count_errors (b ∷ bs) = if b then suc (count_errors bs) else count_errors bs

abbrev tail : List Bool → List Bool
tail [] = []
tail (b ∷ bs) = bs

-- What `_record` makes of the window.
abbrev pub push : ℕ → List Bool → Bool → List Bool
push window recent b =
    if ltb window (length (recent ++ b ∷ [])) then tail (recent ++ b ∷ []) else recent ++ b ∷ []

-- `_record` answers that the run must not go on.
abbrev pub trips : ℕ → ℕ → List Bool → Bool
trips abort_after window recent =
    leb window (length recent) && leb abort_after (count_errors recent)

-- The concurrent path: the summaries are in the order in which the calls end.
unfoldable pub concurrent : ℕ → List Bool → ℕ → List SymbolSummary → Run
concurrent abort_after recent done [] = record { reported = []; result = some [] }
concurrent abort_after recent done (ss ∷ rest) =
    let window = window_of abort_after in
    let recent' = push window recent (is_error ss) in
    let more = concurrent abort_after recent' (done + 1) rest in
    if trips abort_after window recent' then stop ss (done + 1) else after ss (done + 1) more

-- `summarise_symbols` on the summaries that the calls for its candidates give; `order` puts them in
-- the order in which the concurrent calls end.
unfoldable pub summarise_all :
    ℕ → ℕ → (List SymbolSummary → List SymbolSummary) → List SymbolSummary → Run
summarise_all concurrency abort_after order answers =
    if leb concurrency 1
    then serial abort_after 0 0 answers
    else concurrent abort_after [] 0 (order answers)

-- `summarise_symbols`
unfoldable pub summarise_symbols :
    (String → Option Content)
    → (String → Bool)
    → Limits
    → Settings
    → Llm
    → (List SymbolSummary → List SymbolSummary)
    → ℕ
    → ℕ
    → Option ℕ
    → Option ℕ
    → List SourceFile
    → Run
summarise_symbols read is_getter l z llm order concurrency abort_after min_lines limit walked =
    summarise_all concurrency abort_after order
      (map (process_one z llm) (candidates read is_getter l min_lines limit walked))
