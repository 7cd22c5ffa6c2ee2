-- ===== src/Symbol/Summarise/Run/Aborts.antt =====
-- features/symbol/summarise.py: when the run over the candidates aborts, in either of its ways.
use ai_forge_memory.Prelude.{
  ℕ, ◌≤◌, String, Bool, Option, none, some, List, ◌≡◌, ◌↔◌, ◌⊎◌, inl, inr, map, leb, Bool-cases,
  if◌then◌else◌,
}
use ai_forge_memory.Chunk.Embed.{Content}
use ai_forge_memory.Symbol.Summarise.Candidates.{SourceFile, Limits, candidates}
use ai_forge_memory.Symbol.Summarise.Answer.{Settings, SymbolSummary, Llm, process_one}
use ai_forge_memory.Symbol.Summarise.Run.{is_error, window_of, summarise_all, summarise_symbols}
use ai_forge_memory.Symbol.Summarise.Run.Window.{HasWindow, concurrent_raises_iff}
use ai_forge_memory.Symbol.Summarise.Run.Breaker.{serial_raises_iff}

summarise_all_raises_iff :
    (concurrency abort_after : ℕ) (order : List SymbolSummary → List SymbolSummary)
    (answers : List SymbolSummary)
    → 1 ≤ abort_after
    → let r = (summarise_all concurrency abort_after order answers).result in
      let ended = if leb concurrency 1 then answers else order answers in
      let window = if leb concurrency 1 then abort_after else window_of abort_after in
      ((r ≡ none) ⊎ (r ≡ some ended))
      × ((r ≡ none) ↔ HasWindow window abort_after (map is_error ended))
unfolding summarise_all
summarise_all_raises_iff concurrency abort_after order answers h =
    elim (Bool-cases (leb concurrency 1)) [
      | inl t ↦ rw t (serial_raises_iff abort_after answers h)
      | inr f ↦ rw f (concurrent_raises_iff abort_after (order answers))
    ]

-- `summarise_symbols` aborts exactly if, among the summaries of its candidates in the order in which
-- the calls end, `abort_after` in a row are errors, in the serial run; or, in the concurrent one, if of
-- twice as many in a row, or eight if that is more, at least `abort_after` are. Otherwise it returns
-- every summary, in that order. `abort_after` is at least one.
pub summarise_symbols_raises_iff :
    (read : String → Option Content) (is_getter : String → Bool) (l : Limits) (z : Settings)
    (llm : Llm) (order : List SymbolSummary → List SymbolSummary) (concurrency abort_after : ℕ)
    (min_lines limit : Option ℕ) (walked : List SourceFile)
    → 1 ≤ abort_after
    → let r =
        (summarise_symbols read is_getter l z llm order concurrency abort_after min_lines limit
          walked).result in
      let answers = map (process_one z llm) (candidates read is_getter l min_lines limit walked) in
      let ended = if leb concurrency 1 then answers else order answers in
      let window = if leb concurrency 1 then abort_after else window_of abort_after in
      ((r ≡ none) ⊎ (r ≡ some ended))
      × ((r ≡ none) ↔ HasWindow window abort_after (map is_error ended))
unfolding summarise_symbols
summarise_symbols_raises_iff read is_getter l z llm order concurrency abort_after min_lines limit
      walked h =
    summarise_all_raises_iff concurrency abort_after order
      (map (process_one z llm) (candidates read is_getter l min_lines limit walked)) h
