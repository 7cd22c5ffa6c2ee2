-- ===== src/Eval/Report.antt =====
-- features/eval/harness.py: `aggregate` and `run_eval`. A share is given by its numerator and denominator, a
-- mean of reciprocals by the ranks and the number that it is divided by. The product with 0.95 is taken
-- as exact.
use ai_forge_memory.Prelude.{
  ℕ, zero, suc, ◌+◌, ◌-◌, ◌*◌, ◌/◌, String, Bool, true, false, Option, none, some, List, [], ◌∷◌,
  ◌==◌, length, map, keep, ltb, if◌then◌else◌,
}
use ai_forge_memory.Prelude.Insertion.{sorted_by}
use ai_forge_memory.Query.{Reply}
use ai_forge_memory.Query.Bundle.{ContextBundle}
use ai_forge_memory.Eval.{ProbeResult, Probe, run_probe}

-- A number of things out of another.
abbrev pub Share : Type 0
Share = ℕ × ℕ

-- The sum of the reciprocals of the ranks, divided by a number.
abbrev pub Mean : Type 0
Mean = List ℕ × ℕ

pub record EvalReport : Type 0 where
  pub repo : String
  pub n : ℕ
  pub recall_at_1 : Share
  pub recall_at_5 : Share
  pub recall_at_10 : Share
  pub mrr : Mean
  pub sym_recall_at_5 : Share
  pub sym_mrr : Mean
  pub latency_p50 : ℕ
  pub latency_p95 : ℕ
  pub latency_mean : Share
  pub probes : List ProbeResult

abbrev pub count : (ProbeResult → Bool) → List ProbeResult → ℕ
count p [] = 0
count p (r ∷ rs) = if p r then suc (count p rs) else count p rs

abbrev pub ranks : (ProbeResult → Option ℕ) → List ProbeResult → List ℕ
ranks f [] = []
ranks f (r ∷ rs) = elim (f r) [ none ↦ ranks f rs | some k ↦ k ∷ ranks f rs ]

abbrev pub at : ℕ → List ℕ → ℕ
at i [] = 0
at zero (x ∷ xs) = x
at (suc i) (x ∷ xs) = at i xs

abbrev pub sum : List ℕ → ℕ
sum [] = 0
sum (x ∷ xs) = x + sum xs

-- `latencies[len(latencies) // 2]`
unfoldable pub p50 : List ℕ → ℕ
p50 latencies = at (length latencies / 2) (sorted_by ltb latencies)

-- `latencies[max(0, int(len(latencies) * 0.95) - 1)]`
unfoldable pub p95 : List ℕ → ℕ
p95 latencies = at (length latencies * 95 / 100 - 1) (sorted_by ltb latencies)

abbrev pub has_symbols : ProbeResult → Bool
has_symbols r = elim r.expected_symbols [ [] ↦ false | s ∷ ss ↦ true ]

-- `aggregate`. Without a result all figures are 0, and without one that expects symbols theirs are:
-- shares and means of nothing.
unfoldable pub aggregate : String → List ProbeResult → EvalReport
aggregate repo results =
    let n = length results in
    let with_symbols = keep has_symbols results in
    let latencies = map (λ (r : ProbeResult). r.latency) results in
    record {
      repo = repo;
      n = n;
      recall_at_1 = (count (λ r. r.hit_at_1) results, n);
      recall_at_5 = (count (λ r. r.hit_at_5) results, n);
      recall_at_10 = (count (λ r. r.hit_at_10) results, n);
      mrr = (ranks (λ r. r.rank_first_hit) results, n);
      sym_recall_at_5 = (count (λ r. r.sym_hit_at_5) with_symbols, length with_symbols);
      sym_mrr = (ranks (λ r. r.rank_first_sym) with_symbols, length with_symbols);
      latency_p50 = p50 latencies;
      latency_p95 = p95 latencies;
      latency_mean = (sum latencies, n);
      probes = results;
    }

abbrev pub run_probes : (String → Reply ContextBundle) → (ℕ → ℕ) → ℕ → List Probe → List ProbeResult
run_probes query latency i [] = []
run_probes query latency i (p ∷ ps) =
    run_probe query (latency i) p ∷ run_probes query latency (i + 1) ps

-- `run_eval` on the repository and the probes of the file, the repository that is asked for, and the
-- time that each query takes; `none` where no repository is named.
unfoldable pub run_eval :
    (String → String → Reply ContextBundle)
    → (ℕ → ℕ)
    → String
    → String
    → List Probe
    → Option EvalReport
run_eval query latency asked of_file probes =
    let repo = if asked == "" then of_file else asked in
    if repo == "" then none else some (aggregate repo (run_probes (query repo) latency 0 probes))
