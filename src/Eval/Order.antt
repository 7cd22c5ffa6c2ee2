-- ===== src/Eval/Order.antt =====
-- features/eval/harness.py: how the figures of a report compare.
use ai_forge_memory.Eval.Percentiles.{percentiles}
use ai_forge_memory.Prelude.{
  ℕ, ◌+◌, ◌≤◌, String, Bool, true, false, Option, none, some, List, [], ◌∷◌, ◌==◌, ◌≡◌, ◌≢◌, refl,
  ◌⊎◌, inl, inr, length, map, arith, All, All-weaken, Bool-cases, if◌then◌else◌, text_cases,
  length-map,
}
use ai_forge_memory.Query.{Reply, replied, raised}
use ai_forge_memory.Query.Bundle.{ContextBundle}
use ai_forge_memory.Eval.{ProbeResult, Probe, is_within, run_probe, scored, failed}
use ai_forge_memory.Eval.Report.{EvalReport, count, aggregate, run_probes, run_eval}

abbrev Nests : ProbeResult → Type 0
Nests r =
    ((r.hit_at_1 ≡ false) ⊎ (r.hit_at_5 ≡ true)) × ((r.hit_at_5 ≡ false) ⊎ (r.hit_at_10 ≡ true))

within-nests : (m n : ℕ) (o : Option ℕ) → m ≤ n → (is_within m o ≡ false) ⊎ (is_within n o ≡ true)
within-nests m n none le = inl refl
within-nests m n (some k) le = elim (Bool-cases (is_within m (some k))) [
  | inl t ↦ inr (ground arith)
  | inr f ↦ inl f
]

run_probe-Nests :
    (query : String → Reply ContextBundle) (latency : ℕ) (p : Probe)
    → Nests (run_probe query latency p)
unfolding run_probe
run_probe-Nests query latency p = by_answer (query p.query)
  where
    by_answer :
        (a : Reply ContextBundle)
        → let r : ProbeResult = elim a [
          | raised exc ↦ failed p latency exc
          | replied b ↦ scored p latency b
        ] in
          Nests r
    by_answer (raised exc) = (inl refl, inl refl)
    by_answer (replied b) =
        let o = (scored p latency b).rank_first_hit in
        (within-nests 1 5 o (omega arith), within-nests 5 10 o (omega arith))

count-le :
    (p q : ProbeResult → Bool) (rs : List ProbeResult)
    → All (λ r. (p r ≡ false) ⊎ (q r ≡ true)) rs
    → count p rs ≤ count q rs
count-le p q [] h = omega arith
count-le p q (r ∷ rs) (inl f, h) = elim (Bool-cases (q r)) [
  | inl t ↦ rw (f, t) (omega (arith, count-le p q rs h))
  | inr u ↦ rw (f, u) (count-le p q rs h)
]
count-le p q (r ∷ rs) (inr t, h) = elim (Bool-cases (p r)) [
  | inl u ↦ rw (t, u) (omega (arith, count-le p q rs h))
  | inr f ↦ rw (t, f) (omega (arith, count-le p q rs h))
]

count-le-length : (p : ProbeResult → Bool) (rs : List ProbeResult) → count p rs ≤ length rs
count-le-length p [] = omega arith
count-le-length p (r ∷ rs) = elim (Bool-cases (p r)) [
  | inl t ↦ rw t (omega (arith, count-le-length p rs))
  | inr f ↦ rw f (omega (arith, count-le-length p rs))
]

run_probes-Nest :
    (query : String → Reply ContextBundle) (latency : ℕ → ℕ) (i : ℕ) (ps : List Probe)
    → All Nests (run_probes query latency i ps)
run_probes-Nest query latency i [] = tt
run_probes-Nest query latency i (p ∷ ps) =
    (run_probe-Nests query (latency i) p, run_probes-Nest query latency (i + 1) ps)

length-run_probes :
    (query : String → Reply ContextBundle) (latency : ℕ → ℕ) (i : ℕ) (ps : List Probe)
    → length (run_probes query latency i ps) ≡ length ps
length-run_probes query latency i [] = refl
length-run_probes query latency i (p ∷ ps) =
    omega (arith, length-run_probes query latency (i + 1) ps)

-- The shares grow with the depth, and the percentiles are in order but for two probes.
abbrev pub IsOrdered : ℕ → EvalReport → Type 0
IsOrdered n r =
    (r.n ≡ n)
    × (r.recall_at_1.0 ≤ r.recall_at_5.0)
    × (r.recall_at_5.0 ≤ r.recall_at_10.0)
    × (r.recall_at_10.0 ≤ r.n)
    × ((r.latency_p50 ≤ r.latency_p95) ⊎ ((n ≡ 2) × (r.latency_p95 ≤ r.latency_p50)))

aggregate-IsOrdered :
    (repo : String) (results : List ProbeResult)
    → 1 ≤ length results
    → All Nests results
    → IsOrdered (length results) (aggregate repo results)
unfolding aggregate
aggregate-IsOrdered repo results pos h =
    let latencies = map (λ (r : ProbeResult). r.latency) results in
    let same : length latencies ≡ length results =
      length-map (λ (r : ProbeResult). r.latency) results in
    (
      refl,
      count-le (λ r. r.hit_at_1) (λ r. r.hit_at_5) results
          (All-weaken Nests _ results (λ r k. k.0) h),
      count-le (λ r. r.hit_at_5) (λ r. r.hit_at_10) results
          (All-weaken Nests _ results (λ r k. k.1) h),
      count-le-length (λ r. r.hit_at_10) results,
      elim (percentiles latencies (omega (arith, same, pos))) [
        | inl le ↦ inl le
        | inr (two, le) ↦ inr (omega (arith, two, same), le)
      ],
    )

-- A report of at least one probe counts every probe once, its recall does not fall from 1 to 5 to 10,
-- and its upper latency percentile is not below its median, but for two probes, where it is not above
-- it. Whatever the queries answer, `run_eval` gives a report if a repository is named.
pub run_eval-IsOrdered :
    (query : String → String → Reply ContextBundle) (latency : ℕ → ℕ) (asked of_file : String)
    (probes : List Probe)
    → 1 ≤ length probes
    → (asked ≢ "") ⊎ (of_file ≢ "")
    → (r : EvalReport) × (run_eval query latency asked of_file probes ≡ some r)
      × IsOrdered (length probes) r
unfolding run_eval
run_eval-IsOrdered query latency asked of_file probes pos named =
    let repo : String = if asked == "" then of_file else asked in
    let results = run_probes (query repo) latency 0 probes in
    let same = length-run_probes (query repo) latency 0 probes in
    (
      aggregate repo results,
      rw (is_named asked of_file named),
      rw⁻¹ same (
          aggregate-IsOrdered repo results (omega (arith, same, pos))
            (run_probes-Nest (query repo) latency 0 probes)),
    )
  where
    is_named :
        (asked of_file : String)
        → (asked ≢ "") ⊎ (of_file ≢ "")
        → ((if asked == "" then of_file else asked) == "") ≡ false
    is_named asked of_file h = elim (text_cases asked "") [
      | inl e ↦ elim h [
        | inl n ↦ absurd (n e)
        | inr n ↦ rw e (elim (text_cases of_file "") [ inl d ↦ absurd (n d) | inr (f, _) ↦ f ])
      ]
      | inr (f, _) ↦ rw f f
    ]
