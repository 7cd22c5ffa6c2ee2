-- ===== src/Eval.antt =====
-- features/eval/harness.py: `run_probe`. The query is a function of the text; a latency is a natural
-- number of some unit.
pub mod Report
pub mod Percentiles
pub mod Ranks
pub mod Order
use ai_forge_memory.Prelude.{
  ℕ, ◌+◌, String, Bool, false, ◌&&◌, ◌||◌, Option, none, some, List, [], ◌∷◌, ◌++◌, map, leb, eqb,
  if◌then◌else◌,
}
use ai_forge_memory.Prelude.Text.{Text, codes, is_prefix, ◌&◌}
use mathlib.Core.List.{reverse}
use ai_forge_memory.Prelude.Sort.{contains}
use ai_forge_memory.Query.{Reply, replied, raised}
use ai_forge_memory.Query.Bundle.{ContextBundle, FileRow, SymbolRow}

-- A rank counts from 1; `none` stands for -1.
pub record ProbeResult : Type 0 where
  pub query : String
  pub expected_files : List String
  pub expected_symbols : List String
  pub returned_files : List String
  pub returned_symbols : List String
  pub rank_first_hit : Option ℕ
  pub rank_first_sym : Option ℕ
  pub hit_at_1 : Bool
  pub hit_at_5 : Bool
  pub hit_at_10 : Bool
  pub sym_hit_at_5 : Bool
  pub latency : ℕ
  pub errors : List String

pub record Probe : Type 0 where
  pub query : String
  pub expected_files : List String
  pub expected_symbols : List String

-- The loop with `enumerate(…, 1)` and `break`.
abbrev pub first_rank : (String → Bool) → ℕ → List String → Option ℕ
first_rank p idx [] = none
first_rank p idx (x ∷ xs) = let rest = first_rank p (idx + 1) xs in if p x then some idx else rest

-- `1 <= rank <= n`, for a rank that counts from 1.
abbrev pub is_within : ℕ → Option ℕ → Bool
is_within n none = false
is_within n (some k) = leb 1 k && leb k n

-- `s.split("::")[-1]`, with what stands before in `seen`.
abbrev last_part : Text → Text → Text
last_part seen [] = seen
last_part seen (c ∷ []) = seen ++ c ∷ []
last_part seen (c ∷ d ∷ s) =
    let cut = last_part [] s in
    let on = last_part (seen ++ c ∷ []) (d ∷ s) in if eqb c b':' && eqb d b':' then cut else on

abbrev ends_with : Text → Text → Bool
ends_with suffix s = is_prefix (reverse suffix) (reverse s)

abbrev any_ends : List String → Text → Bool
any_ends [] s = false
any_ends (e ∷ es) s = ends_with (last_part [] (codes e)) s || any_ends es s

unfoldable pub matches_symbol : List String → String → Bool
matches_symbol expected s = contains s expected || any_ends expected (codes s)

-- What a probe that was answered comes to.
abbrev pub sym_rank : List String → List String → Option ℕ
sym_rank [] returned = none
sym_rank (e ∷ es) returned = first_rank (matches_symbol (e ∷ es)) 1 returned

abbrev pub scored : Probe → ℕ → ContextBundle → ProbeResult
scored p latency b =
    let files = map (λ (f : FileRow). f.path) b.files in
    let symbols = map (λ (s : SymbolRow). s.fqname) b.symbols in
    let hit = first_rank (λ f. contains f p.expected_files) 1 files in
    let sym_hit = sym_rank p.expected_symbols symbols in
    record {
      query = p.query;
      expected_files = p.expected_files;
      expected_symbols = p.expected_symbols;
      returned_files = files;
      returned_symbols = symbols;
      rank_first_hit = hit;
      rank_first_sym = sym_hit;
      hit_at_1 = is_within 1 hit;
      hit_at_5 = is_within 5 hit;
      hit_at_10 = is_within 10 hit;
      sym_hit_at_5 = is_within 5 sym_hit;
      latency = latency;
      errors = b.errors;
    }

abbrev failed : Probe → ℕ → String → ProbeResult
failed p latency exc = record {
  query = p.query;
  expected_files = p.expected_files;
  expected_symbols = p.expected_symbols;
  returned_files = [];
  returned_symbols = [];
  rank_first_hit = none;
  rank_first_sym = none;
  hit_at_1 = false;
  hit_at_5 = false;
  hit_at_10 = false;
  sym_hit_at_5 = false;
  latency = latency;
  errors = "bundle: " & exc ∷ [];
}

unfoldable pub run_probe : (String → Reply ContextBundle) → ℕ → Probe → ProbeResult
run_probe query latency p = elim (query p.query) [
  | raised exc ↦ failed p latency exc
  | replied b ↦ scored p latency b
]
