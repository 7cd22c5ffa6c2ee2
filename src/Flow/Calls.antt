-- ===== src/Flow/Calls.antt =====
-- features/flow/runner.py: `_merge_calls`, which layers one list of call edges on another. A
-- confidence is in thousandths.
pub mod Best
use ai_forge_memory.Prelude.{ℕ, String, Bool, ◌&&◌, List, [], ◌∷◌, ◌++◌, ◌==◌, ltb, if◌then◌else◌}

pub record CallEdge : Type 0 where
  pub caller : String
  pub callee : String
  pub confidence : ℕ

unfoldable pub is_between : String → String → CallEdge → Bool
is_between caller callee e = e.caller == caller && e.callee == callee

-- One round of the loop on `by_key`, a dict in insertion order: a known key keeps its place.
unfoldable pub merge_one : CallEdge → List CallEdge → List CallEdge
merge_one e [] = e ∷ []
merge_one e (x ∷ xs) =
    if is_between e.caller e.callee x
    then (if ltb x.confidence e.confidence then e else x) ∷ xs
    else x ∷ merge_one e xs

abbrev pub merge_all : List CallEdge → List CallEdge → List CallEdge
merge_all by_key [] = by_key
merge_all by_key (e ∷ es) = merge_all (merge_one e by_key) es

pub merge_calls : List CallEdge → List CallEdge → List CallEdge
unfolding merge_one
merge_calls primary secondary = merge_all [] (primary ++ secondary)
