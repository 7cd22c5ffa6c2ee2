-- ===== src/Memory/Digest/Nothing.antt =====
-- features/memory/digest.py: the run over the store finds nothing to digest.
use ai_forge_memory.Prelude.{ℕ, String, Bool, Option, List, [], ◌∷◌, ◌≡◌, refl, map}
use ai_forge_memory.Prelude.Dict.{Dict}
use ai_forge_memory.Memory.Store.{Node, Graph, Env}
use ai_forge_memory.Memory.Digest.{
  Row, listed, group_rows, select_cold, list_memory, write_digests, run_digest,
}

group_rows-listed :
    (now cold_days : ℕ) (ns : List Node) (groups : Dict (List Row))
    → group_rows now cold_days (map listed ns) groups ≡ groups
unfolding group_rows
group_rows-listed now cold_days [] groups = refl
group_rows-listed now cold_days (n ∷ ns) groups = group_rows-listed now cold_days ns groups

-- Whatever the store holds, however old, `run_digest` finds no group, writes no digest and archives
-- nothing.
pub run_digest_nothing :
    (env : Env) (fresh : ℕ → String) (summarize : Option (String → List String → String))
    (archives : Bool) (repo : String) (g : Graph)
    → run_digest env fresh summarize archives repo g
      ≡ (record { groups = 0; digests = 0; archived = 0 }, g)
unfolding run_digest select_cold list_memory write_digests
run_digest_nothing env fresh summarize archives repo g = rw (group_rows-listed env.now 90 _ []) refl
