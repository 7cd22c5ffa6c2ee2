-- ===== src/Delta/GitDiff.antt =====
-- features/delta/extract.py: `_git_diff`, the reading of `git diff --name-status -z`. The output is
-- a text; git ends each field with a NUL.
pub mod Reading
use ai_forge_memory.Prelude.{
  ℕ, String, Bool, true, false, not, ◌||◌, List, [], ◌∷◌, ◌++◌, ◌==◌, eqb, if◌then◌else◌, keep,
}
use Prim.Native.Char.{Char, code}
use ai_forge_memory.Delta.Hashes.{Changes}

-- The character goes to the front of the first piece.
abbrev onto_first : Char → List String → List String
onto_first c [] = String.◌∷◌ c "" ∷ []
onto_first c (s ∷ ss) = String.◌∷◌ c s ∷ ss

-- `raw.split("\0")`
unfoldable pub split_nul : String → List String
split_nul String.[] = "" ∷ []
split_nul (String.◌∷◌ c s) =
    let pieces = split_nul s in if eqb (code c) 0 then "" ∷ pieces else onto_first c pieces

abbrev pub is_empty : String → Bool
is_empty String.[] = true
is_empty (String.◌∷◌ c s) = false

-- `[t for t in raw.split("\0") if t]`
unfoldable pub tokens : String → List String
unfolding split_nul
tokens raw = keep (λ t. not (is_empty t)) (split_nul raw)

-- `status.startswith("R") or status.startswith("C")`
abbrev pub is_rename : String → Bool
is_rename String.[] = false
is_rename (String.◌∷◌ c s) = eqb (code c) b'R' || eqb (code c) b'C'

abbrev pub classify : String → String → Changes → Changes
classify status path c =
    if status == "A"
    then record c { added = c.added ++ path ∷ [] }
    else if status == "M"
    then record c { modified = c.modified ++ path ∷ [] }
    else if status == "D"
    then record c { deleted = c.deleted ++ path ∷ [] }
    else if status == "T"
    then record c { modified = c.modified ++ path ∷ [] }
    else c

abbrev pub moved : String → String → Changes → Changes
moved old new c = record c { deleted = c.deleted ++ old ∷ []; added = c.added ++ new ∷ [] }

-- The `while` loop, from the tokens that are left. A rename with fewer than two tokens after it
-- advances by its status alone, so its one path, if any, is read as a status.
unfoldable pub scan : List String → Changes → Changes
scan [] c = c
scan (status ∷ []) c = c
scan (status ∷ path ∷ []) c = if is_rename status then c else classify status path c
scan (status ∷ path ∷ next ∷ rest) c =
    let renamed = scan rest (moved path next c) in
    let plain = scan (next ∷ rest) (classify status path c) in
    if is_rename status then renamed else plain

abbrev pub no_changes : Changes
no_changes = record { added = []; modified = []; deleted = [] }

-- `subprocess.run` raised, or git ended: whether with return code 0, and its output.
pub data Ran : Type 0 where
  raised : Ran
  exited : Bool → String → Ran

-- `_git_diff`: three empty lists where git could not be run or failed.
unfoldable pub git_diff : Ran → Changes
unfolding tokens scan
git_diff raised = no_changes
git_diff (exited ok out) = if ok then scan (tokens out) no_changes else no_changes
