-- ===== src/Scheduler/Lock.antt =====
-- features/scheduler/runner.py: the per-repository lock file. The file system's part of interest
-- is the content of each lock file: `none` for no file, `some none` for a text that `int` refuses.
use ai_forge_memory.Prelude.{
  ℕ, String, Bool, true, false, ◌||◌, Option, none, some, eqb, if◌then◌else◌,
}
use ai_forge_memory.Prelude.Map.{put}
use Prim.Native.Char.{Char, code}

-- The process and what the operating system answers it: its own pid, whether `os.kill(pid, 0)`
-- returns without an exception, and `str.isalnum` of a character.
pub record Os : Type 0 where
  pub pid : ℕ
  pub signal_ok : ℕ → Bool
  pub is_alnum : Char → Bool

abbrev pub Files : Type 0
Files = String → Option (Option ℕ)

abbrev underscore : Char
underscore = "_"

-- `_safe`
unfoldable pub safe : Os → String → String
safe os String.[] = ""
safe os (String.◌∷◌ c s) =
    String.◌∷◌ (if os.is_alnum c || eqb (code c) b'-' || eqb (code c) b'_' then c else underscore)
      (safe os s)

abbrev pub blocked : Os → Option (Option ℕ) → Bool
blocked os none = false
blocked os (some none) = false
blocked os (some (some pid)) = os.signal_ok pid

-- `_acquire_lock`: whether the lock was taken, and the files.
unfoldable pub acquire_lock : Os → String → Files → Bool × Files
acquire_lock os name files =
    if blocked os (files (safe os name))
    then (false, files)
    else (true, put (safe os name) (some (some os.pid)) files)

-- `_release_lock`
unfoldable pub release_lock : Os → String → Files → Files
release_lock os name files = put (safe os name) none files
