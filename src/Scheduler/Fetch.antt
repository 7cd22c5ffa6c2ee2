-- ===== src/Scheduler/Fetch.antt =====
-- features/scheduler/runner.py: `fetch_and_maybe_pull` and its git helpers. A call of git is an
-- entry of the trace; what it answers, or that `subprocess.run` raises, is a parameter.
pub mod Safety
use ai_forge_memory.Prelude.{
  ℕ, String, Bool, true, false, not, Option, none, some, List, [], ◌∷◌, ◌++◌, eqb, if◌then◌else◌,
}
use ai_forge_memory.Prelude.Text.{Text, codes, strip, int}

pub data GitCommand : Type 0 where
  fetch rev_list status rev_parse pull : GitCommand

-- `subprocess.run` raised, or the process ended: whether its return code is 0, and its output.
pub data Proc : Type 0 where
  raised : Proc
  exited : Bool → Text → Proc

abbrev pub Git : Type 0
Git = GitCommand → Proc

pub record FetchOutcome : Type 0 where
  pub fetched : Bool
  pub pulled : Bool
  pub behind : ℕ
  pub skipped_reason : String

-- The commands that ran, in order, and the result, `none` after an exception.
abbrev pub Run : Type 0 → Type 0
Run A = List GitCommand × Option A

abbrev pub pure : {A : Type 0} → A → Run A
pure a = ([], some a)

infixl 5 ◌>>=◌
abbrev pub ◌>>=◌ : {A B : Type 0} → Run A → (A → Run B) → Run B
m >>= f = elim m.1 [ none ↦ (m.0, none) | some a ↦ let (t, r) = f a in (m.0 ++ t, r) ]

-- `_git_run`
abbrev pub git_run : Git → GitCommand → Run (Bool × Text)
git_run git c = (c ∷ [], elim (git c) [ raised ↦ none | exited ok out ↦ some (ok, out) ])

-- `r.stdout or "0"`
abbrev or_zero : Text → Text
or_zero [] = codes "0"
or_zero (c ∷ s) = c ∷ s

abbrev pub count_of : Bool → Text → ℕ
count_of ok out = if ok then elim (int (or_zero out)) [ none ↦ 0 | some n ↦ n ] else 0

-- `_commits_behind`
pub commits_behind : Git → Run ℕ
commits_behind git = do r ← git_run git rev_list; pure (count_of r.0 r.1)

abbrev pub is_blank : Text → Bool
is_blank s = elim (strip s) [ [] ↦ true | _ ∷ _ ↦ false ]

-- `_is_dirty`
pub is_dirty : Git → Run Bool
is_dirty git = do r ← git_run git status; pure (not (is_blank r.1))

-- `_has_upstream`
pub has_upstream : Git → Run Bool
has_upstream git = do r ← git_run git rev_parse; pure r.0

abbrev pub outcome : Bool → Bool → ℕ → String → FetchOutcome
outcome fetched pulled behind reason = record {
  fetched = fetched;
  pulled = pulled;
  behind = behind;
  skipped_reason = reason;
}

pull_if_clean : Git → ℕ → Run FetchOutcome
unfolding is_dirty has_upstream
pull_if_clean git behind = do
  dirty ← is_dirty git
  if dirty then pure (outcome true false behind "dirty") else do
    upstream ← has_upstream git
    if not upstream
        then pure (outcome true false behind "no_upstream")
        else do r ← git_run git pull; pure (outcome true r.0 behind "")

unfoldable pub fetch_and_maybe_pull : Git → Bool → Run FetchOutcome
unfolding commits_behind pull_if_clean
fetch_and_maybe_pull git do_pull = do
  r ← git_run git fetch
  if not r.0 then pure (outcome false false 0 "") else do
    behind ← commits_behind git
    if eqb behind 0
        then pure (outcome true false 0 "")
        else if not do_pull
        then pure (outcome true false behind "")
        else pull_if_clean git behind
