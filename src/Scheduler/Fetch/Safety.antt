-- ===== src/Scheduler/Fetch/Safety.antt =====
-- features/scheduler/runner.py: when `fetch_and_maybe_pull` lets git touch the working tree.
use ai_forge_memory.Prelude.{
  ◌<◌, ℕ, refl, Bool, true, false, Option, none, some, List, [], ◌∷◌, ◌≡◌, ◌↔◌, ◌||◌, arith,
}
use ai_forge_memory.Prelude.Text.{Text, strip, int}
use ai_forge_memory.Scheduler.Fetch.{
  GitCommand, fetch, rev_list, status, rev_parse, pull, Proc, raised, exited, Git, FetchOutcome,
  count_of, is_blank, fetch_and_maybe_pull,
}

abbrev is_pull : GitCommand → Bool
is_pull pull = true
is_pull _ = false

-- `git pull` is among the commands that ran.
abbrev pub pulls : List GitCommand → Bool
pulls [] = false
pulls (c ∷ t) = is_pull c || pulls t

-- The fetch exited with 0; so did the count of the commits behind, and printed a positive number;
-- pulling was asked for; `git status`, whatever its exit code, printed nothing but white space; and
-- the upstream was named with the exit code 0.
pub record IsPullable (git : Git) (do_pull : Bool) : Type 0 where
  pub fetched : (out : Text) × (git fetch ≡ exited true out)
  pub is_behind :
      (out : Text) × (n : ℕ) × (git rev_list ≡ exited true out) × (int out ≡ some n) × (0 < n)
  pub wanted : do_pull ≡ true
  pub is_clean : (ok : Bool) × (out : Text) × (git status ≡ exited ok out) × (strip out ≡ [])
  pub has_branch : (out : Text) × (git rev_parse ≡ exited true out)

abbrev succeeds : Proc → Bool
succeeds raised = false
succeeds (exited ok out) = ok

abbrev commits : Proc → ℕ
commits raised = 0
commits (exited ok out) = count_of ok out

abbrev reports_clean : Proc → Bool
reports_clean raised = false
reports_clean (exited ok out) = is_blank out

-- The same as the guards of the code compute it.
record IsAllowed (git : Git) (do_pull : Bool) : Type 0 where
  pub fetched : succeeds (git fetch) ≡ true
  pub is_behind : 0 < commits (git rev_list)
  pub wanted : do_pull ≡ true
  pub is_clean : reports_clean (git status) ≡ true
  pub has_branch : succeeds (git rev_parse) ≡ true

succeeds_iff : (p : Proc) → (succeeds p ≡ true) ↔ ((out : Text) × (p ≡ exited true out))
succeeds_iff p = (to p, λ (out, e). rw e refl)
  where
    to : (p : Proc) → succeeds p ≡ true → (out : Text) × (p ≡ exited true out)
    to raised h = cc
    to (exited true out) h = (out, refl)
    to (exited false out) h = cc

abbrev or_none : Option ℕ → ℕ
or_none o = elim o [ none ↦ 0 | some n ↦ n ]

positive : (o : Option ℕ) → 0 < or_none o → (n : ℕ) × (o ≡ some n) × (0 < n)
positive none h = absurd (omega arith)
positive (some n) h = (n, refl, h)

commits_iff :
    (p : Proc)
    → (0 < commits p)
      ↔ ((out : Text) × (n : ℕ) × (p ≡ exited true out) × (int out ≡ some n) × (0 < n))
unfolding int
commits_iff p = (to p, λ (out, n, e, k, h). rw e (from out n k h))
  where
    to :
        (p : Proc)
        → 0 < commits p
        → (out : Text) × (n : ℕ) × (p ≡ exited true out) × (int out ≡ some n) × (0 < n)
    to raised h = absurd (omega arith)
    to (exited false out) h = absurd (omega arith)
    to (exited true []) h = absurd (omega arith)
    to (exited true (c ∷ out)) h =
        let (n, e, k) = positive (int (c ∷ out)) h in (c ∷ out, n, refl, e, k)

    from : (out : Text) (n : ℕ) → int out ≡ some n → 0 < n → 0 < count_of true out
    from [] n e h = cc
    from (c ∷ out) n e h = rw e h

clean_iff :
    (p : Proc)
    → (reports_clean p ≡ true)
      ↔ ((ok : Bool) × (out : Text) × (p ≡ exited ok out) × (strip out ≡ []))
clean_iff p = (to p, λ (ok, out, e, k). rw e (back (strip out) k))
  where
    blank : (s : Text) → elim s [ [] ↦ true | _ ∷ _ ↦ false ] ≡ true → s ≡ []
    blank [] h = refl
    blank (c ∷ s) h = cc

    back : (s : Text) → s ≡ [] → elim s [ [] ↦ true | _ ∷ _ ↦ false ] ≡ true
    back [] h = refl
    back (c ∷ s) h = cc

    to :
        (p : Proc)
        → reports_clean p ≡ true
        → (ok : Bool) × (out : Text) × (p ≡ exited ok out) × (strip out ≡ [])
    to raised h = cc
    to (exited ok out) h = (ok, out, refl, blank (strip out) h)

IsAllowed-iff : (git : Git) (do_pull : Bool) → IsAllowed git do_pull ↔ IsPullable git do_pull
IsAllowed-iff git do_pull = (
  λ h. record {
    fetched = (succeeds_iff (git fetch)).0 h.fetched;
    is_behind = (commits_iff (git rev_list)).0 h.is_behind;
    wanted = h.wanted;
    is_clean = (clean_iff (git status)).0 h.is_clean;
    has_branch = (succeeds_iff (git rev_parse)).0 h.has_branch;
  },
  λ h. record {
    fetched = (succeeds_iff (git fetch)).1 h.fetched;
    is_behind = (commits_iff (git rev_list)).1 h.is_behind;
    wanted = h.wanted;
    is_clean = (clean_iff (git status)).1 h.is_clean;
    has_branch = (succeeds_iff (git rev_parse)).1 h.has_branch;
  },
)

guards_iff :
    (git : Git) (do_pull : Bool)
    → (pulls (fetch_and_maybe_pull git do_pull).0 ≡ true) ↔ IsAllowed git do_pull
unfolding fetch_and_maybe_pull
guards_iff git do_pull = (λ h. ground arith, λ h. ground arith)

abbrev pub reports_pull : Option FetchOutcome → Bool
reports_pull none = false
reports_pull (some out) = out.pulled

-- `git pull` runs exactly when the fetch succeeded, `git rev-list` succeeded and printed a positive
-- number of commits behind, pulling is asked for, `git status` ended, with any exit code, and printed
-- nothing but white space, and an upstream is configured.
pub pulls_iff :
    (git : Git) (do_pull : Bool)
    → (pulls (fetch_and_maybe_pull git do_pull).0 ≡ true) ↔ IsPullable git do_pull
pulls_iff git do_pull =
    let guards = guards_iff git do_pull in
    let same = IsAllowed-iff git do_pull in (λ h. same.0 (guards.0 h), λ h. guards.1 (same.1 h))

-- The outcome says `pulled` exactly when the pull was allowed, ran and succeeded.
reports_pull_iff :
    (git : Git) (do_pull : Bool)
    → (reports_pull (fetch_and_maybe_pull git do_pull).1 ≡ true)
      ↔ (IsAllowed git do_pull × (succeeds (git pull) ≡ true))
unfolding fetch_and_maybe_pull
reports_pull_iff git do_pull = (λ h. (ground arith, ground arith), λ h. ground arith)
