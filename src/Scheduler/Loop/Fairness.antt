-- ===== src/Scheduler/Loop/Fairness.antt =====
-- features/scheduler/runner.py: which repositories a sweep visits.
use ai_forge_memory.Prelude.{
  ℕ, ◌≤◌, ◌<◌, String, false, List, [], ◌∷◌, ◌≡◌, refl, arith, All, Bool-cases, Option-cases, inl,
  inr, eq_iff, sym, ◌∙◌,
}
use mathlib.Core.Bool.{false≢true}
use ai_forge_memory.Prelude.Sort.{In}
use ai_forge_memory.Scheduler.Lock.{Os}
use ai_forge_memory.Scheduler.Timeout.{effective_timeout}
use ai_forge_memory.Scheduler.Tick.{tick_repo}
use ai_forge_memory.Scheduler.Tick.Times.{tick_repo-IsStamped}
use ai_forge_memory.Scheduler.Loop.{Visit, Sweep, visit, sweep}

module _ (os : Os) (now : ℕ) where
  -- One visit leaves a repository alone that is not due.
  visit-not_due :
      (n : String) (v : Visit) (s : Sweep)
      → now < s.due n
      → ((visit os now v s).due n ≡ s.due n) × ((visit os now v s).statuses n ≡ s.statuses n)
  unfolding visit
  visit-not_due n v s h = ground (arith, eq_iff v.rs.name n)

  -- A repository that is not due when the sweep begins keeps its due time and its status.
  sweep-not_due :
      (n : String) (vs : List Visit) (s : Sweep)
      → now < s.due n
      → ((sweep os now vs s).due n ≡ s.due n) × ((sweep os now vs s).statuses n ≡ s.statuses n)
  unfolding sweep
  sweep-not_due n [] s h = (refl, refl)
  sweep-not_due n (v ∷ vs) s h =
      ground (arith, visit-not_due n v s h, sweep-not_due n vs (visit os now v s))

-- The clock does not run backwards from the sweep's reading, and the interval is at least a second.
abbrev pub Advances : ℕ → Visit → Type 0
Advances now v = (now ≤ v.clock) × (1 ≤ v.rs.interval_seconds)

module _ (os : Os) (now : ℕ) where
  visit-served :
      (v : Visit) (s : Sweep)
      → Advances now v
      → (visit os now v s).halted ≡ false
      → now < (visit os now v s).due v.rs.name
  unfolding visit
  visit-served v s (forward, positive) h =
      let limit : ℕ × ℕ = effective_timeout v.rs v.tree v.cap in
      elim (Option-cases (tick_repo os v.rs limit v.clock v.run s.world).1) [
        | inl e ↦ ground arith
        | inr (st, e) ↦ ground (
          arith,
          tick_repo-IsStamped v.rs v.clock os limit v.run s.world e,
          eq_iff v.rs.name v.rs.name,
        )
      ]

  -- A sweep that runs to its end has served every repository it went over: the next run of each is
  -- later than the clock reading with which the sweep began. The clock does not run backwards, and
  -- every interval is at least one second.
  pub sweep_serves_each :
      (vs : List Visit) (s : Sweep)
      → All (Advances now) vs
      → (sweep os now vs s).halted ≡ false
      → (v : Visit) → In v vs
      → now < (sweep os now vs s).due v.rs.name
  unfolding sweep
  sweep_serves_each [] s a h v m = absurd m
  sweep_serves_each (x ∷ vs) s a h v m = elim (Bool-cases (visit os now x s).halted) [
    | inl stop ↦ absurd (false≢true (sym h ∙ (rw (stop, sweep) stop)))
    | inr go ↦
        let s' : Sweep = visit os now x s in
        let h' : (sweep os now vs s').halted ≡ false = (rw (go, sweep) at h) in
        rw (go, sweep)
          (elim m [
            | inl e ↦
                let served : now < s'.due x.rs.name = visit-served x s a.0 go in
                let kept : (sweep os now vs s').due x.rs.name ≡ s'.due x.rs.name =
                  (sweep-not_due os now x.rs.name vs s' served).0 in
                rw e (omega (arith, kept, served))
            | inr m' ↦ sweep_serves_each vs s' a.1 h' v m'
          ])
  ]
