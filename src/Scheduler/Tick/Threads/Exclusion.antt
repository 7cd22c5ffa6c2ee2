-- ===== src/Scheduler/Tick/Threads/Exclusion.antt =====
-- features/scheduler/runner.py: no two threads ever ingest under one lock file.
use ai_forge_memory.Prelude.{ℕ, String, true, none, some, ◌≡◌, refl, inl, inr, Option-cases, subst}
use ai_forge_memory.Scheduler.Config.{RepoSchedule}
use ai_forge_memory.Scheduler.Lock.{Os, Files, safe}
use ai_forge_memory.Scheduler.Tick.{World, release_worker, begin_tick, end_tick}
use ai_forge_memory.Scheduler.Tick.Report.{fresh_status}
use ai_forge_memory.Scheduler.Tick.Threads.{
  Machine, IsSound, after_begin, Step, begin, exit, finish, Reach, here, next,
}
use ai_forge_memory.Scheduler.Tick.Threads.Sound.{
  kept-IsSound, exit-IsSound, release-IsSound, start-IsSound,
}

module _ (os : Os) (alive : os.signal_ok os.pid ≡ true) where
  begin-IsSound :
      (rs : RepoSchedule) (now : ℕ) (w : World)
      → IsSound os (record { world = w; active = none })
      → IsSound os (after_begin os rs now w)
  unfolding begin_tick
  begin-IsSound rs now w h = elim (Option-cases (w.live rs.name)) [
    | inl e ↦ rw (e, begin_tick) (start-IsSound os alive rs.name w (fresh_status rs now) h)
    | inr (t, e) ↦ elim (Option-cases (w.threads t)) [
      | inl dead ↦
          rw (e, begin_tick, dead, after_begin)
            (start-IsSound os alive rs.name (release_worker os rs.name w) (fresh_status rs now) (
              release-IsSound os (record { world = w; active = none }) rs.name t h (inl e) dead
                (inl refl)))
      | inr (n, runs) ↦ rw (e, begin_tick, runs) h
    ]
  ]

  finish-IsSound :
      (name : String) (t : ℕ) (m : Machine)
      → m.active ≡ some (name, t)
      → IsSound os m
      → IsSound os (record { world = end_tick os name t m.world; active = none })
  unfolding end_tick
  finish-IsSound name t m e h = elim (Option-cases (m.world.threads t)) [
    | inl dead ↦ rw dead (release-IsSound os m name t h (inr e) dead (inr e))
    | inr (n, runs) ↦ rw runs (kept-IsSound os m name t h e)
  ]

  Step-IsSound : (m m' : Machine) → Step os m m' → IsSound os m → IsSound os m'
  Step-IsSound m m' (begin rs now e p) h = rw p (
      begin-IsSound rs now m.world
        (subst (λ x. IsSound os (record { world = m.world; active = x })) e h))
  Step-IsSound m m' (exit t p) h = rw p (exit-IsSound os m t h)
  Step-IsSound m m' (finish name t e p) h = rw p (finish-IsSound name t m e h)

  Reach-IsSound : {m m' : Machine} → IsSound os m → Reach os m m' → IsSound os m'
  Reach-IsSound h here = h
  Reach-IsSound h (next {m'} {m''} r s) = Step-IsSound m' m'' s (Reach-IsSound h r)

-- A process that has just started: any lock files, no worker on record and no thread.
abbrev pub boot : Files → Machine
boot files = record {
  world = record { locks = files; live = λ n. none; threads = λ t. none; next_thread = 0 };
  active = none;
}

boot-IsSound : (os : Os) (files : Files) → IsSound os (boot files)
boot-IsSound os files = record {
  owned = λ t n e. cc;
  locked = λ t n o. elim o [ inl e ↦ cc | inr e ↦ cc ];
  unique = λ t u n k o p e. elim o [ inl q ↦ cc | inr q ↦ cc ];
}

-- From the start of the process, however ticks, thread ends and `finally` blocks interleave: two
-- threads that run under one lock file are the same thread, and the lock file of a running thread
-- names this process. The process can signal itself.
pub Reach-exclusive :
    (os : Os) (files : Files) (m : Machine)
    → os.signal_ok os.pid ≡ true
    → Reach os (boot files) m
    → (t u : ℕ) (n k : String) → m.world.threads t ≡ some n
    → m.world.threads u ≡ some k
    → safe os n ≡ safe os k
    → (t ≡ u) × (m.world.locks (safe os n) ≡ some (some os.pid))
Reach-exclusive os files m alive r t u n k p q e =
    let h : IsSound os m = Reach-IsSound os alive (boot-IsSound os files) r in
    ((h.unique t u n k (h.owned t n p) (h.owned u k q) e).0, h.locked t n (h.owned t n p))
