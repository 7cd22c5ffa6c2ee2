-- ===== src/Scheduler/Tick/Times.antt =====
-- features/scheduler/runner.py: the times and the name in the status of a tick.
use ai_forge_memory.Prelude.{ℕ, ◌+◌, ◌*◌, some, ◌≡◌, refl, arith}
use ai_forge_memory.Scheduler.Config.{RepoSchedule}
use ai_forge_memory.Scheduler.Lock.{Os}
use ai_forge_memory.Scheduler.Tick.{
  World, Begun, skipped, started, start_worker, begin_tick, WorkerRun, start_failed, in_time, late,
  overrun, complete_tick, tick_repo,
}
use ai_forge_memory.Scheduler.Tick.Report.{
  RepoStatus, Answers, fresh_status, still_running, locked, timed_out, work, failed, succeeded,
  report,
}

-- The status is that of the repository and of the clock reading at the tick's start.
abbrev pub IsStamped : RepoSchedule → ℕ → RepoStatus → Type 0
IsStamped rs now st =
    (st.name ≡ rs.name) × (st.last_run ≡ now) × (st.next_run ≡ now + 1000 * rs.interval_seconds)

module _ (rs : RepoSchedule) (now : ℕ) where
  fresh_status-IsStamped : IsStamped rs now (fresh_status rs now)
  unfolding fresh_status
  fresh_status-IsStamped = (refl, refl, refl)

  report-IsStamped :
      (s : RepoStatus) (a : Answers) → IsStamped rs now s → IsStamped rs now (report s a)
  unfolding report work failed succeeded
  report-IsStamped s a h = ground arith

  abbrev BegunStamped : Begun → Type 0
  BegunStamped (skipped st) = IsStamped rs now st
  BegunStamped (started t) = Unit

  begin_tick-IsStamped : (os : Os) (w : World) → BegunStamped (begin_tick os rs now w).1
  unfolding begin_tick start_worker still_running locked fresh_status
  begin_tick-IsStamped os w = ground arith

  complete_tick-IsStamped :
      (os : Os) (limit : ℕ × ℕ) (run : WorkerRun) (begun : World × Begun) {st : RepoStatus}
      → BegunStamped begun.1
      → (complete_tick os rs limit now run begun).1 ≡ some st
      → IsStamped rs now st
  unfolding complete_tick timed_out fresh_status
  complete_tick-IsStamped os limit run (w, skipped s) b e = ground arith
  complete_tick-IsStamped os limit start_failed (w, started t) b e = cc
  complete_tick-IsStamped os limit (in_time a) (w, started t) b e =
      ground (arith, report-IsStamped (fresh_status rs now) a fresh_status-IsStamped)
  complete_tick-IsStamped os limit late (w, started t) b e = ground arith
  complete_tick-IsStamped os limit overrun (w, started t) b e = ground arith

  -- Whatever a tick comes to (a status at once, a report, an error or a timeout), its status names
  -- the repository and the clock reading, and the next run is due one interval later.
  pub tick_repo-IsStamped :
      (os : Os) (limit : ℕ × ℕ) (run : WorkerRun) (w : World) {st : RepoStatus}
      → (tick_repo os rs limit now run w).1 ≡ some st
      → IsStamped rs now st
  unfolding tick_repo
  tick_repo-IsStamped os limit run w e =
      complete_tick-IsStamped os limit run (begin_tick os rs now w) (begin_tick-IsStamped os w) e
