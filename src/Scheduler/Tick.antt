-- ===== src/Scheduler/Tick.antt =====
-- features/scheduler/runner.py: `tick_repo`. A tick starts a worker thread, waits for it for a
-- bounded time, and decides what becomes of the lock. `World` is what outlives the tick: the lock
-- files, `_LIVE_WORKERS`, and the threads that run, each with the repository that it ingests.
-- What is not modelled: the log lines.
pub mod Report
pub mod Times
pub mod Threads
use ai_forge_memory.Prelude.{
  ℕ, suc, ◌+◌, ◌*◌, String, Bool, true, false, Option, none, some, is_some, if◌then◌else◌,
}
use ai_forge_memory.Prelude.Map.{put, put_at}
use ai_forge_memory.Scheduler.Config.{RepoSchedule}
use ai_forge_memory.Scheduler.Lock.{Os, Files, acquire_lock, release_lock}
use Report.{RepoStatus, Answers, fresh_status, still_running, locked, timed_out, report}

pub record World : Type 0 where
  pub locks : Files
  pub live : String → Option ℕ
  pub threads : ℕ → Option String
  pub next_thread : ℕ

-- `thread.is_alive()`
abbrev pub is_alive : World → ℕ → Bool
is_alive w t = is_some (w.threads t)

-- A thread ends.
unfoldable pub exit_thread : ℕ → World → World
exit_thread t w = record w { threads = put_at t none w.threads }

-- `_LIVE_WORKERS.pop(name, None); _release_lock(name)`
unfoldable pub release_worker : Os → String → World → World
release_worker os name w = record w {
  locks = release_lock os name w.locks;
  live = put name none w.live;
}

-- What the first half of a tick comes to: a status at once, or a started thread.
pub data Begun : Type 0 where
  skipped : RepoStatus → Begun
  started : ℕ → Begun

-- From `_acquire_lock` to `worker.start()`.
unfoldable pub start_worker : Os → String → RepoStatus → World → World × Begun
start_worker os name status w =
    let (taken, files) = acquire_lock os name w.locks in
    if taken
    then (
      record w {
        locks = files;
        threads = put_at w.next_thread (some name) w.threads;
        next_thread = suc w.next_thread;
      },
      started w.next_thread,
    )
    else (w, skipped (locked status))

-- The first half of `tick_repo`: the zombie's case, the lock, and the start of the thread.
unfoldable pub begin_tick : Os → RepoSchedule → ℕ → World → World × Begun
unfolding start_worker
begin_tick os rs now w =
    let status = fresh_status rs now in
    elim (w.live rs.name) [
      | none ↦ start_worker os rs.name status w
      | some prior ↦
          if is_alive w prior
          then (w, skipped (still_running status))
          else start_worker os rs.name status (release_worker os rs.name w)
    ]

-- The `finally` block, for the thread that the tick started.
unfoldable pub end_tick : Os → String → ℕ → World → World
end_tick os name t w =
    if is_alive w t then record w { live = put name (some t) w.live } else release_worker os name w

-- How the thread fares while the tick waits: `start` raises; it ends in time, with these answers;
-- it ends after the deadline and before `finally` looks; it goes on.
pub data WorkerRun : Type 0 where
  start_failed : WorkerRun
  in_time : Answers → WorkerRun
  late : WorkerRun
  overrun : WorkerRun

-- Does the thread still run when the tick ends?
abbrev pub survives : WorkerRun → Bool
survives overrun = true
survives _ = false

-- `eff_timeout` and `file_count` as `_effective_timeout` gives them. The result is `none` where an
-- exception leaves `tick_repo`.
unfoldable pub finish_tick :
    Os → RepoSchedule → ℕ × ℕ → RepoStatus → WorkerRun → ℕ → World → World × Option RepoStatus
finish_tick os rs limit status start_failed t w = (end_tick os rs.name t (exit_thread t w), none)
finish_tick os rs limit status (in_time a) t w =
    (end_tick os rs.name t (exit_thread t w), some (report status a))
finish_tick os rs limit status late t w =
    (end_tick os rs.name t (exit_thread t w), some (timed_out rs limit status))
finish_tick os rs limit status overrun t w =
    (end_tick os rs.name t w, some (timed_out rs limit status))

-- The second half of `tick_repo`.
unfoldable pub complete_tick :
    Os → RepoSchedule → ℕ × ℕ → ℕ → WorkerRun → World × Begun → World × Option RepoStatus
unfolding finish_tick
complete_tick os rs limit now run (w, skipped status) = (w, some status)
complete_tick os rs limit now run (w, started t) =
    finish_tick os rs limit (fresh_status rs now) run t w

unfoldable pub tick_repo :
    Os → RepoSchedule → ℕ × ℕ → ℕ → WorkerRun → World → World × Option RepoStatus
unfolding complete_tick
tick_repo os rs limit now run w = complete_tick os rs limit now run (begin_tick os rs now w)
