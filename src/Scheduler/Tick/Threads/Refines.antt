-- ===== src/Scheduler/Tick/Threads/Refines.antt =====
-- features/scheduler/runner.py: `tick_repo` as a whole is a run of the steps, and what a tick leaves.
use ai_forge_memory.Prelude.{ℕ, none, some, ◌≡◌, refl, if◌then◌else◌, arith, eq_iff}
use ai_forge_memory.Scheduler.Config.{RepoSchedule}
use ai_forge_memory.Scheduler.Lock.{Os, safe, acquire_lock, release_lock}
use ai_forge_memory.Scheduler.Tick.{
  World, Begun, skipped, started, exit_thread, release_worker, start_worker, begin_tick, end_tick,
  WorkerRun, start_failed, in_time, late, overrun, survives, complete_tick, tick_repo,
}
use ai_forge_memory.Scheduler.Tick.Threads.{
  Machine, waiting, begin, exit, finish, Reach, here, next,
}

-- A world between two ticks.
abbrev rest : World → Machine
rest w = record { world = w; active = none }

module _ (os : Os) (rs : RepoSchedule) (limit : ℕ × ℕ) (now : ℕ) (w : World) where
  begun_step :
      (w' : World) (b : Begun)
      → begin_tick os rs now w ≡ (w', b)
      → Reach os (rest w) (record { world = w'; active = waiting rs.name b })
  begun_step w' b e = next here (begin rs now refl (cc e))

  exit_step :
      (m : Machine) (t : ℕ)
      → Reach os (rest w) m
      → Reach os (rest w) (record m { world = exit_thread t m.world })
  exit_step m t r = next r (exit t refl)

  finally_step :
      (m : Machine) (t : ℕ)
      → m.active ≡ some (rs.name, t)
      → Reach os (rest w) m
      → Reach os (rest w) (rest (end_tick os rs.name t m.world))
  finally_step m t e r = next r (finish rs.name t e refl)

  complete_tick-Reach :
      (begun : World × Begun) (run : WorkerRun)
      → begin_tick os rs now w ≡ begun
      → Reach os (rest w) (rest (complete_tick os rs limit now run begun).0)
  unfolding complete_tick
  complete_tick-Reach (w', skipped s) run e = begun_step w' (skipped s) e
  complete_tick-Reach (w', started t) overrun e =
      finally_step (record { world = w'; active = some (rs.name, t) }) t refl
        (begun_step w' (started t) e)
  complete_tick-Reach (w', started t) start_failed e =
      finally_step (record { world = exit_thread t w'; active = some (rs.name, t) }) t refl
        (exit_step (record { world = w'; active = some (rs.name, t) }) t
          (begun_step w' (started t) e))
  complete_tick-Reach (w', started t) (in_time a) e =
      finally_step (record { world = exit_thread t w'; active = some (rs.name, t) }) t refl
        (exit_step (record { world = w'; active = some (rs.name, t) }) t
          (begun_step w' (started t) e))
  complete_tick-Reach (w', started t) late e =
      finally_step (record { world = exit_thread t w'; active = some (rs.name, t) }) t refl
        (exit_step (record { world = w'; active = some (rs.name, t) }) t
          (begun_step w' (started t) e))

  -- A whole tick, however its worker fares, is a run of the steps from one rest to the next.
  tick_repo-Reach : (run : WorkerRun) → Reach os (rest w) (rest (tick_repo os rs limit now run w).0)
  unfolding tick_repo
  tick_repo-Reach run = complete_tick-Reach (begin_tick os rs now w) run refl

-- A zombie that has ended no longer blocks its repository: the next tick takes the lock again and
-- starts a worker, whatever that lock file holds.
pub begin_tick_after_zombie :
    (os : Os) (rs : RepoSchedule) (now prior : ℕ) (w : World)
    → w.live rs.name ≡ some prior
    → w.threads prior ≡ none
    → (begin_tick os rs now w).1 ≡ started w.next_thread
unfolding begin_tick release_worker release_lock start_worker acquire_lock
begin_tick_after_zombie os rs now prior w e dead =
    ground (arith, eq_iff (safe os rs.name) (safe os rs.name))

-- What a tick that started its worker leaves: if the worker survives the tick, it is on record and
-- the lock file names this process; otherwise, whether the start failed, the worker ended in time
-- or after the deadline, there is no record of the repository and no lock file.
pub tick_repo_leaves :
    (os : Os) (rs : RepoSchedule) (limit : ℕ × ℕ) (now : ℕ) (run : WorkerRun) (w : World)
    → (begin_tick os rs now w).1 ≡ started w.next_thread
    → let w' = (tick_repo os rs limit now run w).0 in
      (w'.live rs.name ≡ (if survives run then some w.next_thread else none))
      × (w'.locks (safe os rs.name) ≡ (if survives run then some (some os.pid) else none))
unfolding tick_repo begin_tick end_tick exit_thread release_worker release_lock start_worker
    acquire_lock
tick_repo_leaves os rs limit now start_failed w e =
    ground (arith, eq_iff (safe os rs.name) (safe os rs.name), eq_iff rs.name rs.name)
tick_repo_leaves os rs limit now run w e =
    ground (arith, eq_iff (safe os rs.name) (safe os rs.name), eq_iff rs.name rs.name)
