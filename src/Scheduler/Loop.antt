-- ===== src/Scheduler/Loop.antt =====
-- features/scheduler/runner.py: `run_loop`. One round is a sweep over the configured repositories,
-- the decay job, the backoff after a database failure, and the sleep. Each reading of the clock and
-- of the stop flag is a parameter; the log lines and the journal file are not modelled.
pub mod Fairness
pub mod Backoff
use ai_forge_memory.Prelude.{
  ℕ, ◌+◌, ◌*◌, ◌-◌, String, Bool, true, false, ◌&&◌, not, Option, none, some, List, [], ◌∷◌, ltb,
  leb, eqb, if◌then◌else◌, min, max, ◌==◌,
}
use ai_forge_memory.Prelude.Map.{put}
use ai_forge_memory.Scheduler.Config.{RepoSchedule}
use ai_forge_memory.Scheduler.Timeout.{Tree, effective_timeout}
use ai_forge_memory.Scheduler.Lock.{Os}
use ai_forge_memory.Scheduler.Tick.{World, WorkerRun, tick_repo}
use ai_forge_memory.Scheduler.Tick.Report.{RepoStatus}

-- What one visit of a repository meets: the stop flag, the clock as the tick reads it, the
-- repository's files and the configured ceiling of the timeout, and the worker's fate.
pub record Visit : Type 0 where
  pub rs : RepoSchedule
  pub stop : Bool
  pub clock : ℕ
  pub tree : Tree
  pub cap : Option ℕ
  pub run : WorkerRun

-- `due`, `statuses` and `any_neo4j_down`; `halted` where the `for` loop was left, by `break` or by
-- an exception.
pub record Sweep : Type 0 where
  pub world : World
  pub due : String → ℕ
  pub statuses : String → Option RepoStatus
  pub any_neo4j_down : Bool
  pub halted : Bool

unfoldable pub record_status : Sweep → World → String → RepoStatus → Sweep
record_status s w name st = record s {
  world = w;
  due = put name st.next_run s.due;
  statuses = put name (some st) s.statuses;
  any_neo4j_down = if st.last_status == "neo4j_down" then true else s.any_neo4j_down;
}

-- The body of the `for` loop.
unfoldable pub visit : Os → ℕ → Visit → Sweep → Sweep
unfolding record_status
visit os now v s =
    if v.stop
    then record s { halted = true }
    else if ltb now (s.due v.rs.name)
    then s
    else let (w, r) =
        tick_repo os v.rs (effective_timeout v.rs v.tree v.cap) v.clock v.run s.world in
      elim r [
        | none ↦ record s { world = w; halted = true }
        | some st ↦ record_status s w v.rs.name st
      ]

unfoldable pub sweep : Os → ℕ → List Visit → Sweep → Sweep
sweep os now [] s = s
sweep os now (v ∷ vs) s =
    let s' = visit os now v s in elim s'.halted [ true ↦ s' | false ↦ sweep os now vs s' ]

-- `backoff_seconds` after a sweep; `b * 2 or 15` is 15 where `b * 2` is 0.
unfoldable pub next_backoff : Bool → ℕ → ℕ
next_backoff true b = min 300 (max 15 (if eqb (b * 2) 0 then 15 else b * 2))
next_backoff false b = 0

-- The soonest of `due.values()`, with the default of `min`.
pub soonest : (String → ℕ) → List RepoSchedule → ℕ → ℕ
soonest due [] default = default
soonest due (r ∷ []) default = due r.name
soonest due (r ∷ r' ∷ rs) default = min (due r.name) (soonest due (r' ∷ rs) default)

-- The end of the sleep that starts at the clock reading `t`, in a round whose sweep read `now`.
unfoldable pub sleep_end : ℕ → (String → ℕ) → List RepoSchedule → ℕ → ℕ → ℕ
sleep_end backoff due repos now t =
    if eqb backoff 0
    then t + min (max 1000 (soonest due repos (now + 60000) - t)) 5000
    else t + 1000 * backoff

-- Does the decay job run, and when is it next due? `after` is the clock once it has run.
pub decay_turn : Bool → ℕ → ℕ → ℕ → ℕ → Bool × ℕ
decay_turn stop interval t after next_decay_at =
    if not stop && leb next_decay_at t
    then (true, after + 1000 * interval)
    else (false, next_decay_at)
