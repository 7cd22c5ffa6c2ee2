-- ===== src/Tests/Scheduler.antt =====
-- features/scheduler/runner.py at concrete inputs.
use ai_forge_memory.Prelude.{
  ℕ, ◌<◌, true, false, none, some, [], ◌∷◌, ◌≡◌, ◌==◌, refl, sym, eq_iff, eqb, ◌↔◌, inl, inr, arith,
  if◌then◌else◌,
}
use ai_forge_memory.Prelude.Text.{codes, lower, int}
use ai_forge_memory.Scheduler.Config.{RepoSchedule, repo_schedule}
use ai_forge_memory.Scheduler.Config.Edits.{IsConfigured}
use ai_forge_memory.Scheduler.Timeout.{nil, effective_timeout}
use ai_forge_memory.Scheduler.Fetch.{
  Git, fetch, rev_list, status, rev_parse, pull, exited, fetch_and_maybe_pull,
}
use ai_forge_memory.Scheduler.Fetch.Safety.{pulls, IsPullable, pulls_iff}
use ai_forge_memory.Scheduler.Lock.{Os, Files, safe, acquire_lock, release_lock}
use ai_forge_memory.Scheduler.Tick.{
  World, in_time, overrun, begin_tick, end_tick, start_worker, release_worker, tick_repo,
  exit_thread, finish_tick, complete_tick,
}
use ai_forge_memory.Scheduler.Tick.Report.{
  RepoStatus, Answers, message, threw, returned, fresh_status, report, work, failed,
}
use ai_forge_memory.Scheduler.Tick.Threads.{Machine, after_begin, begin, finish, here, next}
use ai_forge_memory.Scheduler.Tick.Threads.Exclusion.{boot, Reach-exclusive}
use ai_forge_memory.Scheduler.Tick.Threads.Refines.{begin_tick_after_zombie, tick_repo_leaves}
use ai_forge_memory.Scheduler.Loop.{Visit, Sweep, sweep, visit, record_status}
use ai_forge_memory.Scheduler.Loop.Fairness.{sweep_serves_each}

abbrev host : Os
host = record { pid = 7; signal_ok = λ p. eqb p 7; is_alnum = λ c. true }

-- The lock file of a process that has died.
abbrev stale_locks : Files
stale_locks n = some (some 3)

abbrev api : RepoSchedule
api = record (repo_schedule "api" "/srv/api") { per_file_millis = 500 }

abbrev web : RepoSchedule
web = repo_schedule "web" "/srv/web"

-- `api` timed out and goes on; the tick of `web` has begun.
abbrev api_begun : Machine
api_begun = after_begin host api 5000 (boot stale_locks).world

abbrev api_overran : Machine
api_overran = record { world = end_tick host "api" 0 api_begun.world; active = none }

abbrev web_begun : Machine
web_begun = after_begin host web 6000 api_overran.world

Reach-exclusive_example :
    let t : ℕ = 0 in (t ≡ t) × (web_begun.world.locks (safe host "api") ≡ some (some 7))
unfolding begin_tick start_worker acquire_lock end_tick release_worker release_lock safe
Reach-exclusive_example =
    Reach-exclusive host stale_locks web_begun refl
      (next (next (next here (begin api 5000 refl refl)) (finish "api" 0 refl refl))
        (begin web 6000 refl refl))
      0 0 "api" "api" refl refl refl

abbrev first_world : World
first_world = (boot stale_locks).world

-- A world in which thread 0 of `api` was left running and has ended since.
abbrev ended_world : World
ended_world = record {
  locks = λ n. some (some 7);
  live = λ n. some 0;
  threads = λ t. none;
  next_thread = 1;
}

-- The next tick starts a worker, which outlives it.
tick_repo_leaves_example :
    let w' = (tick_repo host api (1800, 3) 9000 overrun ended_world).0 in
    (w'.live "api" ≡ some 1) × (w'.locks (safe host "api") ≡ some (some 7))
tick_repo_leaves_example =
    tick_repo_leaves host api (1800, 3) 9000 overrun ended_world
      (begin_tick_after_zombie host api 9000 0 ended_world refl refl)

abbrev down : Answers
down = record {
  fetch = returned (record { fetched = true; pulled = false; behind = 0; skipped_reason = "" });
  delta = threw (codes "Service unavailable");
  full = threw [];
}

abbrev down_status : RepoStatus
down_status = record (fresh_status api 9000) {
  last_status = "neo4j_down";
  last_error = message (codes "Service unavailable");
}

abbrev api_visit : Visit
api_visit = record {
  rs = api;
  stop = false;
  clock = 10000;
  tree = nil;
  cap = none;
  run = in_time down;
}

abbrev fresh_sweep : Sweep
fresh_sweep = record {
  world = first_world;
  due = λ n. if n == "api" then 0 else 20000;
  statuses = λ n. none;
  any_neo4j_down = false;
  halted = false;
}

sweep_serves_each_example : 10000 < (sweep host 10000 (api_visit ∷ []) fresh_sweep).due "api"
unfolding sweep visit record_status effective_timeout tick_repo complete_tick finish_tick begin_tick
    start_worker acquire_lock release_lock release_worker end_tick exit_thread report work failed
    fresh_status lower safe
sweep_serves_each_example =
    sweep_serves_each host 10000 (api_visit ∷ []) fresh_sweep ((omega arith, omega arith), tt) refl
      api_visit (inl refl)

-- A clean checkout two commits behind.
abbrev behind_git : Git
behind_git fetch = exited true []
behind_git rev_list = exited true (codes "2")
behind_git status = exited true []
behind_git rev_parse = exited true (codes "main")
behind_git pull = exited true []

pulls_iff_example :
    (pulls (fetch_and_maybe_pull behind_git true).0 ≡ true) ↔ IsPullable behind_git true
pulls_iff_example = pulls_iff behind_git true

-- The commands that run there, in order.
behind_commands :
    (fetch_and_maybe_pull behind_git true).0 ≡ fetch ∷ rev_list ∷ status ∷ rev_parse ∷ pull ∷ []
unfolding fetch_and_maybe_pull int
behind_commands = refl

other_names : ¬ IsConfigured "web" (api ∷ [])
other_names (inl e) = cc ((eq_iff "web" "api").1 (sym e))
other_names (inr c) = c
