-- ===== src/Scheduler/Tick/Threads.antt =====
-- features/scheduler/runner.py: the scheduler's threads as a step relation. A tick is two steps, its
-- start and its `finally` block, and any thread may end between any two steps.
mod Sound
pub mod Exclusion
pub mod Refines
use ai_forge_memory.Prelude.{ℕ, String, Option, none, some, ◌≡◌, ◌⊎◌, ◌<◌}
use ai_forge_memory.Scheduler.Config.{RepoSchedule}
use ai_forge_memory.Scheduler.Lock.{Os, safe}
use ai_forge_memory.Scheduler.Tick.{
  World, Begun, skipped, started, exit_thread, begin_tick, end_tick,
}

-- The world, and the thread that a tick now waits for, with its repository.
pub record Machine : Type 0 where
  pub world : World
  pub active : Option (String × ℕ)

abbrev pub waiting : String → Begun → Option (String × ℕ)
waiting name (skipped s) = none
waiting name (started t) = some (name, t)

abbrev pub after_begin : Os → RepoSchedule → ℕ → World → Machine
after_begin os rs now w =
    let (w', begun) = begin_tick os rs now w in
    record { world = w'; active = waiting rs.name begun }

pub data Step (os : Os) (m : Machine) (m' : Machine) : Type 0 where
  begin :
      (rs : RepoSchedule) (now : ℕ)
      → m.active ≡ none
      → m' ≡ after_begin os rs now m.world
      → Step os m m'
  exit : (t : ℕ) → m' ≡ record m { world = exit_thread t m.world } → Step os m m'
  finish :
      (name : String) (t : ℕ)
      → m.active ≡ some (name, t)
      → m' ≡ record { world = end_tick os name t m.world; active = none }
      → Step os m m'

pub data Reach (os : Os) (m : Machine) : Machine → Type 0 where
  here : Reach os m m
  next : {m' m'' : Machine} → Reach os m m' → Step os m' m'' → Reach os m m''

-- The repository `name` is on record as ingested by `t`.
abbrev pub Owns : Machine → ℕ → String → Type 0
Owns m t name = (m.world.live name ≡ some t) ⊎ (m.active ≡ some (name, t))

pub record IsSound (os : Os) (m : Machine) : Type 0 where
  pub owned : (t : ℕ) (n : String) → m.world.threads t ≡ some n → Owns m t n
  pub locked : (t : ℕ) (n : String) → Owns m t n → m.world.locks (safe os n) ≡ some (some os.pid)
  pub unique :
      (t u : ℕ) (n k : String) → Owns m t n → Owns m u k → safe os n ≡ safe os k → (t ≡ u) × (n ≡ k)
