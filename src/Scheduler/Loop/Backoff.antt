-- ===== src/Scheduler/Loop/Backoff.antt =====
-- features/scheduler/runner.py: the pauses between sweeps.
use ai_forge_memory.Prelude.{
  ℕ, zero, suc, ◌+◌, ◌*◌, ◌^◌, ◌≤◌, String, true, false, List, ◌≡◌, refl, arith, min, max,
}
use ai_forge_memory.Scheduler.Config.{RepoSchedule}
use ai_forge_memory.Scheduler.Loop.{next_backoff, soonest, sleep_end}
use native.Mathlib.Nat.{pow-suc}

-- The backoff after `k` sweeps in a row that met a database failure, from none.
abbrev pub backoff_after : ℕ → ℕ
backoff_after zero = 0
backoff_after (suc k) = next_backoff true (backoff_after k)

pow_pos : (k : ℕ) → 1 ≤ 2 ^ k
pow_pos zero = omega arith
pow_pos (suc k) = omega (arith, pow_pos k, pow-suc 2 k)

doubled : (j : ℕ) → backoff_after (suc j) ≡ min 300 (15 * 2 ^ j)
unfolding next_backoff
doubled zero = refl
doubled (suc j) = rw (doubled j) (ground (arith, pow_pos j, pow-suc 2 j))

-- The k-th failing sweep in a row waits 15 seconds times 2 to the k - 1, and never more than 300;
-- a sweep without a failure resets the wait to none.
next_backoff_exponential :
    (k : ℕ)
    → (next_backoff true (backoff_after k) ≡ min 300 (15 * 2 ^ k))
      × (next_backoff false (backoff_after k) ≡ 0)
unfolding next_backoff
next_backoff_exponential k = (doubled k, refl)

-- Without backoff a sleep that starts at `t` ends between one and five seconds later, and no later
-- than the soonest due time, or one second from `t` where that is later. In backoff it lasts
-- exactly the backoff.
sleep_end_bounds :
    (backoff : ℕ) (due : String → ℕ) (rs : List RepoSchedule) (now t : ℕ)
    → let e = sleep_end 0 due rs now t in
      (t + 1000 ≤ e)
      × (e ≤ t + 5000)
      × (e ≤ max (soonest due rs (now + 60000)) (t + 1000))
      × (sleep_end (suc backoff) due rs now t ≡ t + 1000 * suc backoff)
unfolding sleep_end
sleep_end_bounds backoff due rs now t = (omega arith, omega arith, omega arith, ground arith)
