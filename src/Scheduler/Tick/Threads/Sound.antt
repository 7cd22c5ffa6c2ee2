-- ===== src/Scheduler/Tick/Threads/Sound.antt =====
-- features/scheduler/runner.py: what each step of the threads does to the record of running workers.
use ai_forge_memory.Prelude.{
  ℕ, String, true, false, none, some, ◌≡◌, ◌≢◌, sym, ap, ◌⊎◌, inl, inr, arith, eq_iff, Bool-cases,
  text_cases, eqb, eqb_iff, suc, ◌∙◌,
}
use ai_forge_memory.Prelude.Map.{put, put_at, put_self, put_ne}
use ai_forge_memory.Scheduler.Lock.{Os, safe, blocked, acquire_lock, release_lock}
use ai_forge_memory.Scheduler.Tick.{World, exit_thread, release_worker, start_worker}
use ai_forge_memory.Scheduler.Tick.Report.{RepoStatus}
use ai_forge_memory.Scheduler.Tick.Threads.{Machine, waiting, Owns, IsSound}

pub exit-IsSound :
    (os : Os) (m : Machine) (t : ℕ)
    → IsSound os m
    → IsSound os (record m { world = exit_thread t m.world })
unfolding exit_thread
exit-IsSound os m t h = record {
  owned = λ u n e. h.owned u n (ground arith);
  locked = h.locked;
  unique = h.unique;
}

module _ (os : Os) (m : Machine) (a : String) (t : ℕ) (h : IsSound os m) (own : Owns m t a)
    (dead : m.world.threads t ≡ none) (act : (m.active ≡ none) ⊎ (m.active ≡ some (a, t))) where
  -- The machine whose record of `a` is released: its thread `t` is dead.
  abbrev pub released : Machine
  released = record { world = release_worker os a m.world; active = none }

  released-Owns : (u : ℕ) (n : String) → Owns released u n → Owns m u n × (n ≢ a)
  unfolding release_worker
  released-Owns u n (inl e) = (inl (ground (arith, eq_iff a n)), λ p. ground (arith, eq_iff a n))
  released-Owns u n (inr e) = cc

  still_owned : (u : ℕ) (n : String) → n ≢ a → Owns m u n → Owns released u n
  unfolding release_worker
  still_owned u n ne (inl e) = inl (ground (arith, eq_iff a n))
  still_owned u n ne (inr e) = elim act [ inl p ↦ cc | inr p ↦ absurd (ne (cc)) ]

  pub release-IsSound : IsSound os released
  unfolding release_worker release_lock
  release-IsSound = record {
    owned = λ u n e. elim (text_cases n a) [
      | inl p ↦
          let q : (u ≡ t) × (n ≡ a) = h.unique u t n a (h.owned u n e) own (ap (safe os) p) in
          cc q.0
      | inr p ↦ still_owned u n p.1 (h.owned u n e)
    ];
    locked = λ u n o.
        let (old, ne) = released-Owns u n o in
        rw
          (put_ne (safe os a) (safe os n) none m.world.locks
            (λ p. ne (h.unique u t n a old own (sym p)).1))
          (h.locked u n old);
    unique = λ u v n k o p e. h.unique u v n k (released-Owns u n o).0 (released-Owns v k p).0 e;
  }

-- The worker that a tick waited for is kept on record in `_LIVE_WORKERS`.
module _ (os : Os) (m : Machine) (a : String) (t : ℕ) (h : IsSound os m)
    (act : m.active ≡ some (a, t)) where
  abbrev pub kept : Machine
  kept = record { world = record m.world { live = put a (some t) m.world.live }; active = none }

  kept-Owns : (u : ℕ) (n : String) → Owns kept u n → Owns m u n
  kept-Owns u n (inl e) = elim (text_cases n a) [
    | inl p ↦ inr (cc (put_self a (some t) m.world.live))
    | inr p ↦ inl (sym (put_ne a n (some t) m.world.live (λ q. p.1 (sym q))) ∙ e)
  ]
  kept-Owns u n (inr e) = cc

  into_kept : (u : ℕ) (n : String) → Owns m u n → Owns kept u n
  into_kept u n o = elim (text_cases n a) [
    | inl p ↦
        inl
          (cc (put_self a (some t) m.world.live, (h.unique u t n a o (inr act) (ap (safe os) p)).0))
    | inr p ↦ elim o [
      | inl e ↦ inl (put_ne a n (some t) m.world.live (λ q. p.1 (sym q)) ∙ e)
      | inr e ↦ absurd (p.1 (cc))
    ]
  ]

  pub kept-IsSound : IsSound os kept
  kept-IsSound = record {
    owned = λ u n e. into_kept u n (h.owned u n e);
    locked = λ u n o. h.locked u n (kept-Owns u n o);
    unique = λ u v n k o p e. h.unique u v n k (kept-Owns u n o) (kept-Owns v k p) e;
  }

module _ (os : Os) (alive : os.signal_ok os.pid ≡ true) (a : String) (w : World) where
  abbrev pub idle : Machine
  idle = record { world = w; active = none }

  -- The machine after a lock was taken and a thread was started for `a`.
  abbrev grown : Machine
  grown = record {
    world = record w {
      locks = put (safe os a) (some (some os.pid)) w.locks;
      threads = put_at w.next_thread (some a) w.threads;
      next_thread = suc w.next_thread;
    };
    active = some (a, w.next_thread);
  }

  module _ (h : IsSound os idle) (free : blocked os (w.locks (safe os a)) ≡ false) where
    -- No repository on record has this lock: a lock on record is this process's, and it is alive.
    apart : (u : ℕ) (n : String) → Owns idle u n → safe os n ≢ safe os a
    apart u n o e = cc (h.locked u n o, ap w.locks e, alive)

    grown-Owns :
        (u : ℕ) (n : String) → Owns grown u n → Owns idle u n ⊎ ((u ≡ w.next_thread) × (n ≡ a))
    grown-Owns u n (inl e) = inl (inl e)
    grown-Owns u n (inr e) = inr (cc, cc)

    grown-IsSound : IsSound os grown
    grown-IsSound = record {
      owned = λ u n e. elim (Bool-cases (eqb w.next_thread u)) [
        | inl p ↦ inr (ground (arith, eqb_iff w.next_thread u))
        | inr p ↦ elim (h.owned u n (rw p at e)) [ inl q ↦ inl q | inr q ↦ cc ]
      ];
      locked = λ u n o. elim (grown-Owns u n o) [
        | inl q ↦
            rw
              (put_ne (safe os a) (safe os n) (some (some os.pid)) w.locks
                (λ p. apart u n q (sym p)))
              (h.locked u n q)
        | inr q ↦ rw (q.1) (put_self (safe os a) (some (some os.pid)) w.locks)
      ];
      unique = λ u v n k o p e. elim (grown-Owns u n o) [
        | inl x ↦ elim (grown-Owns v k p) [
          | inl y ↦ h.unique u v n k x y e
          | inr y ↦ absurd (apart u n x (e ∙ ap (safe os) y.1))
        ]
        | inr x ↦ elim (grown-Owns v k p) [
          | inl y ↦ absurd (apart v k y (sym e ∙ ap (safe os) x.1))
          | inr y ↦ (x.0 ∙ sym y.0, x.1 ∙ sym y.1)
        ]
      ];
    }

  pub start-IsSound :
      (st : RepoStatus)
      → IsSound os idle
      → let (w', begun) = start_worker os a st w in
        IsSound os (record { world = w'; active = waiting a begun })
  unfolding start_worker acquire_lock
  start-IsSound st h = elim (Bool-cases (blocked os (w.locks (safe os a)))) [
    | inl taken ↦ rw taken h
    | inr free ↦ rw free (grown-IsSound h free)
  ]
