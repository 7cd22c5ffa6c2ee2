-- ===== src/Memory/Decay.antt =====
-- features/memory/decay.py: archiving the facts that nothing has used again. The graph's
-- Observation_v2 nodes are a list, in the order in which the database meets them; a node has the
-- properties that the query reads or sets. Times are in milliseconds; the batch size, read from the
-- environment, is not negative.
pub mod Drain
use ai_forge_memory.Prelude.{
  ℕ, zero, suc, ◌+◌, ◌-◌, ◌*◌, String, Bool, true, false, ◌&&◌, ◌||◌, Option, none, some, List, [],
  ◌∷◌, ◌==◌, ltb, leb, if◌then◌else◌,
}

pub record Observation : Type 0 where
  pub id : String
  pub status : Option String
  pub seen_count : Option ℕ
  pub created_at : Option ℕ
  pub last_seen_at : Option ℕ
  pub archived_at : Option ℕ

-- `status IS NULL OR status = 'active'`
abbrev pub is_active : Option String → Bool
is_active none = true
is_active (some s) = s == "active"

abbrev pub day : ℕ
day = 86400000

-- `t < datetime() - duration({days: $days})`
abbrev pub is_older : ℕ → ℕ → ℕ → Bool
is_older now days t = ltb (t + days * day) now

abbrev pub is_created_before : ℕ → ℕ → Option ℕ → Bool
is_created_before now days none = false
is_created_before now days (some t) = is_older now days t

abbrev pub is_unseen_since : ℕ → ℕ → Option ℕ → Bool
is_unseen_since now days none = true
is_unseen_since now days (some t) = is_older now days t

-- `coalesce(o.seen_count, 1) <= 1`
abbrev pub is_seen_once : Option ℕ → Bool
is_seen_once none = true
is_seen_once (some n) = leb n 1

-- The WHERE clause of `_DECAY_CY`.
unfoldable pub is_stale : ℕ → ℕ → Observation → Bool
is_stale now days o =
    is_active o.status
    && is_seen_once o.seen_count
    && is_created_before now days o.created_at
    && is_unseen_since now days o.last_seen_at

-- The SET clause of `_DECAY_CY`.
abbrev pub archive : ℕ → Observation → Observation
archive now o = record o { status = some "archived"; archived_at = some now }

-- One run of `_DECAY_CY` with its LIMIT: the nodes after it, and `count(o)`.
unfoldable pub archive_batch : ℕ → ℕ → ℕ → List Observation → List Observation × ℕ
archive_batch now days batch [] = ([], 0)
archive_batch now days batch (o ∷ os) =
    let hit = is_stale now days o && ltb 0 batch in
    let rest = archive_batch now days (if hit then batch - 1 else batch) os in
    if hit then (archive now o ∷ rest.0, suc rest.1) else (o ∷ rest.0, rest.1)

-- The loop over at most so many batches; `now` is the database's clock in the rounds left.
unfoldable pub decay_rounds : ℕ → (ℕ → ℕ) → ℕ → ℕ → List Observation → List Observation × ℕ
decay_rounds zero now days batch os = (os, 0)
decay_rounds (suc rounds) now days batch os =
    let done = archive_batch (now rounds) days batch os in
    let rest = decay_rounds rounds now days batch done.0 in
    if ltb done.1 batch then done else (rest.0, done.1 + rest.1)

-- `_MAX_BATCHES`
abbrev pub max_batches : ℕ
max_batches = 50

-- `run_decay`: the nodes after it, and its `archived`.
unfoldable pub run_decay : (ℕ → ℕ) → ℕ → ℕ → List Observation → List Observation × ℕ
run_decay now days batch os = decay_rounds max_batches now days batch os
