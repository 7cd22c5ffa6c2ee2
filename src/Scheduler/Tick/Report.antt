-- ===== src/Scheduler/Tick/Report.antt =====
-- features/scheduler/runner.py: the status that a tick reports, from what its worker met.
use ai_forge_memory.Prelude.{
  ℕ, ◌+◌, ◌*◌, String, Bool, false, ◌||◌, Option, none, some, take, if◌then◌else◌, ◌==◌, ltb,
}
use ai_forge_memory.Prelude.Text.{Text, codes, lower, is_infix}
use ai_forge_memory.Ingest.{IngestResult}
use ai_forge_memory.Scheduler.Config.{RepoSchedule}
use ai_forge_memory.Scheduler.Fetch.{FetchOutcome}

-- `last_error`: the empty text; the text of an exception; or the message about the timeout, with
-- the seconds and, where the timeout was scaled, the file count.
pub data LastError : Type 0 where
  clear : LastError
  message : Text → LastError
  exceeded : ℕ → Option ℕ → LastError

pub record RepoStatus : Type 0 where
  pub name : String
  pub last_run : ℕ
  pub last_status : String
  pub last_pulled : Bool
  pub last_behind : ℕ
  pub last_error : LastError
  pub next_run : ℕ

-- What a call in the worker returns, or the text of the exception that it raises.
pub data Answer (A : Type 0) : Type 0 where
  returned : A → Answer A
  threw : Text → Answer A

-- The three calls that the worker makes, the full ingest only after a cold start.
pub record Answers : Type 0 where
  pub fetch : Answer FetchOutcome
  pub delta : Answer IngestResult
  pub full : Answer IngestResult

-- `result_box`: `out`, and either `res` or `exc`.
abbrev pub Box : Type 0
Box = Option FetchOutcome × Answer IngestResult

-- `_work`
unfoldable pub work : Answers → Box
work a = elim a.fetch [
  | threw e ↦ (none, threw e)
  | returned out ↦ elim a.delta [
    | threw e ↦ (some out, threw e)
    | returned res ↦
        (some out, if res.status == "cold_start_required" then a.full else returned res)
  ]
]

-- The head of `tick_repo`: a status with its times.
unfoldable pub fresh_status : RepoSchedule → ℕ → RepoStatus
fresh_status rs now = record {
  name = rs.name;
  last_run = now;
  last_status = "";
  last_pulled = false;
  last_behind = 0;
  last_error = clear;
  next_run = now + 1000 * rs.interval_seconds;
}

unfoldable pub still_running : RepoStatus → RepoStatus
still_running s = record s { last_status = "still_running" }

unfoldable pub locked : RepoStatus → RepoStatus
locked s = record s { last_status = "locked" }

unfoldable pub timed_out : RepoSchedule → ℕ × ℕ → RepoStatus → RepoStatus
timed_out rs (seconds, files) s = record s {
  last_status = "timeout";
  last_error = exceeded seconds (if ltb 0 rs.per_file_millis then some files else none);
}

-- The errors that stand for a database that is down.
abbrev pub is_neo4j_down : Text → Bool
is_neo4j_down e =
    let t = lower e in
    is_infix (codes "service unavailable") t
    || is_infix (codes "session expired") t
    || is_infix (codes "connection refused") t
    || is_infix (codes "unable to retrieve routing") t

unfoldable pub failed : RepoStatus → Text → RepoStatus
failed s e = record s {
  last_status = if is_neo4j_down e then "neo4j_down" else "error";
  last_error = message (take 240 e);
}

unfoldable pub succeeded : RepoStatus → Option FetchOutcome → IngestResult → RepoStatus
succeeded s none res = record s { last_status = res.status }
succeeded s (some out) res = record s {
  last_pulled = out.pulled;
  last_behind = out.behind;
  last_status = res.status;
}

-- The part after the join, for a worker that ended in time.
unfoldable pub report : RepoStatus → Answers → RepoStatus
report s a =
    let (out, r) = work a in elim r [ threw e ↦ failed s e | returned res ↦ succeeded s out res ]
