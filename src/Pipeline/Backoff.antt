-- ===== src/Pipeline/Backoff.antt =====
-- internal/pipeline/backoff.go: the retry of a failed search cycle.
pub mod Retries
use Prim.Native.Nat.{◌/◌}
use slusk.Prelude.{
  ℕ, zero, suc, ◌+◌, ◌*◌, ◌%◌, ◌^◌, ◌-◌, ◌≤◌, ◌<◌, ◌≡◌, refl, Bool, true, false, not, ◌&&◌, ◌||◌,
  ◌==◌, Option, none, some, List, [], ◌∷◌, ◌++◌, arith, if◌then◌else◌, Bool-cases, inl, inr, ltb,
  leb,
}
use slusk.Prelude.Text.{Text, is_empty, codes}
use slusk.Prelude.Int.{ℤ, pos, negsuc}
use slusk.Core.State.{AlbumJobState, state_eq, state_in}
use slusk.Core.Models.{AlbumJob}
use slusk.Store.Table.{update, exists, find_row, find_row-holds}
use slusk.Store.Table.Found.{find_row-update}
use slusk.Store.Db.{Db, job_is, update_jobs}
use slusk.Store.Jobs.{due, mark_job_failed, reset_job_to_wanted, set_job_backoff, guarded_states}
use slusk.Store.Rejections.{int64_mul, int64_negative, max_exponent}

-- nextBackoff
unfoldable pub next_backoff : ℕ → ℕ → ℕ → ℕ
next_backoff retries base max_backoff =
    let exp = (if ltb max_exponent retries then max_exponent else retries) in
    let d = int64_mul base (2 ^ exp) in
    if ltb max_backoff d || int64_negative d then max_backoff else d

-- fmt's %d. A number has fewer digits than its successor counts.
unfoldable pub digits : ℕ → ℕ → Text → Text
digits zero n acc = acc
digits (suc fuel) n acc =
    let rest = digits fuel (n / 10) ((48 + n % 10) ∷ acc) in
    if ltb n 10 then (48 + n) ∷ acc else rest

abbrev pub decimal : ℕ → Text
decimal n = digits (suc n) n []

-- jobFailedDetail
unfoldable pub job_failed_detail : ℕ → ℕ → Text → Text
unfolding digits
job_failed_detail attempts max_retries reason =
    let noun = (if attempts == 1 then codes "attempt" else codes "attempts") in
    let detail = codes "gave up after " ++ decimal attempts ++ codes " " ++ noun in
    if max_retries == 0 && not (is_empty reason)
    then reason
    else if is_empty reason
    then detail
    else detail ++ codes ": " ++ reason

-- What failOrBackoff leaves: the tables, its answer `failed`, and the detail of the job_failed event
-- that it records. The tables are those after store calls that succeed; the source returns the error
-- of one that does not.
pub record CycleFailure : Type 0 where
  pub tables : Db
  pub failed : Bool
  pub event : Option Text

pub record RetryPolicy : Type 0 where
  pub max_retries : ℕ
  pub base : ℕ
  pub cap : ℕ

-- failOrBackoff
unfoldable pub fail_or_backoff : Db → AlbumJob → RetryPolicy → Bool → Text → ℕ → CycleFailure
unfolding next_backoff job_failed_detail mark_job_failed reset_job_to_wanted set_job_backoff
fail_or_backoff db job policy reset_to_wanted reason now =
    let retries = job.retries + 1 in
    let not_before = now + next_backoff retries policy.base policy.cap in
    if leb policy.max_retries retries
    then record {
      tables = mark_job_failed db job.id now;
      failed = true;
      event = some (job_failed_detail retries policy.max_retries reason);
    }
    else if reset_to_wanted
    then record {
      tables = reset_job_to_wanted db job.id AlbumJobState.selecting retries (some not_before) now;
      failed = false;
      event = none;
    }
    else record {
      tables = set_job_backoff db job.id retries not_before now;
      failed = false;
      event = none;
    }

-- A search cycle of the job that fails, for the row that the tick reads. A tick reads no job before
-- its not_before.
unfoldable pub failing_cycle : RetryPolicy → Text → ℕ → ℕ → Db → Db
unfolding fail_or_backoff
failing_cycle policy reason job now db = elim (find_row (job_is job) db.jobs) [
  | none ↦ db
  | some j ↦
      if due j.not_before now then (fail_or_backoff db j policy false reason now).tables else db
]

-- The first time from `now` on at which a not_before leaves the job runnable.
abbrev pub first_due : ℕ → Option ℕ → ℕ
first_due now none = now
first_due now (some t) = if ltb now t then t else now

unfoldable pub next_turn : Db → ℕ → ℕ → ℕ
next_turn db job now = elim (find_row (job_is job) db.jobs) [
  | none ↦ now
  | some j ↦ first_due now j.not_before
]

-- Failing cycles of the job from `now` on, each late by its number of nanoseconds after the job is
-- due, and the time of the last one.
unfoldable pub failing_cycles : List ℕ → RetryPolicy → Text → ℕ → ℕ → Db → Db × ℕ
unfolding failing_cycle next_turn
failing_cycles [] policy reason job now db = (db, now)
failing_cycles (late ∷ lates) policy reason job now db =
    let at = next_turn db job now + late in
    failing_cycles lates policy reason job at (failing_cycle policy reason job at db)
