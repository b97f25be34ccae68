-- ===== src/Pipeline/Tests.antt =====
-- The theorems on the retries of a job, at concrete tables.
use slusk.Prelude.{◌≡◌, refl, ◌+◌, ◌*◌, ◌^◌, some, [], ◌∷◌, arith, ltb, if◌then◌else◌}
use slusk.Prelude.Text.{codes}
use slusk.Core.State.{AlbumJobState}
use slusk.Core.Models.{AlbumJob}
use slusk.Store.Table.{find_row, update}
use slusk.Store.Db.{Db, job_is, update_jobs}
use slusk.Store.Jobs.{set_job_backoff, mark_job_failed}
use slusk.Store.Activation.{manual_job}
use slusk.Pipeline.Backoff.{next_backoff, failing_cycles, RetryPolicy, job_failed_detail}
use slusk.Pipeline.Backoff.Retries.{next_backoff_exact, next_backoff_wraps, failing_cycles-failed}

next_backoff_exact_example :
    next_backoff 3 3600 86400 ≡ (if ltb 86400 (3600 * 2 ^ 3) then 86400 else 3600 * 2 ^ 3)
next_backoff_exact_example = next_backoff_exact 3 3600 86400 (omega arith) (omega arith)

next_backoff_wraps_example : next_backoff (32 + 1) (2 ^ 32 * 5) 86400 ≡ 0
next_backoff_wraps_example = next_backoff_wraps 1 5 86400

abbrev wanted_job : AlbumJob
wanted_job = record (manual_job 1 (codes "Album") (codes "Artist") [] 10) {
  state = AlbumJobState.wanted;
  retries = 1;
}

abbrev wanted_db : Db
wanted_db = record {
  jobs = wanted_job ∷ [];
  candidates = [];
  transfers = [];
  rejections = [];
  folders = [];
  next_job = 2;
  next_candidate = 1;
  next_transfer = 1;
  next_folder = 1;
}

abbrev three_tries : RetryPolicy
three_tries = record { max_retries = 3; base = 60; cap = 86400 }

found_job : find_row (job_is 1) wanted_db.jobs ≡ some wanted_job
unfolding find_row
found_job = refl

failing_cycles_example :
    (k : AlbumJob) × (find_row
        (job_is 1)
        (failing_cycles (5 ∷ 7 ∷ []) three_tries (codes "no peers") 1 100 wanted_db).0.jobs
      ≡ some k)
    × (k.state ≡ AlbumJobState.failed)
    × (k.failed_at
        ≡ some (failing_cycles (5 ∷ 7 ∷ []) three_tries (codes "no peers") 1 100 wanted_db).1)
failing_cycles_example =
    failing_cycles-failed three_tries (codes "no peers") 1 5 (7 ∷ []) 100 wanted_db wanted_job
      found_job refl refl

-- The second cycle waits for four times the base after the first.
failing_cycles_run :
    (failing_cycles (5 ∷ 7 ∷ []) three_tries (codes "no peers") 1 100 wanted_db).1 ≡ 352
unfolding failing_cycles find_row update update_jobs set_job_backoff mark_job_failed
failing_cycles_run = refl

-- The detail of the last failure.
job_failed_detail_run :
    job_failed_detail 12 12 (codes "no peers") ≡ codes "gave up after 12 attempts: no peers"
unfolding job_failed_detail
job_failed_detail_run = refl
