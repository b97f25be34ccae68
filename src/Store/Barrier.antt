-- ===== src/Store/Barrier.antt =====
-- The cancellation barrier of internal/store/jobs.go: what CancelJob leaves, and what is refused
-- behind it.
pub mod Peers
pub mod Sequences
use slusk.Prelude.{ℕ, ◌≡◌, refl, false, not, ◌&&◌, some, arith}
use slusk.Prelude.Text.{Text}
use slusk.Core.State.{AlbumJobState, TransferState, state_eq}
use slusk.Core.Models.{AlbumJob, Candidate}
use slusk.Store.Table.{exists, find_row, select, find_row-holds}
use slusk.Store.Table.Found.{find_row-update, exists-update_none}
use slusk.Store.Db.{Db, job_is, candidate_is, update_jobs, update_transfers, transfer_of}
use slusk.Store.Transfers.{
  owner_state, record_enqueue_intent, refused, cancels, live_of, cancel_rows,
  prepare_job_cancellation, cancel_job,
}

cancelled_rows :
    (db : Db) (job now : ℕ) (j : AlbumJob)
    → find_row (job_is job) db.jobs ≡ some j
    → cancel_job db job now
      ≡ (cancel_rows db job now, cancels (select (live_of db job) db.transfers))
unfolding cancel_job prepare_job_cancellation
cancelled_rows db job now j found = rw (found, prepare_job_cancellation) refl

live_of_cancelled :
    (db : Db) (job now : ℕ)
    → exists (live_of (cancel_rows db job now) job) (cancel_rows db job now).transfers ≡ false
unfolding cancel_rows update_jobs update_transfers transfer_of
live_of_cancelled db job now =
    exists-update_none (live_of db job) (live_of db job)
      (λ t. record t { state = TransferState.cancelled; updated_at = now }) db.transfers
      (λ t h. ground arith) (λ t h. h)

uncancelled_jobs :
    (db : Db) (job now : ℕ)
    → exists
        (λ j. job_is job j && not (state_eq j.state AlbumJobState.cancelled))
        (cancel_rows db job now).jobs
      ≡ false
unfolding cancel_rows update_jobs update_transfers
uncancelled_jobs db job now =
    exists-update_none _ (job_is job)
      (λ j. record j { state = AlbumJobState.cancelled; updated_at = now }) db.jobs
      (λ j h. ground arith) (λ j h. ground (arith, h))

-- CancelJob on a job that is there leaves every row of the job CANCELLED and no live transfer of
-- its candidates, and it answers the transfers that were live before it.
pub cancel_job_lem :
    (db : Db) (job now : ℕ) (j : AlbumJob)
    → find_row (job_is job) db.jobs ≡ some j
    → (exists
          (λ k. job_is job k && not (state_eq k.state AlbumJobState.cancelled))
          (cancel_job db job now).0.jobs
        ≡ false)
      × (exists (live_of (cancel_job db job now).0 job) (cancel_job db job now).0.transfers ≡ false)
      × ((cancel_job db job now).1 ≡ cancels (select (live_of db job) db.transfers))
cancel_job_lem db job now j found =
    rw (cancelled_rows db job now j found)
      (uncancelled_jobs db job now, live_of_cancelled db job now, refl)

-- The job of a candidate, once CancelJob has committed.
owner_cancelled :
    (db : Db) (candidate now : ℕ) (c : Candidate) (j : AlbumJob)
    → find_row (candidate_is candidate) db.candidates ≡ some c
    → find_row (job_is c.album_job_id) db.jobs ≡ some j
    → owner_state (cancel_rows db c.album_job_id now) candidate ≡ some AlbumJobState.cancelled
unfolding owner_state cancel_rows update_jobs update_transfers
owner_cancelled db candidate now c j here found =
    let marked =
      find_row-update (job_is c.album_job_id) (job_is c.album_job_id)
        (λ k. record k { state = AlbumJobState.cancelled; updated_at = now }) db.jobs j (λ k. refl)
        found in
    let key = find_row-holds (job_is c.album_job_id) db.jobs j found in
    rw (here, owner_state) (rw (marked, owner_state) (rw key refl))

-- After CancelJob has committed for the job of a candidate, RecordEnqueueIntent for any file of
-- the candidate is refused and writes nothing.
pub record_enqueue_intent-cancel_job :
    (db : Db) (candidate now : ℕ) (c : Candidate) (j : AlbumJob) (username filename : Text)
    (deadline later : ℕ)
    → find_row (candidate_is candidate) db.candidates ≡ some c
    → find_row (job_is c.album_job_id) db.jobs ≡ some j
    → record_enqueue_intent
        (cancel_job db c.album_job_id now).0
        candidate
        username
        filename
        deadline
        later
      ≡ ((cancel_job db c.album_job_id now).0, refused)
unfolding record_enqueue_intent
record_enqueue_intent-cancel_job db candidate now c j username filename deadline later here found =
    rw
      (
        cancelled_rows db c.album_job_id now j found,
        owner_cancelled db candidate now c j here found,
      )
      refl

pub cancel_job-candidates :
    (db : Db) (job now : ℕ) (j : AlbumJob)
    → find_row (job_is job) db.jobs ≡ some j
    → (cancel_job db job now).0.candidates ≡ db.candidates
unfolding cancel_rows update_jobs update_transfers
cancel_job-candidates db job now j found = rw (cancelled_rows db job now j found) refl
