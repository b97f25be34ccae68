-- ===== src/Store/Erasure.antt =====
-- DeleteJob of internal/store/pipeline.go: what is left of a deleted job.
use slusk.Prelude.{ℕ, ◌≡◌, refl, false, ◌==◌, some}
use slusk.Core.State.{AlbumJobState, state_eq}
use slusk.Core.Models.{AlbumJob}
use slusk.Store.Table.{exists, find_row}
use slusk.Store.Table.Found.{exists-delete_none}
use slusk.Store.Db.{
  Db, job_is, candidate_of, transfer_of, delete_children, delete_candidates, delete_transfers,
  delete_rejections,
}
use slusk.Store.Retry.{only, delete_job, delete_job_rows, deleted}

-- No row of the job is in any table; a transfer is the job's by the candidates of `before`.
abbrev pub NoTrace : Db → Db → ℕ → Type 0
NoTrace before db job =
    (exists (job_is job) db.jobs ≡ false)
    × (exists (candidate_of (only job)) db.candidates ≡ false)
    × (exists (transfer_of (only job) before.candidates) db.transfers ≡ false)
    × (exists (λ r. r.album_job_id == job) db.rejections ≡ false)
    × (exists (λ f. f.album_job_id == job) db.folders ≡ false)

rows_gone : (db : Db) (job : ℕ) → NoTrace db (delete_job_rows db job) job
unfolding delete_job_rows delete_rejections delete_children delete_candidates delete_transfers
rows_gone db job = (
  exists-delete_none _ _ db.jobs (λ j h. h),
  exists-delete_none _ _ db.candidates (λ c h. h),
  exists-delete_none _ _ db.transfers (λ t h. h),
  exists-delete_none _ _ db.rejections (λ r h. h),
  exists-delete_none _ _ db.folders (λ f h. h),
)

-- DeleteJob answers `deleted` for a job that is there and not IMPORTING, and then nothing of the
-- job is left in the tables of jobs, candidates, transfers, rejections and folders.
pub delete_job_lem :
    (db : Db) (job : ℕ) (j : AlbumJob)
    → find_row (job_is job) db.jobs ≡ some j
    → state_eq j.state AlbumJobState.importing ≡ false
    → ((delete_job db job).1 ≡ deleted) × NoTrace db (delete_job db job).0 job
unfolding delete_job
delete_job_lem db job j found settled = rw (found, delete_job) (rw settled (refl, rows_gone db job))
