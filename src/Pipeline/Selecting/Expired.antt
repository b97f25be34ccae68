-- ===== src/Pipeline/Selecting/Expired.antt =====
-- A job of internal/pipeline/selecting.go whose cached candidates are too old.
use slusk.Prelude.{ℕ, ◌+◌, ◌-◌, ◌<◌, ◌≡◌, refl, true, false, some, none, ltb, arith}
use slusk.Core.State.{AlbumJobState, JobSource, state_eq, source_eq}
use slusk.Core.Models.{AlbumJob, Candidate}
use slusk.Store.Table.{exists, find_row, find_row-holds}
use slusk.Store.Table.Found.{find_row-update, exists-delete_none}
use slusk.Store.Db.{
  Db, job_is, job_in, candidate_of, transfer_of, update_jobs, delete_children, delete_candidates,
  delete_transfers,
}
use slusk.Store.Retry.{only}
use slusk.Store.Jobs.{reset_job_to_wanted}
use slusk.Store.Candidates.{next_new_candidate}
use slusk.Pipeline.World.{World}
use slusk.Pipeline.Downloading.Verdicts.{JobIn-count}
use slusk.Pipeline.Selecting.{SelectingSettings, Outside, select_job}
use slusk.Pipeline.Selecting.Tables.{verdict_world}

-- The job is WANTED for a new search, with this many retries, and none of its candidates and of
-- their transfers in the tables before is left.
abbrev pub Fresh : Db → Db → ℕ → ℕ → Type 0
Fresh before db job retries =
    (k : AlbumJob) × (find_row (job_is job) db.jobs ≡ some k)
    × (k.state ≡ AlbumJobState.wanted)
    × (k.retries ≡ retries)
    × (k.not_before ≡ none)
    × (exists (candidate_of (only job)) db.candidates ≡ false)
    × (exists (transfer_of (only job) before.candidates) db.transfers ≡ false)

reset_job_to_wanted-Fresh :
    (db : Db) (job retries now : ℕ) (j : AlbumJob)
    → find_row (job_is job) db.jobs ≡ some j
    → state_eq j.state AlbumJobState.selecting ≡ true
    → Fresh db (reset_job_to_wanted db job AlbumJobState.selecting retries none now) job retries
unfolding reset_job_to_wanted update_jobs delete_children delete_candidates delete_transfers
reset_job_to_wanted-Fresh db job retries now j found is =
    let reset : AlbumJob → AlbumJob = λ x. record x {
      state = AlbumJobState.wanted;
      retries = retries;
      empty_searches = 0;
      not_before = none;
      updated_at = now;
    } in
    let key = find_row-holds (job_is job) db.jobs j found in
    let after =
      find_row-update (job_is job) (job_in job AlbumJobState.selecting) reset db.jobs j (λ x. refl)
        found in
    rw (JobIn-count db job AlbumJobState.selecting (j, found, is)) (
      reset j,
      rw (key, is) at after,
      refl,
      refl,
      refl,
      exists-delete_none _ _ db.candidates (λ c h. h),
      exists-delete_none _ _ db.transfers (λ t h. h),
    )

too_old : (ttl made now : ℕ) → made + ttl < now → ltb ttl (now - made) ≡ true
too_old ttl made now h = ground arith

-- For a SELECTING job that is no manual one and whose next NEW candidate is older than the time
-- to live, selectJob leaves the job WANTED without a not_before and with the retries that it had
-- when it was read, and it leaves none of its candidates and none of their transfers.
pub select_job-Fresh :
    (s : SelectingSettings) (o : Outside) (j : AlbumJob) (c : Candidate) (row : AlbumJob) (now : ℕ)
    (w : World)
    → next_new_candidate w.tables j.id ≡ some c
    → source_eq j.source JobSource.manual ≡ false
    → c.created_at + s.candidate_ttl < now
    → find_row (job_is j.id) w.tables.jobs ≡ some row
    → state_eq row.state AlbumJobState.selecting ≡ true
    → Fresh w.tables (verdict_world (select_job s o j now w)).tables j.id j.retries
unfolding select_job
select_job-Fresh s o j c row now w next lidarr old found is =
    rw (next, select_job)
      (rw (lidarr, too_old s.candidate_ttl c.created_at now old)
        (reset_job_to_wanted-Fresh w.tables j.id j.retries now row found is))
