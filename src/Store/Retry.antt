-- ===== src/Store/Retry.antt =====
-- internal/store/pipeline.go: the transitions that a person asks for (retry, force search, delete),
-- and parking.
use slusk.Prelude.{
  ℕ, Bool, true, false, not, ◌&&◌, ◌==◌, Option, none, some, List, [], ◌∷◌, ltb, if◌then◌else◌,
}
use slusk.Prelude.Int.{ℤ, ltb_ℤ}
use slusk.Prelude.Text.{is_empty}
use slusk.Core.State.{
  AlbumJobState, TransferState, CandidateState, JobSource, state_eq, state_in, source_eq,
  candidate_state_eq, is_live,
}
use slusk.Core.Models.{AlbumJob, Candidate, Transfer}
use slusk.Matcher.Path.{release_dir}
use slusk.Store.Table.{delete, count, exists, find_row, select, best}
use slusk.Store.Db.{
  Db, job_is, job_in, candidate_of, candidate_in, update_jobs, update_candidates, update_transfers,
  delete_transfers, delete_children, delete_rejections, clean_slate,
}
use slusk.Store.Rejections.{first_filename, rejection_is}

abbrev pub retryable_states : List AlbumJobState
retryable_states = AlbumJobState.failed ∷ AlbumJobState.parked ∷ AlbumJobState.orphaned ∷ []

abbrev pub only : ℕ → ℕ → Bool
only job k = k == job

-- id = $3 AND state IN (FAILED, PARKED, ORPHANED)
abbrev pub retryable : ℕ → AlbumJob → Bool
retryable job j = j.id == job && state_in j.state retryable_states

-- RetryFailedJob
unfoldable pub retry_failed_job : Db → ℕ → ℕ → Db × Bool
retry_failed_job db job now = if count (retryable job) db.jobs == 0 then (db, false) else (
  delete_rejections (only job) (
      delete_children (only job)
        (update_jobs (retryable job) (clean_slate AlbumJobState.wanted now) db)),
  true,
)

-- id = $3 AND source = manual AND state IN (FAILED, PARKED, ORPHANED)
abbrev pub retryable_manual : ℕ → AlbumJob → Bool
retryable_manual job j =
    j.id == job && (source_eq j.source JobSource.manual && state_in j.state retryable_states)

-- SET state = NEW, fail_reason = '', import_submitted_at = NULL, updated_at
abbrev pub revive : CandidateState → ℕ → Candidate → Candidate
revive to now c = record c {
  state = to;
  fail_reason = [];
  import_submitted_at = none;
  updated_at = now;
}

-- RetryManualJob
unfoldable pub retry_manual_job : Db → ℕ → ℕ → Db × Bool
retry_manual_job db job now =
    if count (retryable_manual job) db.jobs == 0
    then (db, false)
    else if count (candidate_of (only job)) db.candidates == 0
    then (db, false)
    else (
      update_candidates (candidate_of (only job)) (revive CandidateState.new now) (
          delete_transfers (only job)
            (update_jobs (retryable_manual job) (clean_slate AlbumJobState.selecting now) db)),
      true,
    )

abbrev is_active : Candidate → Bool
is_active c = candidate_state_eq c.state CandidateState.active

abbrev is_new : Candidate → Bool
is_new c = candidate_state_eq c.state CandidateState.new

-- currentCandidateOrder: (state = ACTIVE) DESC, (state = NEW) ASC, updated_at DESC, id DESC
unfoldable pub current_before : Candidate → Candidate → Bool
current_before a b =
    if is_active a && not (is_active b)
    then true
    else if is_active b && not (is_active a)
    then false
    else if is_new b && not (is_new a)
    then true
    else if is_new a && not (is_new b)
    then false
    else if ltb b.updated_at a.updated_at
    then true
    else if ltb a.updated_at b.updated_at
    then false
    else ltb b.id a.id

-- The job's current candidate.
unfoldable pub current_candidate : Db → ℕ → Option Candidate
unfolding current_before
current_candidate db job = best current_before (select (candidate_of (only job)) db.candidates)

-- The two UPDATEs of RetryRefusedJob.
abbrev pub revived_rows : Db → ℕ → Candidate → ℕ → Db
revived_rows db job c now =
    update_candidates (candidate_in c.id CandidateState.failed) (revive CandidateState.active now) (
      update_jobs (job_in job AlbumJobState.import_refused)
        (λ j. record j {
          state = AlbumJobState.importing;
          import_refused_reason = [];
          updated_at = now;
        })
        db)

-- The tail of RetryRefusedJob, for the candidate that its UPDATE returned.
unfoldable pub revive_refused : Db → ℕ → Candidate → ℕ → Db
revive_refused db job c now =
    let dir = release_dir (first_filename c.files) in
    let written = revived_rows db job c now in
    if is_empty (first_filename c.files)
    then written
    else record written { rejections = delete (rejection_is job c.username dir) written.rejections }

-- RetryRefusedJob
unfoldable pub retry_refused_job : Db → ℕ → ℕ → Db × Bool
unfolding revive_refused current_candidate
retry_refused_job db job now =
    if count (job_in job AlbumJobState.import_refused) db.jobs == 0
    then (db, false)
    else elim (current_candidate db job) [
      | none ↦ (db, false)
      | some c ↦
          if candidate_state_eq c.state CandidateState.failed
          then (revive_refused db job c now, true)
          else (db, false)
    ]

-- id = $3 AND state NOT IN (DOWNLOADING, IMPORTING)
abbrev pub searchable : ℕ → AlbumJob → Bool
searchable job j =
    j.id == job && not (state_in j.state (AlbumJobState.downloading ∷ AlbumJobState.importing ∷ []))

abbrev pub is_cooldown : Option ℕ → Bool
is_cooldown none = false
is_cooldown (some t) = true

-- The reset and the deletions of ForceSearchJob.
abbrev pub searched_rows : Db → ℕ → ℕ → Db
searched_rows db job now =
    delete_children (only job)
      (update_jobs (searchable job) (clean_slate AlbumJobState.wanted now) db)

-- ForceSearchJob: cooldowns are cleared, permanent rejections stay.
unfoldable pub force_search_job : Db → ℕ → ℕ → Db × Bool
force_search_job db job now =
    let cleared = searched_rows db job now in
    if count (searchable job) db.jobs == 0 then (db, false) else (
      record cleared {
        rejections =
            delete (λ r. r.album_job_id == job && is_cooldown r.retry_after) cleared.rejections;
      },
      true,
    )

pub data DeleteResult : Type 0 where
  deleted job_missing job_importing : DeleteResult

-- The deletions of DeleteJob. candidate_rejections goes by ON DELETE CASCADE.
unfoldable pub delete_job_rows : Db → ℕ → Db
delete_job_rows db job =
    let cleared = delete_rejections (only job) (delete_children (only job) db) in
    record cleared {
      folders = delete (λ f. f.album_job_id == job) cleared.folders;
      jobs = delete (job_is job) cleared.jobs;
    }

-- DeleteJob
unfoldable pub delete_job : Db → ℕ → Db × DeleteResult
unfolding delete_job_rows
delete_job db job = elim (find_row (job_is job) db.jobs) [
  | none ↦ (db, job_missing)
  | some j ↦
      if state_eq j.state AlbumJobState.importing
      then (db, job_importing)
      else (delete_job_rows db job, deleted)
]

-- CASE WHEN $4 > bytes_done THEN now ELSE last_progress_at END
abbrev pub progressed : ℤ → ℕ → Transfer → Option ℕ
progressed bytes_done now t = if ltb_ℤ t.bytes_done bytes_done then some now else t.last_progress_at

-- id = $7 AND candidate_id = $8 AND state IN (the live states)
abbrev pub live_transfer : ℕ → ℕ → Transfer → Bool
live_transfer transfer candidate t =
    t.id == transfer && (t.candidate_id == candidate && is_live t.state)

-- ParkJobForCandidate, for the job that its first SELECT locked
unfoldable pub park_locked : Db → AlbumJob → ℕ → ℕ → TransferState → ℤ → ℤ → ℕ → Db × ℕ × Bool
park_locked db j transfer candidate to bytes_done bytes_total now =
    let written =
      update_transfers (live_transfer transfer candidate)
        (λ t. record t {
          state = to;
          bytes_done = bytes_done;
          bytes_total = bytes_total;
          last_progress_at = progressed bytes_done now t;
          updated_at = now;
        })
        db in
    if count (live_transfer transfer candidate) db.transfers == 0
    then (db, j.id, false)
    else if state_eq j.state AlbumJobState.downloading
    then (
      update_jobs (job_in j.id AlbumJobState.downloading)
          (λ k. record k { state = AlbumJobState.parked; updated_at = now }) written,
      j.id,
      ltb 0 (count (job_in j.id AlbumJobState.downloading) db.jobs),
    )
    else (written, j.id, false)

-- ParkJobForCandidate
unfoldable pub park_job_for_candidate : Db → ℕ → ℕ → TransferState → ℤ → ℤ → ℕ → Db × ℕ × Bool
unfolding park_locked
park_job_for_candidate db transfer candidate to bytes_done bytes_total now =
    elim (find_row (λ c. c.id == candidate) db.candidates) [
      | none ↦ (db, 0, false)
      | some c ↦ elim (find_row (job_is c.album_job_id) db.jobs) [
        | none ↦ (db, 0, false)
        | some j ↦
            if exists (λ t. t.id == transfer && t.candidate_id == candidate) db.transfers
            then park_locked db j transfer candidate to bytes_done bytes_total now
            else (db, 0, false)
      ]
    ]
