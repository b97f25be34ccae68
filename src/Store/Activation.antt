-- ===== src/Store/Activation.antt =====
-- internal/store/candidates.go and manual_jobs.go: the two ways a job enters DOWNLOADING, each with
-- the complete set of its PENDING transfers.
pub mod Cap
use slusk.Prelude.{
  ℕ, suc, ◌+◌, Bool, true, false, ◌&&◌, ◌||◌, ◌==◌, none, some, List, [], ◌∷◌, ◌++◌, leb,
  if◌then◌else◌, length,
}
use slusk.Prelude.Int.{pos, is_negative}
use slusk.Prelude.Text.{Text, text_eq, is_empty}
use slusk.Core.State.{AlbumJobState, TransferState, CandidateState, JobSource, candidate_state_eq}
use slusk.Core.Models.{AlbumJob, Candidate, CandidateFile, Transfer}
use slusk.Store.Table.{count, exists, find_row}
use slusk.Store.Db.{Db, job_in, update_jobs, update_candidates, owns_live, has_key}
use slusk.Store.Jobs.{count_jobs_in_states}
use slusk.Store.Format.{dominant_format, derive_year}

abbrev pub pending_transfer : ℕ → ℕ → Text → CandidateFile → ℕ → ℕ → Transfer
pending_transfer id candidate username file deadline now = record {
  id = id;
  candidate_id = candidate;
  slskd_id = [];
  username = username;
  filename = file.filename;
  state = TransferState.pending;
  bytes_done = pos 0;
  bytes_total = file.size;
  retries = 0;
  deadline = deadline;
  last_progress_at = none;
  updated_at = now;
}

-- What an INSERT into transfers comes to: the table after it, a violation of
-- idx_transfers_live_remote_owner, or one of transfers_candidate_username_filename_key.
pub data Inserted : Type 0 where
  inserted : List Transfer → Inserted
  remote_busy : Inserted
  duplicate_key : Inserted

-- INSERT INTO transfers … SELECT … ORDER BY f.ord, one row after the other. A row that violates both
-- indexes is refused by the older one, the key.
unfoldable pub insert_pending : ℕ → ℕ → Text → List CandidateFile → ℕ → ℕ → List Transfer → Inserted
insert_pending id candidate username [] deadline now rows = inserted rows
insert_pending id candidate username (f ∷ fs) deadline now rows =
    let rest =
      insert_pending (suc id) candidate username fs deadline now
        (rows ++ pending_transfer id candidate username f deadline now ∷ []) in
    if exists (has_key candidate username f.filename) rows
    then duplicate_key
    else if exists (owns_live username f.filename) rows
    then remote_busy
    else rest

abbrev mem_text : Text → List Text → Bool
mem_text t [] = false
mem_text t (s ∷ ss) = text_eq s t || mem_text t ss

-- The loop over the cached files: each has a name and a size, and no name comes twice.
unfoldable pub valid_files : List Text → List CandidateFile → Bool
valid_files seen [] = true
valid_files seen (f ∷ fs) =
    let rest = valid_files (f.filename ∷ seen) fs in
    if is_empty f.filename || is_negative f.size
    then false
    else if mem_text f.filename seen
    then false
    else rest

pub data Activation : Type 0 where
  activated cap_full skipped invalid : Activation

-- c.id = $1 AND c.album_job_id = $2 AND c.state = NEW
abbrev pub eligible : ℕ → ℕ → Candidate → Bool
eligible candidate job c =
    c.id == candidate && (c.album_job_id == job && candidate_state_eq c.state CandidateState.new)

-- SET state, updated_at, year, tracks, format
abbrev pub set_downloading : List CandidateFile → Text → ℕ → AlbumJob → AlbumJob
set_downloading files release_date now j = record j {
  state = AlbumJobState.downloading;
  updated_at = now;
  year = derive_year release_date;
  tracks = some (length files);
  format = dominant_format files;
}

-- The writes of an activation, once its transfers are in the table.
unfoldable pub write_activation : Db → ℕ → ℕ → List CandidateFile → Text → List Transfer → ℕ → Db
write_activation db candidate job files release_date rows now =
    update_jobs (job_in job AlbumJobState.selecting) (set_downloading files release_date now) (
      update_candidates (eligible candidate job)
        (λ c. record c { state = CandidateState.active; updated_at = now })
        (record db { transfers = rows; next_transfer = db.next_transfer + length files }))

-- ActivateCandidateWithTransfers, from the INSERT on
unfoldable pub activate_inserted :
    Db → ℕ → ℕ → List CandidateFile → Text → Inserted → ℕ → Db × Activation
activate_inserted db candidate job files release_date remote_busy now = (db, skipped)
activate_inserted db candidate job files release_date duplicate_key now = (db, invalid)
activate_inserted db candidate job files release_date (inserted rows) now =
    if count (eligible candidate job) db.candidates == 1
    then (if count (job_in job AlbumJobState.selecting) db.jobs == 1
        then (write_activation db candidate job files release_date rows now, activated)
        else (db, skipped))
    else (db, skipped)

abbrev pub active_states : List AlbumJobState
active_states = AlbumJobState.downloading ∷ AlbumJobState.importing ∷ []

-- ActivateCandidateWithTransfers on the row that its first SELECT locked
unfoldable pub activate_locked : Db → Candidate → ℕ → Text → ℕ → ℕ → ℕ → Db × Activation
unfolding activate_inserted write_activation insert_pending valid_files
activate_locked db c job release_date max_active deadline now =
    if length c.files == 0
    then (db, invalid)
    else if valid_files [] c.files
    then (if leb max_active (count_jobs_in_states db active_states)
        then (db, cap_full)
        else activate_inserted db c.id job c.files release_date
            (insert_pending db.next_transfer c.id c.username c.files deadline now db.transfers) now)
    else (db, invalid)

-- ActivateCandidateWithTransfers. `skipped` is (false, false, nil) and `cap_full` is
-- (false, true, nil) of the source; `invalid` is a returned error.
unfoldable pub activate_candidate_with_transfers : Db → ℕ → ℕ → ℕ → ℕ → ℕ → Db × Activation
unfolding activate_locked
activate_candidate_with_transfers db candidate job max_active deadline now =
    elim (find_row (eligible candidate job) db.candidates) [
      | none ↦ (db, skipped)
      | some c ↦ elim (find_row (job_in job AlbumJobState.selecting) db.jobs) [
        | none ↦ (db, skipped)
        | some j ↦ activate_locked db c job j.release_date max_active deadline now
      ]
    ]

-- The result of CreateManualJob.
pub data ManualResult : Type 0 where
  created : ℕ → ManualResult
  remote_file_busy : ManualResult
  rejected : ManualResult

abbrev pub manual_job : ℕ → Text → Text → Text → ℕ → AlbumJob
manual_job id title artist_name album_mbid now = record {
  id = id;
  lidarr_album_id = none;
  state = AlbumJobState.downloading;
  candidates_tried = 0;
  next_attempt_at = none;
  created_at = now;
  updated_at = now;
  title = title;
  artist_name = artist_name;
  release_date = [];
  artist_id = 0;
  retries = 0;
  empty_searches = 0;
  not_before = none;
  failed_at = none;
  min_track_count = 0;
  max_track_count = 0;
  source = JobSource.manual;
  album_mbid = album_mbid;
  year = none;
  tracks = none;
  format = none;
  import_refused_reason = [];
}

abbrev pub manual_candidate : ℕ → ℕ → Text → List CandidateFile → ℕ → Candidate
manual_candidate id job peer files now = record {
  id = id;
  album_job_id = job;
  username = peer;
  score = pos 0;
  files = files;
  state = CandidateState.active;
  fail_reason = [];
  import_submitted_at = none;
  last_resort = false;
  deferred_since = none;
  created_at = now;
  updated_at = now;
}

unfoldable pub create_inserted :
    Db → Text → Text → Text → Text → List CandidateFile → Inserted → ℕ → Db × ManualResult
create_inserted db title artist_name peer album_mbid files remote_busy now = (db, remote_file_busy)
create_inserted db title artist_name peer album_mbid files duplicate_key now = (db, rejected)
create_inserted db title artist_name peer album_mbid files (inserted rows) now = (
  record db {
    jobs = db.jobs ++ manual_job db.next_job title artist_name album_mbid now ∷ [];
    candidates =
        db.candidates ++ manual_candidate db.next_candidate db.next_job peer files now ∷ [];
    transfers = rows;
    next_job = suc db.next_job;
    next_candidate = suc db.next_candidate;
    next_transfer = db.next_transfer + length files;
  },
  created db.next_job,
)

-- CreateManualJob
unfoldable pub create_manual_job :
    Db → Text → Text → Text → Text → List CandidateFile → ℕ → ℕ → Db × ManualResult
unfolding create_inserted insert_pending
create_manual_job db title artist_name peer album_mbid files deadline now =
    create_inserted db title artist_name peer album_mbid files
      (insert_pending db.next_transfer db.next_candidate peer files deadline now db.transfers) now
