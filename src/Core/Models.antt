-- ===== src/Core/Models.antt =====
-- internal/core/models.go and the rows of the store's tables (internal/store/migrations). A column
-- that may be NULL is an option, an instant or a duration is a number of nanoseconds, and the score,
-- which the store only compares, is its position in the order of the float64 values.
use slusk.Prelude.{ℕ, Bool, Option, List}
use slusk.Prelude.Int.{ℤ}
use slusk.Prelude.Text.{Text}
use slusk.Core.State.{AlbumJobState, TransferState, CandidateState, JobSource}

pub record AlbumJob : Type 0 where
  pub id : ℕ
  pub lidarr_album_id : Option ℕ
  pub state : AlbumJobState
  pub candidates_tried : ℕ
  pub next_attempt_at : Option ℕ
  pub created_at : ℕ
  pub updated_at : ℕ
  pub title : Text
  pub artist_name : Text
  pub release_date : Text
  pub artist_id : ℕ
  pub retries : ℕ
  pub empty_searches : ℕ
  pub not_before : Option ℕ
  pub failed_at : Option ℕ
  pub min_track_count : ℕ
  pub max_track_count : ℕ
  pub source : JobSource
  pub album_mbid : Text
  pub year : Option ℕ
  pub tracks : Option ℕ
  pub format : Option Text
  pub import_refused_reason : Text

pub record CandidateFile : Type 0 where
  pub filename : Text
  pub size : ℤ

pub record Candidate : Type 0 where
  pub id : ℕ
  pub album_job_id : ℕ
  pub username : Text
  pub score : ℤ
  pub files : List CandidateFile
  pub state : CandidateState
  pub fail_reason : Text
  pub import_submitted_at : Option ℕ
  pub last_resort : Bool
  pub deferred_since : Option ℕ
  pub created_at : ℕ
  pub updated_at : ℕ

pub record Transfer : Type 0 where
  pub id : ℕ
  pub candidate_id : ℕ
  pub slskd_id : Text
  pub username : Text
  pub filename : Text
  pub state : TransferState
  pub bytes_done : ℤ
  pub bytes_total : ℤ
  pub retries : ℕ
  pub deadline : ℕ
  pub last_progress_at : Option ℕ
  pub updated_at : ℕ

-- A row of candidate_rejections.
pub record CandidateRejection : Type 0 where
  pub album_job_id : ℕ
  pub username : Text
  pub release_dir : Text
  pub reason : Text
  pub created_at : ℕ
  pub retry_after : Option ℕ
  pub attempts : ℕ

-- A row of job_download_folders.
pub record DownloadFolder : Type 0 where
  pub id : ℕ
  pub album_job_id : ℕ
  pub leaf : Text
  pub created_at : ℕ
  pub cleaned_at : Option ℕ

-- The columns of core.WantedRelease that the wanted sync reads.
pub record WantedRelease : Type 0 where
  pub id : ℕ
  pub title : Text
  pub artist_name : Text
  pub release_date : Text
  pub artist_id : ℕ
