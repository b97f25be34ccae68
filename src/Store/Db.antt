-- ===== src/Store/Db.antt =====
-- The tables of internal/store/migrations that the pipeline's lifecycle rests on, and the statements
-- that several operations share. An operation is a function from the tables before its transaction
-- to the tables after it: a rollback returns the tables it was given.
use slusk.Prelude.{ℕ, Bool, ◌&&◌, ◌==◌, none, List}
use slusk.Prelude.Text.{Text, text_eq}
use slusk.Core.State.{AlbumJobState, CandidateState, state_eq, candidate_state_eq, is_live}
use slusk.Core.Models.{AlbumJob, Candidate, Transfer, CandidateRejection, DownloadFolder}
use slusk.Store.Table.{update, delete, exists}

-- The identity columns hand out `next_…`; a rolled-back insert leaves a gap that nothing reads.
pub record Db : Type 0 where
  pub jobs : List AlbumJob
  pub candidates : List Candidate
  pub transfers : List Transfer
  pub rejections : List CandidateRejection
  pub folders : List DownloadFolder
  pub next_job : ℕ
  pub next_candidate : ℕ
  pub next_transfer : ℕ
  pub next_folder : ℕ

-- WHERE id = $1 on album_jobs
abbrev pub job_is : ℕ → AlbumJob → Bool
job_is k j = j.id == k

-- WHERE id = $1 AND state = $2 on album_jobs
abbrev pub job_in : ℕ → AlbumJobState → AlbumJob → Bool
job_in k s j = j.id == k && state_eq j.state s

-- WHERE id = $1 on candidates
abbrev pub candidate_is : ℕ → Candidate → Bool
candidate_is k c = c.id == k

-- WHERE id = $1 AND state = $2 on candidates
abbrev pub candidate_in : ℕ → CandidateState → Candidate → Bool
candidate_in k s c = c.id == k && candidate_state_eq c.state s

-- WHERE album_job_id = $1 on candidates, for the set of jobs that `jobs` tells
abbrev pub candidate_of : (ℕ → Bool) → Candidate → Bool
candidate_of jobs c = jobs c.album_job_id

-- WHERE candidate_id IN (SELECT id FROM candidates WHERE album_job_id …)
unfoldable pub transfer_of : (ℕ → Bool) → List Candidate → Transfer → Bool
transfer_of jobs candidates t =
    exists (λ c. c.id == t.candidate_id && jobs c.album_job_id) candidates

-- DELETE FROM transfers WHERE candidate_id IN (SELECT id FROM candidates WHERE album_job_id …)
unfoldable pub delete_transfers : (ℕ → Bool) → Db → Db
delete_transfers jobs db = record db {
  transfers = delete (transfer_of jobs db.candidates) db.transfers;
}

-- DELETE FROM candidates WHERE album_job_id …
unfoldable pub delete_candidates : (ℕ → Bool) → Db → Db
delete_candidates jobs db = record db { candidates = delete (candidate_of jobs) db.candidates }

-- The two deletions in the order of the foreign key, transfers before candidates.
unfoldable pub delete_children : (ℕ → Bool) → Db → Db
delete_children jobs db = delete_candidates jobs (delete_transfers jobs db)

-- DELETE FROM candidate_rejections WHERE album_job_id …
unfoldable pub delete_rejections : (ℕ → Bool) → Db → Db
delete_rejections jobs db = record db {
  rejections = delete (λ r. jobs r.album_job_id) db.rejections;
}

-- UPDATE album_jobs SET … WHERE …
unfoldable pub update_jobs : (AlbumJob → Bool) → (AlbumJob → AlbumJob) → Db → Db
update_jobs p f db = record db { jobs = update p f db.jobs }

-- UPDATE candidates SET … WHERE …
unfoldable pub update_candidates : (Candidate → Bool) → (Candidate → Candidate) → Db → Db
update_candidates p f db = record db { candidates = update p f db.candidates }

-- UPDATE transfers SET … WHERE …
unfoldable pub update_transfers : (Transfer → Bool) → (Transfer → Transfer) → Db → Db
update_transfers p f db = record db { transfers = update p f db.transfers }

-- A live transfer of the file, which idx_transfers_live_remote_owner allows once.
abbrev pub owns_live : Text → Text → Transfer → Bool
owns_live username filename t =
    is_live t.state && (text_eq t.username username && text_eq t.filename filename)

-- A transfer with the key of transfers_candidate_username_filename_key.
abbrev pub has_key : ℕ → Text → Text → Transfer → Bool
has_key candidate username filename t =
    t.candidate_id == candidate && (text_eq t.username username && text_eq t.filename filename)

-- SET state, retries = 0, empty_searches = 0, not_before = NULL, failed_at = NULL, updated_at
abbrev pub clean_slate : AlbumJobState → ℕ → AlbumJob → AlbumJob
clean_slate to now j = record j {
  state = to;
  retries = 0;
  empty_searches = 0;
  not_before = none;
  failed_at = none;
  updated_at = now;
}
