-- ===== src/Store/Wanted.antt =====
-- internal/store/pipeline.go and bulk_retry.go: the reconciliation of the jobs with Lidarr's wanted
-- list, and the retry of a set of jobs.
pub mod Snapshot
pub mod Manual
use slusk.Prelude.{
  ℕ, suc, ◌+◌, ◌-◌, Bool, false, not, ◌&&◌, ◌||◌, ◌==◌, Option, none, some, List, [], ◌∷◌, ◌++◌,
  ltb, if◌then◌else◌, map, length,
}
use slusk.Core.State.{AlbumJobState, CandidateState, JobSource, state_eq, state_in, source_eq}
use slusk.Core.Models.{AlbumJob, Candidate, WantedRelease}
use slusk.Store.Table.{count, exists}
use slusk.Store.Db.{
  Db, update_jobs, update_candidates, candidate_of, delete_transfers, delete_children,
  delete_rejections, clean_slate,
}
use slusk.Store.Jobs.{guarded_states, lacks_metadata}
use slusk.Store.Retry.{retryable_states, revive}

-- id = ANY(ids)
unfoldable pub any_id : List ℕ → ℕ → Bool
any_id [] k = false
any_id (i ∷ is) k = i == k || any_id is k

-- lidarr_album_id = ANY(ids); NULL is in no list, and not outside one either.
abbrev pub album_in : List ℕ → Option ℕ → Bool
album_in ids none = false
album_in ids (some album) = any_id ids album

-- lidarr_album_id <> ALL(ids)
abbrev pub album_not_in : List ℕ → Option ℕ → Bool
album_not_in ids none = false
album_not_in ids (some album) = not (any_id ids album)

abbrev pub from_lidarr : AlbumJob → Bool
from_lidarr j = source_eq j.source JobSource.lidarr

-- state NOT IN (DONE, CANCELLED, FAILED) AND source = lidarr AND lidarr_album_id <> ALL(ids)
abbrev pub unwanted : List ℕ → AlbumJob → Bool
unwanted ids j =
    not (state_in j.state guarded_states) && (from_lidarr j && album_not_in ids j.lidarr_album_id)

abbrev pub set_cancelled : ℕ → AlbumJob → AlbumJob
set_cancelled now j = record j { state = AlbumJobState.cancelled; updated_at = now }

-- CancelJobsNotWanted
unfoldable pub cancel_jobs_not_wanted : Db → List ℕ → ℕ → Db × ℕ
cancel_jobs_not_wanted db ids now =
    (update_jobs (unwanted ids) (set_cancelled now) db, count (unwanted ids) db.jobs)

-- failed_at < cutoff
abbrev pub failed_before : Option ℕ → ℕ → Bool
failed_before none cutoff = false
failed_before (some t) cutoff = ltb t cutoff

-- state = FAILED AND failed_at < cutoff AND lidarr_album_id = ANY(ids) AND source = lidarr
abbrev pub revivable : List ℕ → ℕ → AlbumJob → Bool
revivable ids cutoff j =
    state_eq j.state AlbumJobState.failed
    && (failed_before j.failed_at cutoff && (album_in ids j.lidarr_album_id && from_lidarr j))

-- ReviveFailedJobs
unfoldable pub revive_failed_jobs : Db → List ℕ → ℕ → ℕ → Db × ℕ
revive_failed_jobs db ids cutoff now = (
  update_jobs (revivable ids cutoff) (clean_slate AlbumJobState.wanted now) db,
  count (revivable ids cutoff) db.jobs,
)

-- The ids that an UPDATE … RETURNING id returns.
unfoldable pub returned : (AlbumJob → Bool) → List AlbumJob → ℕ → Bool
returned p jobs k = exists (λ j. j.id == k && p j) jobs

-- One statement of the CTEs: update the jobs, and clear the children and the rejection history of
-- exactly the jobs that the update returns.
unfoldable pub start_over : (AlbumJob → Bool) → ℕ → Db → Db
unfolding returned
start_over p now db =
    delete_rejections (returned p db.jobs) (
      delete_children (returned p db.jobs)
        (update_jobs p (clean_slate AlbumJobState.wanted now) db))

-- unique[release.ID] = release over the first-seen order
unfoldable pub put_release : WantedRelease → List WantedRelease → List WantedRelease
put_release r [] = r ∷ []
put_release r (s ∷ ss) = let rest = put_release r ss in if s.id == r.id then r ∷ ss else s ∷ rest

unfoldable pub unique_from : List WantedRelease → List WantedRelease → List WantedRelease
unfolding put_release
unique_from acc [] = acc
unique_from acc (r ∷ rs) = unique_from (put_release r acc) rs

unfoldable pub unique_releases : List WantedRelease → List WantedRelease
unfolding unique_from
unique_releases releases = unique_from [] releases

abbrev pub wanted_job : ℕ → WantedRelease → ℕ → AlbumJob
wanted_job id r now = record {
  id = id;
  lidarr_album_id = some r.id;
  state = AlbumJobState.wanted;
  candidates_tried = 0;
  next_attempt_at = none;
  created_at = now;
  updated_at = now;
  title = r.title;
  artist_name = r.artist_name;
  release_date = r.release_date;
  artist_id = r.artist_id;
  retries = 0;
  empty_searches = 0;
  not_before = none;
  failed_at = none;
  min_track_count = 0;
  max_track_count = 0;
  source = JobSource.lidarr;
  album_mbid = [];
  year = none;
  tracks = none;
  format = none;
  import_refused_reason = [];
}

-- lidarr_album_id = $1 AND source = lidarr
abbrev pub has_album : ℕ → AlbumJob → Bool
has_album album j = from_lidarr j && album_in (album ∷ []) j.lidarr_album_id

-- INSERT … ON CONFLICT (lidarr_album_id) WHERE source = lidarr DO NOTHING
unfoldable pub insert_wanted : List WantedRelease → ℕ → Db → Db
insert_wanted [] now db = db
insert_wanted (r ∷ rs) now db = insert_wanted rs now (
    if exists (has_album r.id) db.jobs then db else record db {
      jobs = db.jobs ++ wanted_job db.next_job r now ∷ [];
      next_job = suc db.next_job;
    })

abbrev pub set_metadata : WantedRelease → AlbumJob → AlbumJob
set_metadata r j = record j {
  title = r.title;
  artist_name = r.artist_name;
  release_date = r.release_date;
  artist_id = r.artist_id;
}

-- UPDATE … FROM wanted WHERE jobs.lidarr_album_id = wanted.lidarr_album_id AND …
unfoldable pub refresh_from :
    (AlbumJob → Bool) → (AlbumJob → AlbumJob) → List WantedRelease → Db → Db
refresh_from p f [] db = db
refresh_from p f (r ∷ rs) db =
    refresh_from p f rs (update_jobs (λ j. has_album r.id j && p j) (λ j. f (set_metadata r j)) db)

abbrev pub ids_of : List WantedRelease → List ℕ
ids_of = map (λ r. r.id)

-- state = CANCELLED AND source = lidarr, for an album of the snapshot
abbrev pub rewanted : List ℕ → AlbumJob → Bool
rewanted ids j =
    state_eq j.state AlbumJobState.cancelled && (from_lidarr j && album_in ids j.lidarr_album_id)

-- Both metadata statements: WANTED jobs in full, the others where something is missing.
unfoldable pub refresh_metadata : List WantedRelease → ℕ → Db → Db
unfolding refresh_from
refresh_metadata releases now db =
    refresh_from (λ j. not (state_eq j.state AlbumJobState.wanted) && lacks_metadata j) (λ j. j)
      releases
      (refresh_from (λ j. state_eq j.state AlbumJobState.wanted)
        (λ j. record j { updated_at = now }) releases db)

-- The transaction of SyncWantedJobs on a deduplicated snapshot.
unfoldable pub sync_unique : Db → List WantedRelease → ℕ → ℕ → Db × ℕ × ℕ
unfolding insert_wanted start_over refresh_metadata cancel_jobs_not_wanted
sync_unique db releases failed_cutoff now =
    let ids = ids_of releases in
    let refreshed =
      refresh_metadata releases now
        (start_over (rewanted ids) now (insert_wanted releases now db)) in
    let (kept, cancelled) = cancel_jobs_not_wanted refreshed ids now in
    (
      start_over (revivable ids failed_cutoff) now kept,
      cancelled,
      count (revivable ids failed_cutoff) kept.jobs,
    )

-- SyncWantedJobs: an empty snapshot is not authoritative.
unfoldable pub sync_wanted_jobs : Db → List WantedRelease → ℕ → ℕ → Db × ℕ × ℕ
unfolding sync_unique unique_releases
sync_wanted_jobs db releases failed_cutoff now =
    if length (unique_releases releases) == 0
    then (db, 0, 0)
    else sync_unique db (unique_releases releases) failed_cutoff now

-- id = ANY(ids) AND source = lidarr AND state IN (FAILED, PARKED, ORPHANED)
abbrev pub bulk_lidarr : List ℕ → AlbumJob → Bool
bulk_lidarr ids j = any_id ids j.id && (from_lidarr j && state_in j.state retryable_states)

-- id = ANY(ids) AND source = manual AND state IN (…) AND EXISTS (SELECT 1 FROM candidates …)
abbrev pub bulk_manual : List ℕ → List Candidate → AlbumJob → Bool
bulk_manual ids candidates j =
    any_id ids j.id
    && (source_eq j.source JobSource.manual
        && (state_in j.state retryable_states && exists (λ c. c.album_job_id == j.id) candidates))

-- The manual statement of BulkRetryJobs.
unfoldable pub bulk_retry_manual : List ℕ → ℕ → Db → Db
unfolding returned
bulk_retry_manual ids now db =
    let revived = returned (bulk_manual ids db.candidates) db.jobs in
    update_candidates (candidate_of revived) (revive CandidateState.new now) (
      delete_transfers revived
        (update_jobs (bulk_manual ids db.candidates) (clean_slate AlbumJobState.selecting now) db))

-- BulkRetryJobs from the selected ids on: the tables, and the numbers retried and skipped.
unfoldable pub bulk_retry_jobs : Db → List ℕ → ℕ → Db × ℕ × ℕ
unfolding start_over bulk_retry_manual
bulk_retry_jobs db ids now =
    let first = start_over (bulk_lidarr ids) now db in
    let retried =
      count (bulk_lidarr ids) db.jobs + count (bulk_manual ids first.candidates) first.jobs in
    (bulk_retry_manual ids now first, retried, length ids - retried)
