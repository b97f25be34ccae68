-- ===== src/Store/Jobs.antt =====
-- internal/store/pipeline.go and jobs.go: the reads of album_jobs that the modules pick work by, and
-- the updates of one job row.
use slusk.Prelude.{
  ℕ, Bool, true, false, not, ◌&&◌, ◌||◌, ◌==◌, Option, none, some, List, [], ◌∷◌, ltb, leb,
  if◌then◌else◌, take,
}
use slusk.Prelude.Text.{Text, is_empty, text_eq}
use slusk.Core.State.{AlbumJobState, state_eq, state_in}
use slusk.Core.Models.{AlbumJob}
use slusk.Store.Table.{count, select}
use slusk.Store.Db.{Db, job_is, job_in, update_jobs, delete_children}

-- CountJobsInStates
unfoldable pub count_jobs_in_states : Db → List AlbumJobState → ℕ
count_jobs_in_states db states = count (λ j. state_in j.state states) db.jobs

-- not_before IS NULL OR not_before <= $2
abbrev pub due : Option ℕ → ℕ → Bool
due none now = true
due (some t) now = leb t now

-- Byte order on text, for ORDER BY release_date.
unfoldable pub text_lt : Text → Text → Bool
text_lt [] [] = false
text_lt [] (y ∷ ys) = true
text_lt (x ∷ xs) [] = false
text_lt (x ∷ xs) (y ∷ ys) = let rest = text_lt xs ys in if x == y then rest else ltb x y

-- ORDER BY release_date DESC, updated_at ASC for WANTED, updated_at ASC otherwise
unfoldable pub runs_before : AlbumJobState → AlbumJob → AlbumJob → Bool
runs_before state a b =
    if state_eq state AlbumJobState.wanted
    then (if text_eq a.release_date b.release_date
        then leb a.updated_at b.updated_at
        else text_lt b.release_date a.release_date)
    else leb a.updated_at b.updated_at

-- ORDER BY as an insertion sort
unfoldable pub insert_by {ℓ} : {A : Type ℓ} → (A → A → Bool) → A → List A → List A
insert_by before x [] = x ∷ []
insert_by before x (y ∷ ys) =
    let rest = insert_by before x ys in if before x y then x ∷ y ∷ ys else y ∷ rest

unfoldable pub sort_by {ℓ} : {A : Type ℓ} → (A → A → Bool) → List A → List A
unfolding insert_by
sort_by before [] = []
sort_by before (x ∷ xs) = insert_by before x (sort_by before xs)

-- RunnableJobsInState
unfoldable pub runnable_jobs_in_state : Db → AlbumJobState → ℕ → ℕ → List AlbumJob
runnable_jobs_in_state db state now limit = take limit (
    sort_by (runs_before state)
      (select (λ j. state_eq j.state state && due j.not_before now) db.jobs))

-- SetJobBackoff
unfoldable pub set_job_backoff : Db → ℕ → ℕ → ℕ → ℕ → Db
set_job_backoff db job retries not_before now =
    update_jobs (job_is job)
      (λ j. record j {
        retries = retries;
        empty_searches = 0;
        not_before = some not_before;
        updated_at = now;
      })
      db

-- SetJobEmptySearchBackoff
unfoldable pub set_job_empty_search_backoff : Db → ℕ → ℕ → ℕ → ℕ → Db
set_job_empty_search_backoff db job empty_searches not_before now =
    update_jobs (job_is job)
      (λ j. record j {
        empty_searches = empty_searches;
        not_before = some not_before;
        updated_at = now;
      })
      db

-- SetJobNotBefore
unfoldable pub set_job_not_before : Db → ℕ → ℕ → Db
set_job_not_before db job not_before =
    update_jobs (job_is job) (λ j. record j { not_before = some not_before }) db

-- The states that MarkJobFailed and the wanted sync's cancellation leave alone.
abbrev pub guarded_states : List AlbumJobState
guarded_states = AlbumJobState.cancelled ∷ AlbumJobState.done ∷ AlbumJobState.failed ∷ []

-- MarkJobFailed
unfoldable pub mark_job_failed : Db → ℕ → ℕ → Db
mark_job_failed db job now =
    update_jobs (λ j. j.id == job && not (state_in j.state guarded_states))
      (λ j. record j {
        state = AlbumJobState.failed;
        failed_at = some now;
        not_before = none;
        updated_at = now;
      })
      db

-- ResetJobToWanted: a guard that bounces rolls the transaction back.
unfoldable pub reset_job_to_wanted : Db → ℕ → AlbumJobState → ℕ → Option ℕ → ℕ → Db
reset_job_to_wanted db job from retries not_before now =
    if count (job_in job from) db.jobs == 0
    then db
    else delete_children (λ k. k == job)
        (update_jobs (job_in job from)
          (λ j. record j {
            state = AlbumJobState.wanted;
            retries = retries;
            empty_searches = 0;
            not_before = not_before;
            updated_at = now;
          })
          db)

-- AdvanceJobStateFrom
unfoldable pub advance_job_state_from : Db → ℕ → AlbumJobState → AlbumJobState → ℕ → Db × Bool
advance_job_state_from db job from to now = (
  update_jobs (job_in job from) (λ j. record j { state = to; updated_at = now }) db,
  ltb 0 (count (job_in job from) db.jobs),
)

-- AdvanceJobState
unfoldable pub advance_job_state : Db → ℕ → AlbumJobState → ℕ → Db
advance_job_state db job to now =
    update_jobs (job_is job) (λ j. record j { state = to; updated_at = now }) db

-- SetJobTrackBand
unfoldable pub set_job_track_band : Db → ℕ → ℕ → ℕ → Db
set_job_track_band db job min_tracks max_tracks =
    update_jobs (job_is job)
      (λ j. record j { min_track_count = min_tracks; max_track_count = max_tracks }) db

-- UpdateJobMetadata
unfoldable pub update_job_metadata : Db → ℕ → Text → Text → Text → ℕ → ℕ → Db
update_job_metadata db job title artist_name release_date artist_id now =
    update_jobs (job_is job)
      (λ j. record j {
        title = title;
        artist_name = artist_name;
        release_date = release_date;
        artist_id = artist_id;
        updated_at = now;
      })
      db

-- title = '' OR artist_name = '' OR release_date = '' OR artist_id = 0
abbrev pub lacks_metadata : AlbumJob → Bool
lacks_metadata j =
    is_empty j.title || is_empty j.artist_name || is_empty j.release_date || j.artist_id == 0

-- BackfillJobMetadataIfEmpty
unfoldable pub backfill_job_metadata_if_empty : Db → ℕ → Text → Text → Text → ℕ → Db
backfill_job_metadata_if_empty db job title artist_name release_date artist_id =
    update_jobs (λ j. j.id == job && lacks_metadata j)
      (λ j. record j {
        title = title;
        artist_name = artist_name;
        release_date = release_date;
        artist_id = artist_id;
      })
      db

-- DeferSelectingJob
unfoldable pub defer_selecting_job : Db → ℕ → ℕ → Db
defer_selecting_job db job now =
    update_jobs (job_in job AlbumJobState.selecting) (λ j. record j { updated_at = now }) db
