-- ===== src/Pipeline/Selecting/Branches.antt =====
-- Where selectJob takes a job that has no NEW candidate left: internal/pipeline/selecting.go.
use slusk.Prelude.{
  ℕ, ◌+◌, ◌≡◌, refl, sym, ap, subst, ◌∙◌, inl, inr, Bool, true, not, ◌&&◌, ◌||◌, ◌==◌, Option, none,
  some, List, [], ◌∷◌, ◌++◌, leb, Bool-cases, if◌then◌else◌, arith,
}
use slusk.Prelude.Text.{Text, is_empty}
use slusk.Core.State.{AlbumJobState, JobSource, state_eq, state_in, source_eq}
use slusk.Core.Models.{AlbumJob}
use slusk.Store.Table.{find_row-holds}
use slusk.Store.Table.Found.{find_row-update}
use slusk.Store.Db.{
  Db, job_is, job_in, update_jobs, delete_children, delete_candidates, delete_transfers,
}
use slusk.Store.Jobs.{mark_job_failed, reset_job_to_wanted, guarded_states}
use slusk.Store.Candidates.{next_new_candidate}
use slusk.Store.Folders.{mark_download_folder_cleaned, download_folders_for_job}
use slusk.Pipeline.Backoff.{RetryPolicy, fail_or_backoff, next_backoff}
use slusk.Pipeline.Paths.{quarantine_dir_name}
use slusk.Pipeline.World.{World}
use slusk.Pipeline.Quarantine.{Disk, quarantine_folder}
use slusk.Pipeline.Downloading.Verdicts.{JobIn, RowIn, JobIn-count, state_eq_refl}
use slusk.Pipeline.Selecting.{
  SelectingSettings, Outside, quarantine_leaves, quarantine_leftovers, after_quarantine, exhausted,
  select_job,
}
use slusk.Pipeline.Selecting.Tables.{quarantine_folder-tables, record_moved-tables, verdict_world}

after_quarantine-jobs :
    (job : ℕ) (leaf : Text) (now : ℕ) (r : World × Option Text)
    → (after_quarantine job leaf now r).0.tables.jobs ≡ r.0.tables.jobs
unfolding mark_download_folder_cleaned
after_quarantine-jobs job leaf now (w, none) = refl
after_quarantine-jobs job leaf now (w, some dst) = refl

quarantine_leaves-jobs :
    (d : Disk) (job : ℕ) (root : Text) (now : ℕ) (leaves moved : List Text) (w : World)
    → (quarantine_leaves d job root now leaves moved w).0.tables.jobs ≡ w.tables.jobs
unfolding quarantine_leaves
quarantine_leaves-jobs d job root now [] moved w = refl
quarantine_leaves-jobs d job root now (leaf ∷ leaves) moved w =
    let kept = quarantine_folder d job root leaf quarantine_dir_name w in
    let turn = after_quarantine job leaf now kept in
    quarantine_leaves-jobs d job root now leaves (moved ++ turn.1) turn.0
    ∙ after_quarantine-jobs job leaf now kept
    ∙ ap (λ (db : Db). db.jobs) (quarantine_folder-tables d job root leaf quarantine_dir_name w)

quarantine_leftovers-jobs :
    (d : Disk) (root : Text) (job now : ℕ) (w : World)
    → (quarantine_leftovers d root job now w).tables.jobs ≡ w.tables.jobs
unfolding quarantine_leftovers
quarantine_leftovers-jobs d root job now w = elim (Bool-cases (is_empty root)) [
  | inl e ↦ rw e refl
  | inr e ↦
      let r = quarantine_leaves d job root now (download_folders_for_job w.tables job) [] w in
      rw e (
        ap (λ (db : Db). db.jobs) (record_moved-tables job r)
        ∙ quarantine_leaves-jobs d job root now (download_folders_for_job w.tables job) [] w)
]

quarantined-JobIn :
    (s : SelectingSettings) (d : Disk) (job now : ℕ) (w : World) (st : AlbumJobState)
    → JobIn w.tables job st
    → JobIn (quarantine_leftovers d s.complete_dir job now w).tables job st
quarantined-JobIn s d job now w st h =
    subst (λ rows. RowIn rows job st) (sym (quarantine_leftovers-jobs d s.complete_dir job now w)) h

-- An UPDATE that the job's row passes.
JobIn-update :
    (db : Db) (job : ℕ) (from to : AlbumJobState) (p : AlbumJob → Bool) (f : AlbumJob → AlbumJob)
    → ((j : AlbumJob) → (f j).id ≡ j.id)
    → ((j : AlbumJob) → state_eq (f j).state to ≡ true)
    → ((j : AlbumJob) → job_in job from j ≡ true → p j ≡ true)
    → JobIn db job from
    → JobIn (update_jobs p f db) job to
unfolding update_jobs
JobIn-update db job from to p f same_id sets passes (k, found, is) =
    let key = find_row-holds (job_is job) db.jobs k found in
    let chosen = passes k (rw (key, is) refl) in
    let after =
      find_row-update (job_is job) p f db.jobs k (λ j. ap (λ n. n == job) (same_id j)) found in
    (f k, rw chosen at after, sets k)

selecting_unguarded :
    (job : ℕ) (j : AlbumJob)
    → job_in job AlbumJobState.selecting j ≡ true
    → (j.id == job && not (state_in j.state guarded_states)) ≡ true
selecting_unguarded job j h = ground arith

mark_job_failed-JobIn :
    (db : Db) (job now : ℕ)
    → JobIn db job AlbumJobState.selecting
    → JobIn (mark_job_failed db job now) job AlbumJobState.failed
unfolding mark_job_failed
mark_job_failed-JobIn db job now h =
    JobIn-update db job AlbumJobState.selecting AlbumJobState.failed
      (λ j. j.id == job && not (state_in j.state guarded_states))
      (λ j. record j {
        state = AlbumJobState.failed;
        failed_at = some now;
        not_before = none;
        updated_at = now;
      })
      (λ j. refl) (λ j. state_eq_refl AlbumJobState.failed) (selecting_unguarded job) h

reset_job_to_wanted-JobIn :
    (db : Db) (job retries : ℕ) (not_before : Option ℕ) (now : ℕ)
    → JobIn db job AlbumJobState.selecting
    → JobIn
        (reset_job_to_wanted db job AlbumJobState.selecting retries not_before now)
        job
        AlbumJobState.wanted
unfolding reset_job_to_wanted delete_children delete_candidates delete_transfers
reset_job_to_wanted-JobIn db job retries not_before now h =
    rw (JobIn-count db job AlbumJobState.selecting h) (
      JobIn-update db job AlbumJobState.selecting AlbumJobState.wanted
        (job_in job AlbumJobState.selecting)
        (λ j. record j {
          state = AlbumJobState.wanted;
          retries = retries;
          empty_searches = 0;
          not_before = not_before;
          updated_at = now;
        })
        (λ j. refl) (λ j. state_eq_refl AlbumJobState.wanted) (λ j e. e) h)

-- Where a job goes that has tried all its candidates.
unfoldable pub exhausted_state : RetryPolicy → AlbumJob → AlbumJobState
exhausted_state policy j =
    if source_eq j.source JobSource.manual || leb policy.max_retries (j.retries + 1)
    then AlbumJobState.failed
    else AlbumJobState.wanted

exhausted-JobIn :
    (s : SelectingSettings) (d : Disk) (j : AlbumJob) (now : ℕ) (w : World)
    → JobIn w.tables j.id AlbumJobState.selecting
    → JobIn (exhausted s d j now w).tables j.id (exhausted_state s.policy j)
unfolding exhausted fail_or_backoff exhausted_state
exhausted-JobIn s d j now w h =
    let gone = mark_job_failed-JobIn w.tables j.id now h in
    let retries = j.retries + 1 in
    let not_before = now + next_backoff retries s.policy.base s.policy.cap in
    elim (Bool-cases (source_eq j.source JobSource.manual)) [
      | inl e ↦ rw e (quarantined-JobIn s d j.id now _ AlbumJobState.failed gone)
      | inr e ↦ elim (Bool-cases (leb s.policy.max_retries retries)) [
        | inl k ↦ rw (e, k) (quarantined-JobIn s d j.id now _ AlbumJobState.failed gone)
        | inr k ↦
            rw (e, k) (reset_job_to_wanted-JobIn w.tables j.id retries (some not_before) now h)
      ]
    ]

-- For a SELECTING job without a NEW candidate, selectJob leaves the job FAILED where it is a
-- manual one or its retries are used up, and WANTED otherwise.
pub select_job-exhausted_state :
    (s : SelectingSettings) (o : Outside) (j : AlbumJob) (now : ℕ) (w : World)
    → next_new_candidate w.tables j.id ≡ none
    → JobIn w.tables j.id AlbumJobState.selecting
    → JobIn (verdict_world (select_job s o j now w)).tables j.id (exhausted_state s.policy j)
unfolding select_job
select_job-exhausted_state s o j now w none_left h =
    rw (none_left, select_job) (exhausted-JobIn s o.disk j now w h)
