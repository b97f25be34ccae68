-- ===== src/Store/Integrity/Retry.antt =====
-- The retries of a job, the forced search, parking and the deletion keep the referential integrity.
use slusk.Prelude.{
  ℕ, ◌≡◌, ◌∙◌, refl, true, false, ◌&&◌, ◌==◌, List, arith, All, Bool-cases, Option-cases, inl, inr,
}
use slusk.Prelude.Int.{ℤ}
use slusk.Prelude.Text.{is_empty}
use slusk.Core.State.{AlbumJobState, CandidateState, TransferState, candidate_state_eq, state_eq}
use slusk.Core.Models.{AlbumJob, Candidate}
use slusk.Store.Table.{
  delete, exists, count, find_row, All-delete, All-delete_self, All-and, exists-delete,
}
use slusk.Store.Db.{
  Db, job_is, job_in, candidate_of, delete_rejections, delete_children, delete_candidates,
  delete_transfers,
}
use slusk.Store.Rejections.{first_filename}
use slusk.Store.Retry.{
  retry_failed_job, retry_manual_job, retry_refused_job, revive_refused, current_candidate,
  force_search_job, delete_job, delete_job_rows, retryable, retryable_manual, searchable, only,
  revived_rows, searched_rows, park_locked, park_job_for_candidate, live_transfer,
}
use slusk.Store.Integrity.{
  Integrity, update_jobs-Integrity, update_candidates-Integrity, delete_transfers-Integrity,
  delete_children-Integrity, delete_rejections-Integrity, with_rejections,
  update_transfers-Integrity,
}

pub retry_failed_job-Integrity :
    (db : Db) (job now : ℕ) → Integrity db → Integrity (retry_failed_job db job now).0
unfolding retry_failed_job
retry_failed_job-Integrity db job now i = elim (Bool-cases (count (retryable job) db.jobs == 0)) [
  | inl e ↦ rw e i
  | inr e ↦ rw e (
      delete_rejections-Integrity _ _
        (delete_children-Integrity _ _ (update_jobs-Integrity _ (λ j. refl) _ db i)))
]

pub retry_manual_job-Integrity :
    (db : Db) (job now : ℕ) → Integrity db → Integrity (retry_manual_job db job now).0
unfolding retry_manual_job
retry_manual_job-Integrity db job now i =
    elim (Bool-cases (count (retryable_manual job) db.jobs == 0)) [
      | inl e ↦ rw e i
      | inr e ↦ rw e (elim (Bool-cases (count (candidate_of (only job)) db.candidates == 0)) [
        | inl f ↦ rw f i
        | inr f ↦ rw f (
            update_candidates-Integrity _ (λ c. refl) (λ c. refl) _ _
              (delete_transfers-Integrity _ _ (update_jobs-Integrity _ (λ j. refl) _ db i)))
      ])
    ]

revive_refused-Integrity :
    (db : Db) (job : ℕ) (c : Candidate) (now : ℕ)
    → Integrity db
    → Integrity (revive_refused db job c now)
unfolding revive_refused
revive_refused-Integrity db job c now i = elim (Bool-cases (is_empty (first_filename c.files))) [
  | inl e ↦ rw e revived
  | inr e ↦ rw e (with_rejections _ _ (All-delete _ _ _ revived.rejections_owned) revived)
]
  where
    revived : Integrity (revived_rows db job c now)
    revived =
        update_candidates-Integrity _ (λ c. refl) (λ c. refl) _ _
          (update_jobs-Integrity _ (λ j. refl) _ db i)

pub retry_refused_job-Integrity :
    (db : Db) (job now : ℕ) → Integrity db → Integrity (retry_refused_job db job now).0
unfolding retry_refused_job
retry_refused_job-Integrity db job now i =
    elim (Bool-cases (count (job_in job AlbumJobState.import_refused) db.jobs == 0)) [
      | inl e ↦ rw e i
      | inr e ↦ rw e (elim (Option-cases (current_candidate db job)) [
        | inl f ↦ rw (f, retry_refused_job) i
        | inr (c, f) ↦
            rw (f, retry_refused_job)
              (elim (Bool-cases (candidate_state_eq c.state CandidateState.failed)) [
                | inl g ↦ rw g (revive_refused-Integrity db job c now i)
                | inr g ↦ rw g i
              ])
      ])
    ]

pub force_search_job-Integrity :
    (db : Db) (job now : ℕ) → Integrity db → Integrity (force_search_job db job now).0
unfolding force_search_job
force_search_job-Integrity db job now i = elim (Bool-cases (count (searchable job) db.jobs == 0)) [
  | inl e ↦ rw e i
  | inr e ↦ rw e (with_rejections _ _ (All-delete _ _ _ cleared.rejections_owned) cleared)
]
  where
    cleared : Integrity (searched_rows db job now)
    cleared = delete_children-Integrity _ _ (update_jobs-Integrity _ (λ j. refl) _ db i)

-- Another job is still there when one is deleted.
other_job :
    (job k : ℕ) (jobs : List AlbumJob)
    → (k == job) ≡ false
    → exists (job_is k) jobs ≡ true
    → exists (job_is k) (delete (job_is job) jobs) ≡ true
other_job job k jobs ne h = exists-delete (job_is k) (job_is job) jobs (λ j e. ground arith) ∙ h

-- What no longer names the job keeps its reference when the job goes.
rows_without {ℓ} :
    {A : Type ℓ} (owner : A → ℕ) (job : ℕ) (rows : List A) (jobs : List AlbumJob)
    → All (λ x. exists (job_is (owner x)) jobs ≡ true) rows
    → All
        (λ x. exists (job_is (owner x)) (delete (job_is job) jobs) ≡ true)
        (delete (λ x. owner x == job) rows)
rows_without owner job rows jobs owned =
    All-and (λ x. exists (job_is (owner x)) jobs ≡ true) (λ x. (owner x == job) ≡ false)
      (λ x. exists (job_is (owner x)) (delete (job_is job) jobs) ≡ true) _
      (λ x h ne. other_job job (owner x) jobs ne h) (All-delete _ (λ x. owner x == job) rows owned)
      (All-delete_self (λ x. owner x == job) rows)

pub delete_job_rows-Integrity :
    (db : Db) (job : ℕ) → Integrity db → Integrity (delete_job_rows db job)
unfolding delete_job_rows delete_rejections delete_children delete_candidates delete_transfers
delete_job_rows-Integrity db job i = record {
  candidates_owned =
      rows_without (λ c. c.album_job_id) job db.candidates db.jobs i.candidates_owned;
  transfers_owned = (delete_children-Integrity (only job) db i).transfers_owned;
  rejections_owned =
      rows_without (λ r. r.album_job_id) job db.rejections db.jobs i.rejections_owned;
  folders_owned = rows_without (λ f. f.album_job_id) job db.folders db.jobs i.folders_owned;
  jobs_below = All-delete _ (job_is job) db.jobs i.jobs_below;
  candidates_below = (delete_children-Integrity (only job) db i).candidates_below;
  unique_candidates = (delete_children-Integrity (only job) db i).unique_candidates;
}

pub delete_job-Integrity : (db : Db) (job : ℕ) → Integrity db → Integrity (delete_job db job).0
unfolding delete_job
delete_job-Integrity db job i = elim (Option-cases (find_row (job_is job) db.jobs)) [
  | inl e ↦ rw (e, delete_job) i
  | inr (j, e) ↦
      rw (e, delete_job)
        (elim (Bool-cases (state_eq j.state AlbumJobState.importing)) [
          | inl f ↦ rw f i
          | inr f ↦ rw f (delete_job_rows-Integrity db job i)
        ])
]

park_locked-Integrity :
    (db : Db) (j : AlbumJob) (transfer candidate : ℕ) (to : TransferState)
    (bytes_done bytes_total : ℤ) (now : ℕ)
    → Integrity db
    → Integrity (park_locked db j transfer candidate to bytes_done bytes_total now).0
unfolding park_locked
park_locked-Integrity db j transfer candidate to bytes_done bytes_total now i =
    elim (Bool-cases (count (live_transfer transfer candidate) db.transfers == 0)) [
      | inl e ↦ rw e i
      | inr e ↦ rw e (elim (Bool-cases (state_eq j.state AlbumJobState.downloading)) [
        | inl f ↦ rw f (
            update_jobs-Integrity _ (λ j. refl) _ _
              (update_transfers-Integrity _ (λ t. refl) _ db i))
        | inr f ↦ rw f (update_transfers-Integrity _ (λ t. refl) _ db i)
      ])
    ]

pub park_job_for_candidate-Integrity :
    (db : Db) (transfer candidate : ℕ) (to : TransferState) (bytes_done bytes_total : ℤ) (now : ℕ)
    → Integrity db
    → Integrity (park_job_for_candidate db transfer candidate to bytes_done bytes_total now).0
unfolding park_job_for_candidate
park_job_for_candidate-Integrity db transfer candidate to bytes_done bytes_total now i =
    elim (Option-cases (find_row (λ c. c.id == candidate) db.candidates)) [
      | inl e ↦ rw (e, park_job_for_candidate) i
      | inr (c, e) ↦
          rw (e, park_job_for_candidate)
            (elim (Option-cases (find_row (job_is c.album_job_id) db.jobs)) [
              | inl f ↦ rw (f, park_job_for_candidate) i
              | inr (j, f) ↦
                  rw (f, park_job_for_candidate)
                    (elim (Bool-cases (
                      exists (λ t. t.id == transfer && t.candidate_id == candidate) db.transfers)) [
                        | inl g ↦ rw g (
                            park_locked-Integrity db j transfer candidate to bytes_done bytes_total
                              now i)
                        | inr g ↦ rw g i
                      ])
            ])
    ]
