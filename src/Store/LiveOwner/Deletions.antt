-- ===== src/Store/LiveOwner/Deletions.antt =====
-- The operations of the store that only delete transfers, or leave them, and the updates of one
-- live transfer.
use slusk.Prelude.{ℕ, refl, Bool, ◌&&◌, ◌==◌, Option, Bool-cases, Option-cases, inl, inr, &&-parts}
use slusk.Prelude.Int.{ℤ}
use slusk.Prelude.Text.{Text, is_empty}
use slusk.Core.State.{
  AlbumJobState, TransferState, CandidateState, state_eq, is_live, candidate_state_eq,
}
use slusk.Core.Models.{AlbumJob, Candidate}
use slusk.Store.Table.{count, exists, find_row}
use slusk.Store.Db.{
  Db, job_is, job_in, candidate_of, update_jobs, update_candidates, update_transfers,
  delete_transfers, delete_candidates, delete_children, delete_rejections, candidate_in,
  candidate_is,
}
use slusk.Store.Jobs.{reset_job_to_wanted}
use slusk.Store.Rejections.{first_filename, record_rejection_tx, record_rejection_row}
use slusk.Store.Candidates.{
  RejectionRule, terminal_candidate_and_advance, terminal_writes, commit_with,
}
use slusk.Store.Retry.{
  retry_failed_job, retry_manual_job, retry_refused_job, revive_refused, current_candidate,
  force_search_job, delete_job, delete_job_rows, retryable, retryable_manual, searchable, only,
  park_job_for_candidate, park_locked, live_transfer,
}
use slusk.Store.LiveOwner.{LiveUnique, update-LiveUnique, delete-LiveUnique}

pub delete_children-LiveUnique :
    (jobs : ℕ → Bool) (db : Db)
    → LiveUnique db.transfers
    → LiveUnique (delete_children jobs db).transfers
unfolding delete_children delete_candidates delete_transfers
delete_children-LiveUnique jobs db u = delete-LiveUnique _ db.transfers u

pub reset_job_to_wanted-LiveUnique :
    (db : Db) (job : ℕ) (from : AlbumJobState) (retries : ℕ) (not_before : Option ℕ) (now : ℕ)
    → LiveUnique db.transfers
    → LiveUnique (reset_job_to_wanted db job from retries not_before now).transfers
unfolding reset_job_to_wanted update_jobs
reset_job_to_wanted-LiveUnique db job from retries not_before now u =
    elim (Bool-cases (count (job_in job from) db.jobs == 0)) [
      | inl e ↦ rw e u
      | inr e ↦ rw e (delete_children-LiveUnique _ _ u)
    ]

record_rejection-transfers :
    (written : Db) (candidate job : ℕ) (reason : Text) (rule : RejectionRule) (now : ℕ) (db : Db)
    → LiveUnique written.transfers
    → LiveUnique db.transfers
    → LiveUnique
        (commit_with db
          (record_rejection_tx written candidate job reason rule.cooldown now)).0.transfers
unfolding record_rejection_tx record_rejection_row
record_rejection-transfers written candidate job reason rule now db uw u =
    elim (Option-cases (find_row (candidate_is candidate) written.candidates)) [
      | inl e ↦ rw (e, record_rejection_tx) u
      | inr (c, e) ↦
          rw (e, record_rejection_tx)
            (elim (Bool-cases (is_empty (first_filename c.files))) [
              | inl f ↦ rw (f, record_rejection_row) uw
              | inr f ↦ rw (f, record_rejection_row) uw
            ])
    ]

pub terminal_candidate_and_advance-LiveUnique :
    (db : Db) (candidate job : ℕ) (set : Candidate → Candidate) (from to : AlbumJobState)
    (reason : Text) (rule : RejectionRule) (now : ℕ)
    → LiveUnique db.transfers
    → LiveUnique
        (terminal_candidate_and_advance db candidate job set from to reason rule now).0.transfers
unfolding terminal_candidate_and_advance update_jobs update_candidates
terminal_candidate_and_advance-LiveUnique db candidate job set from to reason rule now u =
    elim (Bool-cases (count (candidate_in candidate CandidateState.active) db.candidates == 0)) [
      | inl e ↦ rw e u
      | inr e ↦ rw e (elim (Bool-cases (count (job_in job from) db.jobs == 0)) [
        | inl f ↦ rw f u
        | inr f ↦ rw f (elim (Bool-cases rule.records) [
          | inl g ↦ rw g (
              record_rejection-transfers (terminal_writes db candidate job set from to reason now)
                candidate job reason rule now db u u)
          | inr g ↦ rw g u
        ])
      ])
    ]

pub retry_failed_job-LiveUnique :
    (db : Db) (job now : ℕ)
    → LiveUnique db.transfers
    → LiveUnique (retry_failed_job db job now).0.transfers
unfolding retry_failed_job delete_rejections update_jobs
retry_failed_job-LiveUnique db job now u = elim (Bool-cases (count (retryable job) db.jobs == 0)) [
  | inl e ↦ rw e u
  | inr e ↦ rw e (delete_children-LiveUnique (only job) (record db { jobs = _ }) u)
]

pub retry_manual_job-LiveUnique :
    (db : Db) (job now : ℕ)
    → LiveUnique db.transfers
    → LiveUnique (retry_manual_job db job now).0.transfers
unfolding retry_manual_job delete_transfers update_jobs update_candidates
retry_manual_job-LiveUnique db job now u =
    elim (Bool-cases (count (retryable_manual job) db.jobs == 0)) [
      | inl e ↦ rw e u
      | inr e ↦ rw e (elim (Bool-cases (count (candidate_of (only job)) db.candidates == 0)) [
        | inl f ↦ rw f u
        | inr f ↦ rw f (delete-LiveUnique _ db.transfers u)
      ])
    ]

revive_refused_unique :
    (db : Db) (job : ℕ) (c : Candidate) (now : ℕ)
    → LiveUnique db.transfers
    → LiveUnique (revive_refused db job c now).transfers
unfolding revive_refused update_jobs update_candidates
revive_refused_unique db job c now u = elim (Bool-cases (is_empty (first_filename c.files))) [
  | inl e ↦ rw (e, revive_refused) u
  | inr e ↦ rw (e, revive_refused) u
]

pub retry_refused_job-LiveUnique :
    (db : Db) (job now : ℕ)
    → LiveUnique db.transfers
    → LiveUnique (retry_refused_job db job now).0.transfers
unfolding retry_refused_job
retry_refused_job-LiveUnique db job now u =
    elim (Bool-cases (count (job_in job AlbumJobState.import_refused) db.jobs == 0)) [
      | inl e ↦ rw e u
      | inr e ↦ rw e (elim (Option-cases (current_candidate db job)) [
        | inl f ↦ rw (f, retry_refused_job) u
        | inr (c, f) ↦
            rw (f, retry_refused_job)
              (elim (Bool-cases (candidate_state_eq c.state CandidateState.failed)) [
                | inl g ↦ rw g (revive_refused_unique db job c now u)
                | inr g ↦ rw g u
              ])
      ])
    ]

pub force_search_job-LiveUnique :
    (db : Db) (job now : ℕ)
    → LiveUnique db.transfers
    → LiveUnique (force_search_job db job now).0.transfers
unfolding force_search_job update_jobs
force_search_job-LiveUnique db job now u = elim (Bool-cases (count (searchable job) db.jobs == 0)) [
  | inl e ↦ rw e u
  | inr e ↦ rw e (delete_children-LiveUnique (only job) (record db { jobs = _ }) u)
]

pub delete_job-LiveUnique :
    (db : Db) (job : ℕ) → LiveUnique db.transfers → LiveUnique (delete_job db job).0.transfers
unfolding delete_job delete_job_rows delete_rejections
delete_job-LiveUnique db job u = elim (Option-cases (find_row (job_is job) db.jobs)) [
  | inl e ↦ rw (e, delete_job) u
  | inr (j, e) ↦
      rw (e, delete_job)
        (elim (Bool-cases (state_eq j.state AlbumJobState.importing)) [
          | inl f ↦ rw f u
          | inr f ↦ rw f (delete_children-LiveUnique (only job) db u)
        ])
]

park_locked_unique :
    (db : Db) (j : AlbumJob) (transfer candidate : ℕ) (to : TransferState) (done total : ℤ)
    (now : ℕ)
    → LiveUnique db.transfers
    → LiveUnique (park_locked db j transfer candidate to done total now).0.transfers
unfolding park_locked update_transfers update_jobs
park_locked_unique db j transfer candidate to done total now u =
    let written =
      update-LiveUnique (live_transfer transfer candidate) _ db.transfers (λ t. refl) (λ t. refl)
        (λ t h. (&&-parts _ (is_live t.state) (&&-parts (t.id == transfer) _ h).1).1) u in
    elim (Bool-cases (count (live_transfer transfer candidate) db.transfers == 0)) [
      | inl e ↦ rw (e, park_locked) u
      | inr e ↦
          rw (e, park_locked)
            (elim (Bool-cases (state_eq j.state AlbumJobState.downloading)) [
              | inl f ↦ rw f written
              | inr f ↦ rw f written
            ])
    ]

pub park_job_for_candidate-LiveUnique :
    (db : Db) (transfer candidate : ℕ) (to : TransferState) (done total : ℤ) (now : ℕ)
    → LiveUnique db.transfers
    → LiveUnique (park_job_for_candidate db transfer candidate to done total now).0.transfers
unfolding park_job_for_candidate
park_job_for_candidate-LiveUnique db transfer candidate to done total now u =
    elim (Option-cases (find_row (candidate_is candidate) db.candidates)) [
      | inl e ↦ rw (e, park_job_for_candidate) u
      | inr (c, e) ↦
          rw (e, park_job_for_candidate)
            (elim (Option-cases (find_row (job_is c.album_job_id) db.jobs)) [
              | inl f ↦ rw (f, park_job_for_candidate) u
              | inr (j, f) ↦
                  rw (f, park_job_for_candidate)
                    (elim (Bool-cases (
                      exists (λ t. t.id == transfer && t.candidate_id == candidate) db.transfers)) [
                        | inl g ↦
                            rw g (park_locked_unique db j transfer candidate to done total now u)
                        | inr g ↦ rw g u
                      ])
            ])
    ]
