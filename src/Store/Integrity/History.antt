-- ===== src/Store/Integrity/History.antt =====
-- The referential integrity over every history of the store.
use slusk.Prelude.{List, [], ◌∷◌, refl, true, false, none, some}
use slusk.Store.Db.{Db}
use slusk.Store.Jobs.{
  set_job_backoff, set_job_empty_search_backoff, set_job_not_before, mark_job_failed,
  defer_selecting_job, advance_job_state_from, advance_job_state, set_job_track_band,
  update_job_metadata, backfill_job_metadata_if_empty,
}
use slusk.Store.Candidates.{
  set_failed, set_succeeded, fail_candidate, succeed_candidate, mark_import_submitted,
  fail_candidate_and_advance, cooldown_candidate_and_advance, reject_candidate_and_advance,
  succeed_candidate_and_advance,
}
use slusk.Store.Transfers.{update_transfer_progress, retry_transfer, cancel_job, prepare_delete_job}
use slusk.Store.Wanted.{cancel_jobs_not_wanted, revive_failed_jobs}
use slusk.Store.Folders.{clear_candidate_deferral}
use slusk.Store.Operation.{Operation, apply, run}
use slusk.Store.Integrity.{
  Integrity, update_jobs-Integrity, update_candidates-Integrity, update_transfers-Integrity,
}
use slusk.Store.Integrity.Candidates.{
  insert_candidates-Integrity, terminal_candidate_and_advance-Integrity,
  reset_job_to_wanted-Integrity,
}
use slusk.Store.Integrity.Activation.{
  activate_candidate_with_transfers-Integrity, create_manual_job-Integrity,
}
use slusk.Store.Integrity.Retry.{
  retry_failed_job-Integrity, retry_manual_job-Integrity, retry_refused_job-Integrity,
  force_search_job-Integrity, delete_job-Integrity, park_job_for_candidate-Integrity,
}
use slusk.Store.Integrity.Transfers.{
  record_enqueue_intent-Integrity, attach_transfer_id-Integrity, prepare_job_cancellation-Integrity,
  register_download_folder-Integrity, mark_download_folder_cleaned-Integrity,
  defer_candidate-Integrity,
}
use slusk.Store.Integrity.Wanted.{sync_wanted_jobs-Integrity, bulk_retry_jobs-Integrity}

pub apply-Integrity : (op : Operation) (db : Db) → Integrity db → Integrity (apply op db)
unfolding apply set_job_backoff set_job_empty_search_backoff set_job_not_before mark_job_failed
    defer_selecting_job advance_job_state_from advance_job_state set_job_track_band
    update_job_metadata backfill_job_metadata_if_empty fail_candidate succeed_candidate
    mark_import_submitted fail_candidate_and_advance cooldown_candidate_and_advance
    reject_candidate_and_advance succeed_candidate_and_advance update_transfer_progress
    retry_transfer cancel_job prepare_delete_job cancel_jobs_not_wanted revive_failed_jobs
    clear_candidate_deferral
apply-Integrity (Operation.set_job_backoff j r t now) db i =
    update_jobs-Integrity _ (λ j. refl) _ db i
apply-Integrity (Operation.set_job_empty_search_backoff j e t now) db i =
    update_jobs-Integrity _ (λ j. refl) _ db i
apply-Integrity (Operation.set_job_not_before j t) db i = update_jobs-Integrity _ (λ j. refl) _ db i
apply-Integrity (Operation.mark_job_failed j now) db i = update_jobs-Integrity _ (λ j. refl) _ db i
apply-Integrity (Operation.defer_selecting_job j now) db i =
    update_jobs-Integrity _ (λ j. refl) _ db i
apply-Integrity (Operation.reset_job_to_wanted j from r t now) db i =
    reset_job_to_wanted-Integrity db j from r t now i
apply-Integrity (Operation.advance_job_state_from j from to now) db i =
    update_jobs-Integrity _ (λ j. refl) _ db i
apply-Integrity (Operation.advance_job_state j to now) db i =
    update_jobs-Integrity _ (λ j. refl) _ db i
apply-Integrity (Operation.set_job_track_band j lo hi) db i =
    update_jobs-Integrity _ (λ j. refl) _ db i
apply-Integrity (Operation.update_job_metadata j t a d k now) db i =
    update_jobs-Integrity _ (λ j. refl) _ db i
apply-Integrity (Operation.backfill_job_metadata j t a d k) db i =
    update_jobs-Integrity _ (λ j. refl) _ db i
apply-Integrity (Operation.insert_candidates j cs now) db i =
    insert_candidates-Integrity db j cs now i
apply-Integrity (Operation.fail_candidate c reason now) db i =
    update_candidates-Integrity _ (λ c. refl) (λ c. refl) _ db i
apply-Integrity (Operation.succeed_candidate c now) db i =
    update_candidates-Integrity _ (λ c. refl) (λ c. refl) _ db i
apply-Integrity (Operation.mark_import_submitted c now) db i =
    update_candidates-Integrity _ (λ c. refl) (λ c. refl) _ db i
apply-Integrity (Operation.fail_and_advance c j reason from to now) db i =
    terminal_candidate_and_advance-Integrity db c j (set_failed reason now) from to reason
      (record { records = false; cooldown = none }) now (λ c. refl) (λ c. refl) i
apply-Integrity (Operation.cooldown_and_advance c j reason from to policy now) db i =
    terminal_candidate_and_advance-Integrity db c j (set_failed reason now) from to reason
      (record { records = true; cooldown = some policy }) now (λ c. refl) (λ c. refl) i
apply-Integrity (Operation.reject_and_advance c j reason from to now) db i =
    terminal_candidate_and_advance-Integrity db c j (set_failed reason now) from to reason
      (record { records = true; cooldown = none }) now (λ c. refl) (λ c. refl) i
apply-Integrity (Operation.succeed_and_advance c j from to now) db i =
    terminal_candidate_and_advance-Integrity db c j (set_succeeded now) from to []
      (record { records = false; cooldown = none }) now (λ c. refl) (λ c. refl) i
apply-Integrity (Operation.activate c j cap deadline now) db i =
    activate_candidate_with_transfers-Integrity db c j cap deadline now i
apply-Integrity (Operation.create_manual t a peer mbid files deadline now) db i =
    create_manual_job-Integrity db t a peer mbid files deadline now i
apply-Integrity (Operation.retry_failed j now) db i = retry_failed_job-Integrity db j now i
apply-Integrity (Operation.retry_manual j now) db i = retry_manual_job-Integrity db j now i
apply-Integrity (Operation.retry_refused j now) db i = retry_refused_job-Integrity db j now i
apply-Integrity (Operation.force_search j now) db i = force_search_job-Integrity db j now i
apply-Integrity (Operation.delete_job j) db i = delete_job-Integrity db j i
apply-Integrity (Operation.park t c to n total now) db i =
    park_job_for_candidate-Integrity db t c to n total now i
apply-Integrity (Operation.record_intent c u f deadline now) db i =
    record_enqueue_intent-Integrity db c u f deadline now i
apply-Integrity (Operation.attach_id t remote now) db i =
    attach_transfer_id-Integrity db t remote now i
apply-Integrity (Operation.update_progress t to n total now) db i =
    update_transfers-Integrity _ (λ t. refl) _ db i
apply-Integrity (Operation.retry_transfer t now) db i =
    update_transfers-Integrity _ (λ t. refl) _ db i
apply-Integrity (Operation.cancel_job j now) db i =
    prepare_job_cancellation-Integrity db j now false i
apply-Integrity (Operation.prepare_delete j now) db i =
    prepare_job_cancellation-Integrity db j now true i
apply-Integrity (Operation.cancel_not_wanted ids now) db i =
    update_jobs-Integrity _ (λ j. refl) _ db i
apply-Integrity (Operation.revive_failed ids cutoff now) db i =
    update_jobs-Integrity _ (λ j. refl) _ db i
apply-Integrity (Operation.sync_wanted releases cutoff now) db i =
    sync_wanted_jobs-Integrity db releases cutoff now i
apply-Integrity (Operation.bulk_retry ids now) db i = bulk_retry_jobs-Integrity db ids now i
apply-Integrity (Operation.register_folder j leaf now) db i =
    register_download_folder-Integrity db j leaf now i
apply-Integrity (Operation.mark_folder_cleaned j leaf now) db i =
    mark_download_folder_cleaned-Integrity db j leaf now i
apply-Integrity (Operation.defer_candidate c now) db i = defer_candidate-Integrity db c now i
apply-Integrity (Operation.clear_deferral c) db i =
    update_candidates-Integrity _ (λ c. refl) (λ c. refl) _ db i

-- From tables with referential integrity, every history of store operations, each with any
-- arguments, leaves tables with referential integrity: every candidate, rejection and folder
-- names a job that is there, every transfer a candidate that is there, and candidate ids are
-- unique.
pub run-Integrity : (ops : List Operation) (db : Db) → Integrity db → Integrity (run ops db)
unfolding run
run-Integrity [] db i = i
run-Integrity (op ∷ ops) db i = run-Integrity ops (apply op db) (apply-Integrity op db i)
