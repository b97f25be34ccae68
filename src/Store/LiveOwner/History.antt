-- ===== src/Store/LiveOwner/History.antt =====
-- The single live owner of a remote file over every history of the store.
use slusk.Prelude.{ℕ, List, [], ◌∷◌, refl, true, false, none, some, &&-parts, ◌≡◌, ◌&&◌, ◌==◌}
use slusk.Store.Db.{Db, update_jobs, update_candidates, update_transfers}
use slusk.Store.Jobs.{
  set_job_backoff, set_job_empty_search_backoff, set_job_not_before, mark_job_failed,
  defer_selecting_job, advance_job_state_from, advance_job_state, set_job_track_band,
  update_job_metadata, backfill_job_metadata_if_empty,
}
use slusk.Store.Candidates.{
  set_failed, set_succeeded, fail_candidate, succeed_candidate, mark_import_submitted,
  fail_candidate_and_advance, cooldown_candidate_and_advance, reject_candidate_and_advance,
  succeed_candidate_and_advance,
}
use slusk.Store.Transfers.{
  update_transfer_progress, retry_transfer, cancel_job, prepare_delete_job, live_id, uncancelled,
}
use slusk.Store.Wanted.{cancel_jobs_not_wanted, revive_failed_jobs}
use slusk.Store.Folders.{clear_candidate_deferral, mark_download_folder_cleaned}
use slusk.Store.Operation.{Operation, apply, run}
use slusk.Store.LiveOwner.{LiveUnique, update-LiveUnique}
use slusk.Core.Models.{Transfer}
use slusk.Core.State.{is_live}
use slusk.Store.LiveOwner.Statements.{
  activate_candidate_with_transfers-LiveUnique, create_manual_job-LiveUnique,
  record_enqueue_intent-LiveUnique, attach_transfer_id-LiveUnique,
  prepare_job_cancellation-LiveUnique,
}
use slusk.Store.LiveOwner.Deletions.{
  reset_job_to_wanted-LiveUnique, terminal_candidate_and_advance-LiveUnique,
  retry_failed_job-LiveUnique, retry_manual_job-LiveUnique, retry_refused_job-LiveUnique,
  force_search_job-LiveUnique, delete_job-LiveUnique, park_job_for_candidate-LiveUnique,
}
use slusk.Store.LiveOwner.Sync.{
  sync_wanted_jobs-LiveUnique, bulk_retry_jobs-LiveUnique, insert_candidates-LiveUnique,
  register_download_folder-LiveUnique, defer_candidate-LiveUnique,
}

live_lem :
    (transfer : ℕ) (db : Db) (t : Transfer)
    → (live_id transfer t && uncancelled db t) ≡ true
    → is_live t.state ≡ true
live_lem transfer db t h = (&&-parts (t.id == transfer) _ (&&-parts (live_id transfer t) _ h).0).1

pub apply-LiveUnique :
    (op : Operation) (db : Db) → LiveUnique db.transfers → LiveUnique (apply op db).transfers
unfolding apply set_job_backoff set_job_empty_search_backoff set_job_not_before mark_job_failed
    defer_selecting_job advance_job_state_from advance_job_state set_job_track_band
    update_job_metadata backfill_job_metadata_if_empty fail_candidate succeed_candidate
    mark_import_submitted fail_candidate_and_advance cooldown_candidate_and_advance
    reject_candidate_and_advance succeed_candidate_and_advance update_transfer_progress
    retry_transfer cancel_job prepare_delete_job cancel_jobs_not_wanted revive_failed_jobs
    clear_candidate_deferral mark_download_folder_cleaned update_jobs update_candidates
    update_transfers
apply-LiveUnique (Operation.set_job_backoff j r t now) db i = i
apply-LiveUnique (Operation.set_job_empty_search_backoff j e t now) db i = i
apply-LiveUnique (Operation.set_job_not_before j t) db i = i
apply-LiveUnique (Operation.mark_job_failed j now) db i = i
apply-LiveUnique (Operation.defer_selecting_job j now) db i = i
apply-LiveUnique (Operation.reset_job_to_wanted j from r t now) db i =
    reset_job_to_wanted-LiveUnique db j from r t now i
apply-LiveUnique (Operation.advance_job_state_from j from to now) db i = i
apply-LiveUnique (Operation.advance_job_state j to now) db i = i
apply-LiveUnique (Operation.set_job_track_band j lo hi) db i = i
apply-LiveUnique (Operation.update_job_metadata j t a d k now) db i = i
apply-LiveUnique (Operation.backfill_job_metadata j t a d k) db i = i
apply-LiveUnique (Operation.insert_candidates j cs now) db i =
    insert_candidates-LiveUnique db j cs now i
apply-LiveUnique (Operation.fail_candidate c reason now) db i = i
apply-LiveUnique (Operation.succeed_candidate c now) db i = i
apply-LiveUnique (Operation.mark_import_submitted c now) db i = i
apply-LiveUnique (Operation.fail_and_advance c j reason from to now) db i =
    terminal_candidate_and_advance-LiveUnique db c j (set_failed reason now) from to reason
      (record { records = false; cooldown = none }) now i
apply-LiveUnique (Operation.cooldown_and_advance c j reason from to policy now) db i =
    terminal_candidate_and_advance-LiveUnique db c j (set_failed reason now) from to reason
      (record { records = true; cooldown = some policy }) now i
apply-LiveUnique (Operation.reject_and_advance c j reason from to now) db i =
    terminal_candidate_and_advance-LiveUnique db c j (set_failed reason now) from to reason
      (record { records = true; cooldown = none }) now i
apply-LiveUnique (Operation.succeed_and_advance c j from to now) db i =
    terminal_candidate_and_advance-LiveUnique db c j (set_succeeded now) from to []
      (record { records = false; cooldown = none }) now i
apply-LiveUnique (Operation.activate c j cap deadline now) db i =
    activate_candidate_with_transfers-LiveUnique db c j cap deadline now i
apply-LiveUnique (Operation.create_manual t a peer mbid files deadline now) db i =
    create_manual_job-LiveUnique db t a peer mbid files deadline now i
apply-LiveUnique (Operation.retry_failed j now) db i = retry_failed_job-LiveUnique db j now i
apply-LiveUnique (Operation.retry_manual j now) db i = retry_manual_job-LiveUnique db j now i
apply-LiveUnique (Operation.retry_refused j now) db i = retry_refused_job-LiveUnique db j now i
apply-LiveUnique (Operation.force_search j now) db i = force_search_job-LiveUnique db j now i
apply-LiveUnique (Operation.delete_job j) db i = delete_job-LiveUnique db j i
apply-LiveUnique (Operation.park t c to n total now) db i =
    park_job_for_candidate-LiveUnique db t c to n total now i
apply-LiveUnique (Operation.record_intent c u f deadline now) db i =
    record_enqueue_intent-LiveUnique db c u f deadline now i
apply-LiveUnique (Operation.attach_id t remote now) db i =
    attach_transfer_id-LiveUnique db t remote now i
apply-LiveUnique (Operation.update_progress t to n total now) db i =
    update-LiveUnique (λ r. live_id t r && uncancelled db r) _ db.transfers (λ r. refl) (λ r. refl)
      (λ r h. live_lem t db r h) i
apply-LiveUnique (Operation.retry_transfer t now) db i =
    update-LiveUnique (λ r. live_id t r && uncancelled db r) _ db.transfers (λ r. refl) (λ r. refl)
      (λ r h. live_lem t db r h) i
apply-LiveUnique (Operation.cancel_job j now) db i =
    prepare_job_cancellation-LiveUnique db j now false i
apply-LiveUnique (Operation.prepare_delete j now) db i =
    prepare_job_cancellation-LiveUnique db j now true i
apply-LiveUnique (Operation.cancel_not_wanted ids now) db i = i
apply-LiveUnique (Operation.revive_failed ids cutoff now) db i = i
apply-LiveUnique (Operation.sync_wanted releases cutoff now) db i =
    sync_wanted_jobs-LiveUnique db releases cutoff now i
apply-LiveUnique (Operation.bulk_retry ids now) db i = bulk_retry_jobs-LiveUnique db ids now i
apply-LiveUnique (Operation.register_folder j leaf now) db i =
    register_download_folder-LiveUnique db j leaf now i
apply-LiveUnique (Operation.mark_folder_cleaned j leaf now) db i = i
apply-LiveUnique (Operation.defer_candidate c now) db i = defer_candidate-LiveUnique db c now i
apply-LiveUnique (Operation.clear_deferral c) db i = i

-- From tables in which every remote file has at most one live transfer, every history of store
-- operations, each with any arguments, leaves such tables.
pub run-LiveUnique :
    (ops : List Operation) (db : Db) → LiveUnique db.transfers → LiveUnique (run ops db).transfers
unfolding run
run-LiveUnique [] db i = i
run-LiveUnique (op ∷ ops) db i = run-LiveUnique ops (apply op db) (apply-LiveUnique op db i)
