-- ===== src/Store/Operation.antt =====
-- The operations of the store as one type, and a history as a list of them: what any interleaving of
-- the pipeline's modules, the peer client and the users can do to the tables, one transaction at a
-- time.
use slusk.Prelude.{ℕ, Option, List, [], ◌∷◌}
use slusk.Prelude.Int.{ℤ}
use slusk.Prelude.Text.{Text}
use slusk.Core.State.{AlbumJobState, TransferState}
use slusk.Core.Models.{CandidateFile, WantedRelease}
use slusk.Store.Db.{Db}
use slusk.Store.Jobs
use slusk.Store.Candidates
use slusk.Store.Candidates.{NewCandidate}
use slusk.Store.Rejections.{CooldownPolicy}
use slusk.Store.Activation
use slusk.Store.Retry
use slusk.Store.Transfers
use slusk.Store.Wanted
use slusk.Store.Folders

pub data Operation : Type 0 where
  set_job_backoff set_job_empty_search_backoff : ℕ → ℕ → ℕ → ℕ → Operation
  set_job_not_before mark_job_failed defer_selecting_job : ℕ → ℕ → Operation
  reset_job_to_wanted : ℕ → AlbumJobState → ℕ → Option ℕ → ℕ → Operation
  advance_job_state_from : ℕ → AlbumJobState → AlbumJobState → ℕ → Operation
  advance_job_state : ℕ → AlbumJobState → ℕ → Operation
  set_job_track_band : ℕ → ℕ → ℕ → Operation
  update_job_metadata : ℕ → Text → Text → Text → ℕ → ℕ → Operation
  backfill_job_metadata : ℕ → Text → Text → Text → ℕ → Operation
  insert_candidates : ℕ → List NewCandidate → ℕ → Operation
  fail_candidate : ℕ → Text → ℕ → Operation
  succeed_candidate mark_import_submitted : ℕ → ℕ → Operation
  fail_and_advance : ℕ → ℕ → Text → AlbumJobState → AlbumJobState → ℕ → Operation
  cooldown_and_advance :
      ℕ → ℕ → Text → AlbumJobState → AlbumJobState → CooldownPolicy → ℕ → Operation
  reject_and_advance : ℕ → ℕ → Text → AlbumJobState → AlbumJobState → ℕ → Operation
  succeed_and_advance : ℕ → ℕ → AlbumJobState → AlbumJobState → ℕ → Operation
  activate : ℕ → ℕ → ℕ → ℕ → ℕ → Operation
  create_manual : Text → Text → Text → Text → List CandidateFile → ℕ → ℕ → Operation
  retry_failed retry_manual retry_refused force_search : ℕ → ℕ → Operation
  delete_job : ℕ → Operation
  park : ℕ → ℕ → TransferState → ℤ → ℤ → ℕ → Operation
  record_intent : ℕ → Text → Text → ℕ → ℕ → Operation
  attach_id : ℕ → Text → ℕ → Operation
  update_progress : ℕ → TransferState → ℤ → ℤ → ℕ → Operation
  retry_transfer cancel_job prepare_delete : ℕ → ℕ → Operation
  cancel_not_wanted : List ℕ → ℕ → Operation
  revive_failed : List ℕ → ℕ → ℕ → Operation
  sync_wanted : List WantedRelease → ℕ → ℕ → Operation
  bulk_retry : List ℕ → ℕ → Operation
  register_folder mark_folder_cleaned : ℕ → Text → ℕ → Operation
  defer_candidate : ℕ → ℕ → Operation
  clear_deferral : ℕ → Operation

-- The tables after an operation, whatever it answers.
unfoldable pub apply : Operation → Db → Db
apply (set_job_backoff j r t now) db = Jobs.set_job_backoff db j r t now
apply (set_job_empty_search_backoff j e t now) db = Jobs.set_job_empty_search_backoff db j e t now
apply (set_job_not_before j t) db = Jobs.set_job_not_before db j t
apply (mark_job_failed j now) db = Jobs.mark_job_failed db j now
apply (defer_selecting_job j now) db = Jobs.defer_selecting_job db j now
apply (reset_job_to_wanted j from r t now) db = Jobs.reset_job_to_wanted db j from r t now
apply (advance_job_state_from j from to now) db = (Jobs.advance_job_state_from db j from to now).0
apply (advance_job_state j to now) db = Jobs.advance_job_state db j to now
apply (set_job_track_band j lo hi) db = Jobs.set_job_track_band db j lo hi
apply (update_job_metadata j t a d i now) db = Jobs.update_job_metadata db j t a d i now
apply (backfill_job_metadata j t a d i) db = Jobs.backfill_job_metadata_if_empty db j t a d i
apply (insert_candidates j cs now) db = (Candidates.insert_candidates db j cs now).0
apply (fail_candidate c reason now) db = Candidates.fail_candidate db c reason now
apply (succeed_candidate c now) db = Candidates.succeed_candidate db c now
apply (mark_import_submitted c now) db = Candidates.mark_import_submitted db c now
apply (fail_and_advance c j reason from to now) db =
    (Candidates.fail_candidate_and_advance db c j reason from to now).0
apply (cooldown_and_advance c j reason from to policy now) db =
    (Candidates.cooldown_candidate_and_advance db c j reason from to policy now).0
apply (reject_and_advance c j reason from to now) db =
    (Candidates.reject_candidate_and_advance db c j reason from to now).0
apply (succeed_and_advance c j from to now) db =
    (Candidates.succeed_candidate_and_advance db c j from to now).0
apply (activate c j cap deadline now) db =
    (Activation.activate_candidate_with_transfers db c j cap deadline now).0
apply (create_manual t a peer mbid files deadline now) db =
    (Activation.create_manual_job db t a peer mbid files deadline now).0
apply (retry_failed j now) db = (Retry.retry_failed_job db j now).0
apply (retry_manual j now) db = (Retry.retry_manual_job db j now).0
apply (retry_refused j now) db = (Retry.retry_refused_job db j now).0
apply (force_search j now) db = (Retry.force_search_job db j now).0
apply (delete_job j) db = (Retry.delete_job db j).0
apply (park t c to n total now) db = (Retry.park_job_for_candidate db t c to n total now).0
apply (record_intent c u f deadline now) db =
    (Transfers.record_enqueue_intent db c u f deadline now).0
apply (attach_id t remote now) db = (Transfers.attach_transfer_id db t remote now).0
apply (update_progress t to n total now) db = Transfers.update_transfer_progress db t to n total now
apply (retry_transfer t now) db = Transfers.retry_transfer db t now
apply (cancel_job j now) db = (Transfers.cancel_job db j now).0
apply (prepare_delete j now) db = (Transfers.prepare_delete_job db j now).0
apply (cancel_not_wanted ids now) db = (Wanted.cancel_jobs_not_wanted db ids now).0
apply (revive_failed ids cutoff now) db = (Wanted.revive_failed_jobs db ids cutoff now).0
apply (sync_wanted releases cutoff now) db = (Wanted.sync_wanted_jobs db releases cutoff now).0
apply (bulk_retry ids now) db = (Wanted.bulk_retry_jobs db ids now).0
apply (register_folder j leaf now) db = (Folders.register_download_folder db j leaf now).0
apply (mark_folder_cleaned j leaf now) db = Folders.mark_download_folder_cleaned db j leaf now
apply (defer_candidate c now) db = (Folders.defer_candidate db c now).0
apply (clear_deferral c) db = Folders.clear_candidate_deferral db c

unfoldable pub run : List Operation → Db → Db
run [] db = db
run (op ∷ ops) db = run ops (apply op db)

-- The tables that a fresh database has.
abbrev pub empty_db : Db
empty_db = record {
  jobs = [];
  candidates = [];
  transfers = [];
  rejections = [];
  folders = [];
  next_job = 1;
  next_candidate = 1;
  next_transfer = 1;
  next_folder = 1;
}
