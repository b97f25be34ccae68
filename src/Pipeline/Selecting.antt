-- ===== src/Pipeline/Selecting.antt =====
-- internal/pipeline/selecting.go: the tick that activates the best cached candidate of each job.
pub mod Tables
pub mod Expired
pub mod Branches
use slusk.Prelude.{
  ℕ, ◌+◌, ◌-◌, Bool, true, false, not, ◌&&◌, ◌||◌, Option, none, some, List, [], ◌∷◌, ◌++◌, ltb,
  if◌then◌else◌, length,
}
use slusk.Prelude.Text.{Text, is_empty, codes}
use slusk.Core.State.{AlbumJobState, JobSource, source_eq}
use slusk.Core.Models.{AlbumJob, Candidate}
use slusk.Store.Db.{Db}
use slusk.Store.Jobs.{
  mark_job_failed, reset_job_to_wanted, defer_selecting_job, runnable_jobs_in_state,
}
use slusk.Store.Candidates.{next_new_candidate}
use slusk.Store.Activation.{
  Activation, activated, cap_full, skipped, invalid, activate_candidate_with_transfers,
}
use slusk.Store.Folders.{download_folders_for_job, mark_download_folder_cleaned}
use slusk.Pipeline.Backoff.{RetryPolicy, CycleFailure, fail_or_backoff, decimal}
use slusk.Pipeline.World.{World, Backend, Fmt, JobEventType, event, write, note}
use slusk.Pipeline.TopUp.{TopUpSettings, TopUp, top_up_candidate}
use slusk.Pipeline.Paths.{quarantine_dir_name}
use slusk.Pipeline.Quarantine.{Disk, quarantine_folder, mark_cleaned}

-- The settings of SelectingParams.
pub record SelectingSettings : Type 0 where
  pub max_active : ℕ
  pub policy : RetryPolicy
  pub candidate_ttl : ℕ
  pub top_up : TopUpSettings
  pub complete_dir : Text

-- What the module calls beside the store.
pub record Outside : Type 0 where
  pub fmt : Fmt
  pub backend : Backend
  pub disk : Disk

abbrev pub after_quarantine : ℕ → Text → ℕ → World × Option Text → World × List Text
after_quarantine job leaf now (w, none) = (w, [])
after_quarantine job leaf now (w, some dst) = (mark_cleaned job leaf now w, dst ∷ [])

-- The loop of quarantineLeftovers.
unfoldable pub quarantine_leaves :
    Disk → ℕ → Text → ℕ → List Text → List Text → World → World × List Text
unfolding quarantine_folder mark_download_folder_cleaned
quarantine_leaves d job complete_dir now [] moved w = (w, moved)
quarantine_leaves d job complete_dir now (leaf ∷ leaves) moved w =
    let turn =
      after_quarantine job leaf now
        (quarantine_folder d job complete_dir leaf quarantine_dir_name w) in
    quarantine_leaves d job complete_dir now leaves (moved ++ turn.1) turn.0

-- strings.Join(moved, ", ")
unfoldable pub join_names : List Text → Text
join_names [] = []
join_names (n ∷ []) = n
join_names (n ∷ m ∷ ns) = n ++ codes ", " ++ join_names (m ∷ ns)

abbrev pub record_moved : ℕ → World × List Text → World
record_moved job (w, []) = w
record_moved job (w, n ∷ ns) =
    note
      (event job JobEventType.quarantined (codes "moved leftover files to " ++ join_names (n ∷ ns)))
      w

-- quarantineLeftovers
unfoldable pub quarantine_leftovers : Disk → Text → ℕ → ℕ → World → World
unfolding quarantine_leaves join_names download_folders_for_job
quarantine_leftovers d complete_dir job now w =
    if is_empty complete_dir
    then w
    else record_moved job
        (quarantine_leaves d job complete_dir now (download_folders_for_job w.tables job) [] w)

-- selectJob's answer: go on with the batch, leave the rest of it, or end the tick with an error.
pub data Verdict : Type 0 where
  proceed : World → Verdict
  leave_batch : World → Verdict
  broken_off : World → Verdict

abbrev pub manual_failed_detail : Text
manual_failed_detail = codes "manual job candidate failed, not re-searching"

abbrev pub exhausted_detail : Text
exhausted_detail = codes "candidates exhausted"

abbrev pub exhausted_reason : Text
exhausted_reason = codes "every candidate found for this album was tried and failed to download"

abbrev pub expired_detail : Text
expired_detail = codes "candidate cache expired, re-searching"

-- The job_failed event that failOrBackoff records, on the tables that it leaves.
abbrev pub record_failure : ℕ → Option Text → World → World
record_failure job none w = w
record_failure job (some detail) w = note (event job JobEventType.job_failed detail) w

-- No NEW candidate is left.
unfoldable pub exhausted : SelectingSettings → Disk → AlbumJob → ℕ → World → World
unfolding mark_job_failed quarantine_leftovers fail_or_backoff
exhausted s d job now w =
    let rejected = note (event job.id JobEventType.candidate_rejected exhausted_detail) w in
    let cycle = fail_or_backoff w.tables job s.policy true exhausted_reason now in
    let after = record_failure job.id cycle.event (write cycle.tables rejected) in
    if source_eq job.source JobSource.manual
    then quarantine_leftovers d s.complete_dir job.id now (
        note (event job.id JobEventType.job_failed manual_failed_detail)
          (write (mark_job_failed w.tables job.id now) w))
    else if cycle.failed
    then quarantine_leftovers d s.complete_dir job.id now after
    else after

abbrev pub selected_detail : Candidate → ℕ → Text
selected_detail c sent =
    codes "enqueued candidate "
    ++ c.username
    ++ codes ", downloading ("
    ++ decimal (length c.files)
    ++ codes " files, "
    ++ decimal sent
    ++ codes " sent, "
    ++ decimal (length c.files - sent)
    ++ codes " deferred)"

abbrev pub top_up_answer : ℕ → Candidate → TopUp → Verdict
top_up_answer job c r =
    if r.failed
    then broken_off r.world
    else proceed
        (note (event job JobEventType.candidate_selected (selected_detail c r.sent)) r.world)

-- After ActivateCandidateWithTransfers. A top-up sends no more files than the candidate has, so the
-- difference is that of the source.
abbrev pub activation_answer :
    SelectingSettings → Outside → ℕ → Candidate → ℕ → World → Db × Activation → Verdict
activation_answer s o job c now w (db, activated) =
    top_up_answer job c (top_up_candidate s.top_up o.fmt o.backend job c.id now (write db w))
activation_answer s o job c now w (db, cap_full) = leave_batch (write db w)
activation_answer s o job c now w (db, skipped) = proceed (write (defer_selecting_job db job now) w)
activation_answer s o job c now w (db, invalid) = broken_off (write db w)

-- selectJob
unfoldable pub select_job : SelectingSettings → Outside → AlbumJob → ℕ → World → Verdict
unfolding exhausted next_new_candidate reset_job_to_wanted activate_candidate_with_transfers
    top_up_candidate defer_selecting_job
select_job s o job now w = elim (next_new_candidate w.tables job.id) [
  | none ↦ proceed (exhausted s o.disk job now w)
  | some c ↦
      if not (source_eq job.source JobSource.manual) && ltb s.candidate_ttl (now - c.created_at)
      then proceed (
          note (event job.id JobEventType.candidate_rejected expired_detail) (
            write (reset_job_to_wanted w.tables job.id AlbumJobState.selecting job.retries none now)
              w))
      else activation_answer s o job.id c now w (
          activate_candidate_with_transfers w.tables c.id job.id s.max_active
            (now + s.top_up.transfer_deadline) now)
]

-- The loop of Tick, and whether it ends with an error.
unfoldable pub select_jobs : SelectingSettings → Outside → ℕ → List AlbumJob → World → World × Bool
unfolding select_job
select_jobs s o now [] w = (w, false)
select_jobs s o now (j ∷ js) w = elim (select_job s o j now w) [
  | proceed v ↦ select_jobs s o now js v
  | leave_batch v ↦ (v, false)
  | broken_off v ↦ (v, true)
]

-- Selecting.Tick
unfoldable pub selecting_tick : SelectingSettings → Outside → ℕ → World → World × Bool
unfolding select_jobs runnable_jobs_in_state
selecting_tick s o now w =
    select_jobs s o now (runnable_jobs_in_state w.tables AlbumJobState.selecting now s.max_active) w
