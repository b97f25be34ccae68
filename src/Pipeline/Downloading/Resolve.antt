-- ===== src/Pipeline/Downloading/Resolve.antt =====
-- internal/pipeline/downloading.go: resolveDownloadingJob, and the tick of the module.
use slusk.Prelude.{
  ℕ, Bool, true, false, not, ◌&&◌, ◌||◌, ◌==◌, none, some, List, [], ◌∷◌, ◌++◌, ltb, if◌then◌else◌,
  length,
}
use slusk.Prelude.Text.{Text, is_empty, codes}
use slusk.Core.State.{AlbumJobState, TransferState, JobSource, transfer_state_eq, source_eq}
use slusk.Core.Models.{AlbumJob, Candidate, Transfer}
use slusk.Store.Table.{exists, select}
use slusk.Store.Jobs.{runnable_jobs_in_state, advance_job_state_from}
use slusk.Store.Candidates.{
  active_candidate, cooldown_candidate_and_advance, succeed_candidate_and_advance,
}
use slusk.Store.Rejections.{CooldownPolicy}
use slusk.Store.Transfers.{update_transfer_progress, is_in_flight}
use slusk.Pipeline.World.{
  World, Backend, Fmt, RemoteAnswer, done, not_found, failed, JobEventType, event, outcome, write,
  note, after_cancel,
}
use slusk.Pipeline.Quarantine.{cleanup_folder}
use slusk.Pipeline.TopUp.{TopUpSettings, top_up_candidate, transfers_for_candidate, is_pending}
use slusk.Pipeline.Downloading.Pass.{ReconcileSettings, progress}
use slusk.Pipeline.Downloading.Reconcile.{reconcile}

-- candidateCooldown: 8 hours and 72 hours.
abbrev pub candidate_cooldown : CooldownPolicy
candidate_cooldown = record { base = 28800000000000; cap = 259200000000000 }

abbrev pub is_completed : Transfer → Bool
is_completed t = transfer_state_eq t.state TransferState.completed

-- ERRORED or CANCELLED
abbrev pub is_lost : Transfer → Bool
is_lost t =
    transfer_state_eq t.state TransferState.errored
    || transfer_state_eq t.state TransferState.cancelled

abbrev pub all_done : List Transfer → Bool
all_done transfers =
    not (length transfers == 0) && not (exists (λ t. not (is_completed t)) transfers)

abbrev pub any_failed : List Transfer → Bool
any_failed transfers = exists is_lost transfers

abbrev pub cancel_row : ℕ → Transfer → World → World
cancel_row now t w = progress t TransferState.cancelled t.bytes_done t.bytes_total now w

-- The loop over the pending siblings.
unfoldable pub cancel_pending : ℕ → List Transfer → World → World
unfolding update_transfer_progress
cancel_pending now [] w = w
cancel_pending now (t ∷ ts) w = cancel_pending now ts (cancel_row now t w)

abbrev pub sibling_answer : ℕ → Transfer → World → RemoteAnswer → World
sibling_answer now t w done = w
sibling_answer now t w not_found = cancel_row now t w
sibling_answer now t w failed = w

-- The loop over the active siblings.
unfoldable pub cancel_active : Backend → ℕ → List Transfer → World → World
unfolding update_transfer_progress
cancel_active b now [] w = w
cancel_active b now (t ∷ ts) w = cancel_active b now ts (
    if is_empty t.slskd_id
    then w
    else sibling_answer now t (after_cancel w t.username t.slskd_id)
        (b.cancel w t.username t.slskd_id))

abbrev pub failed_detail : Candidate → Text
failed_detail c =
    codes "candidate " ++ c.username ++ codes " download failed, trying next candidate"

abbrev pub not_imported_detail : Text
not_imported_detail = codes "download complete, no album identified - leaving files in place"

-- The candidate's files are gone, and the next one has its turn.
abbrev pub give_up : Backend → AlbumJob → Candidate → ℕ → World → World
give_up b job c now w =
    let cleaned =
      cleanup_folder b job.id now
        (note (event job.id JobEventType.attempt_failed (failed_detail c)) w) in
    write
      (cooldown_candidate_and_advance cleaned.tables c.id job.id (codes "transfer failed")
        AlbumJobState.downloading AlbumJobState.selecting candidate_cooldown now).0
      (note (outcome job.artist_id c.username false) cleaned)

-- A manual job without an identified album.
abbrev pub leave_in_place : AlbumJob → Candidate → ℕ → World → World
leave_in_place job c now w =
    write
      (succeed_candidate_and_advance w.tables c.id job.id AlbumJobState.downloading
        AlbumJobState.not_imported now).0
      (note (outcome job.artist_id c.username true)
        (note (event job.id JobEventType.not_imported not_imported_detail) w))

-- The branches of resolveDownloadingJob, for the candidate's transfers.
unfoldable pub resolve_transfers :
    Backend → AlbumJob → Candidate → ℕ → List Transfer → World → World × Bool
unfolding cancel_pending cancel_active cleanup_folder cooldown_candidate_and_advance
    succeed_candidate_and_advance advance_job_state_from
resolve_transfers b job c now transfers w =
    let active = select (λ t. is_in_flight t.state) transfers in
    let barred = cancel_pending now (select is_pending transfers) w in
    if any_failed transfers
    then (if ltb 0 (length active)
        then (cancel_active b now active barred, false)
        else (give_up b job c now barred, true))
    else if all_done transfers && (source_eq job.source JobSource.manual && is_empty job.album_mbid)
    then (leave_in_place job c now w, true)
    else if all_done transfers
    then (
      write
          (advance_job_state_from w.tables job.id AlbumJobState.downloading AlbumJobState.importing
            now).0
          w,
      true,
    )
    else (w, false)

-- resolveDownloadingJob
unfoldable pub resolve_downloading_job : Backend → AlbumJob → ℕ → World → World × Bool
unfolding active_candidate transfers_for_candidate resolve_transfers
resolve_downloading_job b job now w = elim (active_candidate w.tables job.id) [
  | none ↦ (w, false)
  | some c ↦ resolve_transfers b job c now (transfers_for_candidate w.tables c.id) w
]

-- The loop of resolve.
unfoldable pub resolve_jobs : Backend → ℕ → List AlbumJob → World → World
unfolding resolve_downloading_job
resolve_jobs b now [] w = w
resolve_jobs b now (j ∷ js) w = resolve_jobs b now js (resolve_downloading_job b j now w).0

-- The settings of DownloadingParams.
pub record DownloadingSettings : Type 0 where
  pub max_active : ℕ
  pub reconciling : ReconcileSettings
  pub top_up : TopUpSettings

abbrev pub downloading_jobs : DownloadingSettings → ℕ → World → List AlbumJob
downloading_jobs s now w =
    runnable_jobs_in_state w.tables AlbumJobState.downloading now s.max_active

-- resolve
unfoldable pub resolve : DownloadingSettings → Backend → ℕ → World → World
unfolding resolve_jobs runnable_jobs_in_state
resolve s b now w = resolve_jobs b now (downloading_jobs s now w) w

-- The loop of topUpDownloads, which goes on past a top-up that fails.
unfoldable pub top_up_jobs : DownloadingSettings → Fmt → Backend → ℕ → List AlbumJob → World → World
unfolding active_candidate top_up_candidate
top_up_jobs s f b now [] w = w
top_up_jobs s f b now (j ∷ js) w = elim (active_candidate w.tables j.id) [
  | none ↦ top_up_jobs s f b now js w
  | some c ↦ top_up_jobs s f b now js (top_up_candidate s.top_up f b j.id c.id now w).world
]

-- topUpDownloads
unfoldable pub top_up_downloads : DownloadingSettings → Fmt → Backend → ℕ → World → World
unfolding top_up_jobs runnable_jobs_in_state
top_up_downloads s f b now w = top_up_jobs s f b now (downloading_jobs s now w) w

-- Downloading.Tick, and whether it ends with an error.
unfoldable pub downloading_tick : DownloadingSettings → Fmt → Backend → ℕ → World → World × Bool
unfolding reconcile resolve top_up_downloads
downloading_tick s f b now w = elim (reconcile s.reconciling b now w) [
  | none ↦ (w, true)
  | some ps ↦ (top_up_downloads s f b now (resolve s b now ps.world), false)
]
