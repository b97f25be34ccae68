-- ===== src/Pipeline/Downloading/Moved.antt =====
-- The jobs that a tick of Downloading moves:
-- internal/pipeline/downloading.go.
pub mod Passes
use slusk.Prelude.{
  ℕ, ◌≡◌, refl, sym, subst, inl, inr, Bool, true, false, not, ◌&&◌, ◌||◌, ◌==◌, Option, none, some,
  List, [], ◌∷◌, ltb, Bool-cases, Option-cases, if◌then◌else◌, length,
}
use slusk.Prelude.Text.{Text, is_empty, codes}
use slusk.Core.State.{AlbumJobState, TransferState, JobSource, source_eq}
use slusk.Core.Models.{AlbumJob, Candidate, Transfer}
use slusk.Store.Table.{select}
use slusk.Store.Db.{Db}
use slusk.Pipeline.Moves.{
  Moves, Moves-refl, Moves-trans, advance_job_state_from-Moves,
  cooldown_candidate_and_advance-Moves, mark_download_folder_cleaned-Moves,
  succeed_candidate_and_advance-Moves, update_transfer_progress-Moves,
}
use slusk.Store.Candidates.{active_candidate}
use slusk.Store.Transfers.{is_in_flight}
use slusk.Store.Folders.{download_folders_for_job}
use slusk.Pipeline.Paths.{is_quarantine_dir}
use slusk.Pipeline.World.{
  World, Backend, Fmt, RemoteAnswer, done, not_found, failed, JobEventType, event, note,
  after_cancel,
}
use slusk.Pipeline.Quarantine.{after_delete, cleanup_leaves, cleanup_folder}
use slusk.Pipeline.TopUp.{is_pending, transfers_for_candidate, top_up_candidate}
use slusk.Pipeline.TopUp.Moved.{Quiet, top_up_candidate-Moves}
use slusk.Pipeline.Downloading.Reconcile.{reconcile}
use slusk.Pipeline.Downloading.Resolve.{
  cancel_row, cancel_pending, sibling_answer, cancel_active, give_up, leave_in_place, any_failed,
  all_done, resolve_transfers, resolve_downloading_job, resolve_jobs, resolve, DownloadingSettings,
  downloading_jobs, top_up_jobs, top_up_downloads, downloading_tick, candidate_cooldown,
  failed_detail,
}
use slusk.Pipeline.Downloading.Moved.Passes.{reconcile-Moves}

module _ (a : Db) (b : Backend) (now : ℕ) where
  cancel_row-Moves :
      (t : Transfer) (w : World) → Moves a w.tables → Moves a (cancel_row now t w).tables
  cancel_row-Moves t w h =
      update_transfer_progress-Moves a t.id TransferState.cancelled t.bytes_done t.bytes_total now
        w.tables h

  cancel_pending-Moves :
      (ts : List Transfer) (w : World) → Moves a w.tables → Moves a (cancel_pending now ts w).tables
  unfolding cancel_pending
  cancel_pending-Moves [] w h = h
  cancel_pending-Moves (t ∷ ts) w h =
      cancel_pending-Moves ts (cancel_row now t w) (cancel_row-Moves t w h)

  sibling_answer-Moves :
      (t : Transfer) (w : World) (r : RemoteAnswer)
      → Moves a w.tables
      → Moves a (sibling_answer now t w r).tables
  sibling_answer-Moves t w done h = h
  sibling_answer-Moves t w not_found h = cancel_row-Moves t w h
  sibling_answer-Moves t w failed h = h

  cancel_active-Moves :
      (ts : List Transfer) (w : World)
      → Moves a w.tables
      → Moves a (cancel_active b now ts w).tables
  unfolding cancel_active
  cancel_active-Moves [] w h = h
  cancel_active-Moves (t ∷ ts) w h = elim (Bool-cases (is_empty t.slskd_id)) [
    | inl e ↦ rw (e, cancel_active) (cancel_active-Moves ts w h)
    | inr e ↦
        let asked = after_cancel w t.username t.slskd_id in
        let r = b.cancel w t.username t.slskd_id in
        rw (e, cancel_active)
          (cancel_active-Moves ts (sibling_answer now t asked r) (sibling_answer-Moves t asked r h))
  ]

  after_delete-Moves :
      (job : ℕ) (leaf : Text) (w : World) (r : RemoteAnswer)
      → Moves a w.tables
      → Moves a (after_delete job leaf now w r).tables
  after_delete-Moves job leaf w done h =
      mark_download_folder_cleaned-Moves a job leaf now w.tables h
  after_delete-Moves job leaf w not_found h = h
  after_delete-Moves job leaf w failed h = h

  cleanup_leaves-Moves :
      (job : ℕ) (leaves : List Text) (w : World)
      → Moves a w.tables
      → Moves a (cleanup_leaves b job now leaves w).tables
  unfolding cleanup_leaves
  cleanup_leaves-Moves job [] w h = h
  cleanup_leaves-Moves job (leaf ∷ leaves) w h = elim (Bool-cases (is_quarantine_dir leaf)) [
    | inl e ↦ rw (e, cleanup_leaves) (cleanup_leaves-Moves job leaves w h)
    | inr e ↦
        rw (e, cleanup_leaves)
          (cleanup_leaves-Moves job leaves (after_delete job leaf now w (b.delete_folder w leaf))
            (after_delete-Moves job leaf w (b.delete_folder w leaf) h))
  ]

  give_up-Moves :
      (job : AlbumJob) (c : Candidate) (w : World)
      → Moves a w.tables
      → Moves a (give_up b job c now w).tables
  unfolding cleanup_folder
  give_up-Moves job c w h =
      let noted = note (event job.id JobEventType.attempt_failed (failed_detail c)) w in
      cooldown_candidate_and_advance-Moves a c.id job.id (codes "transfer failed")
        AlbumJobState.selecting candidate_cooldown now (cleanup_folder b job.id now noted).tables
        refl (cleanup_leaves-Moves job.id (download_folders_for_job noted.tables job.id) noted h)

  leave_in_place-Moves :
      (job : AlbumJob) (c : Candidate) (w : World)
      → Moves a w.tables
      → Moves a (leave_in_place job c now w).tables
  leave_in_place-Moves job c w h =
      succeed_candidate_and_advance-Moves a c.id job.id AlbumJobState.not_imported now w.tables refl
        h

  resolve_transfers-Moves :
      (job : AlbumJob) (c : Candidate) (ts : List Transfer) (w : World)
      → Moves a w.tables
      → Moves a (resolve_transfers b job c now ts w).0.tables
  unfolding resolve_transfers
  resolve_transfers-Moves job c ts w h =
      let active = select (λ t. is_in_flight t.state) ts in
      let barred = cancel_pending now (select is_pending ts) w in
      let h2 = cancel_pending-Moves (select is_pending ts) w h in
      elim (Bool-cases (any_failed ts)) [
        | inl e ↦ elim (Bool-cases (ltb 0 (length active))) [
          | inl k ↦ rw (e, k) (cancel_active-Moves active barred h2)
          | inr k ↦ rw (e, k) (give_up-Moves job c barred h2)
        ]
        | inr e ↦
            elim (Bool-cases
              (all_done ts && (source_eq job.source JobSource.manual && is_empty job.album_mbid))) [
                | inl k ↦ rw (e, k) (leave_in_place-Moves job c w h)
                | inr k ↦ elim (Bool-cases (all_done ts)) [
                  | inl m ↦
                      rw (e, k, m)
                        (advance_job_state_from-Moves a job.id AlbumJobState.importing now w.tables
                          refl h)
                  | inr m ↦ rw (e, k, m) h
                ]
              ]
      ]

  resolve_downloading_job-Moves :
      (job : AlbumJob) (w : World)
      → Moves a w.tables
      → Moves a (resolve_downloading_job b job now w).0.tables
  unfolding resolve_downloading_job
  resolve_downloading_job-Moves job w h = elim (Option-cases (active_candidate w.tables job.id)) [
    | inl e ↦ rw (e, resolve_downloading_job) h
    | inr (c, e) ↦
        rw (e, resolve_downloading_job)
          (resolve_transfers-Moves job c (transfers_for_candidate w.tables c.id) w h)
  ]

  resolve_jobs-Moves :
      (js : List AlbumJob) (w : World) → Moves a w.tables → Moves a (resolve_jobs b now js w).tables
  unfolding resolve_jobs
  resolve_jobs-Moves [] w h = h
  resolve_jobs-Moves (j ∷ js) w h =
      resolve_jobs-Moves js (resolve_downloading_job b j now w).0
        (resolve_downloading_job-Moves j w h)

  top_up_jobs-Moves :
      (s : DownloadingSettings) (f : Fmt) (js : List AlbumJob) (w : World)
      → Quiet b
      → Moves a w.tables
      → Moves a (top_up_jobs s f b now js w).tables
  unfolding top_up_jobs
  top_up_jobs-Moves s f [] w quiet h = h
  top_up_jobs-Moves s f (j ∷ js) w quiet h = elim (Option-cases (active_candidate w.tables j.id)) [
    | inl e ↦ rw (e, top_up_jobs) (top_up_jobs-Moves s f js w quiet h)
    | inr (c, e) ↦
        let v = (top_up_candidate s.top_up f b j.id c.id now w).world in
        rw (e, top_up_jobs)
          (top_up_jobs-Moves s f js v quiet (
            Moves-trans a w.tables v.tables h
              (top_up_candidate-Moves s.top_up f b j.id c.id now w quiet)))
  ]

-- Where nothing else commits while it enqueues, a tick of Downloading leaves every job in the
-- table, with its row as it was unless it is DOWNLOADING, and then DOWNLOADING, SELECTING,
-- IMPORTING, NOT_IMPORTED or PARKED, whatever the peer backend answers.
pub downloading_tick-Moves :
    (s : DownloadingSettings) (f : Fmt) (b : Backend) (now : ℕ) (w : World)
    → Quiet b
    → Moves w.tables (downloading_tick s f b now w).0.tables
unfolding downloading_tick resolve top_up_downloads
downloading_tick-Moves s f b now w quiet = elim (Option-cases (reconcile s.reconciling b now w)) [
  | inl e ↦ rw (e, downloading_tick) (Moves-refl w.tables)
  | inr (ps, e) ↦
      let resolved = resolve_jobs b now (downloading_jobs s now ps.world) ps.world in
      rw (e, downloading_tick)
        (top_up_jobs-Moves w.tables b now s f (downloading_jobs s now resolved) resolved quiet (
          resolve_jobs-Moves w.tables b now (downloading_jobs s now ps.world) ps.world
            (reconcile-Moves s.reconciling b now w ps e)))
]
