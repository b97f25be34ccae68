-- ===== src/Pipeline/Downloading/Verdicts/Resolved.antt =====
-- Where resolveDownloadingJob takes a job: internal/pipeline/downloading.go.
use slusk.Prelude.{
  ℕ, ◌≤◌, ==_iff, ◌≡◌, refl, sym, subst, ◌∙◌, inl, inr, Bool, true, false, not, ◌&&◌, ◌==◌, none,
  some, List, [], ◌∷◌, ltb, arith, Bool-cases, &&-parts, if◌then◌else◌, length,
}
use slusk.Prelude.Text.{Text, is_empty, codes}
use slusk.Core.State.{AlbumJobState, CandidateState, JobSource, source_eq}
use slusk.Core.Models.{AlbumJob, Candidate, Transfer}
use slusk.Store.Table.{count, exists, select, find_row-holds}
use slusk.Store.Db.{Db, candidate_in, update_transfers}
use slusk.Store.Candidates.{
  set_failed, set_succeeded, cooldown_candidate_and_advance, succeed_candidate_and_advance,
  active_candidate, of_job_in,
}
use slusk.Store.Jobs.{advance_job_state_from}
use slusk.Store.Folders.{mark_download_folder_cleaned, download_folders_for_job}
use slusk.Pipeline.Paths.{is_quarantine_dir}
use slusk.Pipeline.World.{
  World, Backend, RemoteAnswer, done, not_found, failed, JobEventType, event, note, after_cancel,
}
use slusk.Pipeline.Quarantine.{after_delete, cleanup_leaves, cleanup_folder}
use slusk.Pipeline.TopUp.{is_pending, transfers_for_candidate}
use slusk.Pipeline.Downloading.Resolve.{
  cancel_row, cancel_pending, sibling_answer, cancel_active, give_up, leave_in_place, any_failed,
  all_done, is_completed, is_lost, resolve_transfers, resolve_downloading_job, failed_detail,
  candidate_cooldown,
}
use slusk.Store.Transfers.{update_transfer_progress, is_in_flight}
use slusk.Pipeline.Downloading.Verdicts.{
  RowIn, JobIn, ActiveIn, JobIn-update_jobs, terminal-JobIn, found_exists, state_eq_refl,
}

-- The tables of jobs and candidates are as they were.
abbrev pub SameJobs : World → World → Type 0
SameJobs w v = (v.tables.jobs ≡ w.tables.jobs) × (v.tables.candidates ≡ w.tables.candidates)

cancel_row-SameJobs : (now : ℕ) (t : Transfer) (w : World) → SameJobs w (cancel_row now t w)
unfolding update_transfer_progress update_transfers
cancel_row-SameJobs now t w = (refl, refl)

SameJobs-trans : (w v u : World) → SameJobs w v → SameJobs v u → SameJobs w u
SameJobs-trans w v u h k = (k.0 ∙ h.0, k.1 ∙ h.1)

cancel_pending-SameJobs :
    (now : ℕ) (ts : List Transfer) (w : World) → SameJobs w (cancel_pending now ts w)
unfolding cancel_pending
cancel_pending-SameJobs now [] w = (refl, refl)
cancel_pending-SameJobs now (t ∷ ts) w =
    SameJobs-trans w (cancel_row now t w) (cancel_pending now ts (cancel_row now t w))
      (cancel_row-SameJobs now t w) (cancel_pending-SameJobs now ts (cancel_row now t w))

sibling_answer-SameJobs :
    (now : ℕ) (t : Transfer) (w : World) (r : RemoteAnswer) → SameJobs w (sibling_answer now t w r)
sibling_answer-SameJobs now t w done = (refl, refl)
sibling_answer-SameJobs now t w not_found = cancel_row-SameJobs now t w
sibling_answer-SameJobs now t w failed = (refl, refl)

cancel_active-SameJobs :
    (b : Backend) (now : ℕ) (ts : List Transfer) (w : World) → SameJobs w (cancel_active b now ts w)
unfolding cancel_active
cancel_active-SameJobs b now [] w = (refl, refl)
cancel_active-SameJobs b now (t ∷ ts) w = elim (Bool-cases (is_empty t.slskd_id)) [
  | inl e ↦ rw (e, cancel_active) (cancel_active-SameJobs b now ts w)
  | inr e ↦
      let asked = after_cancel w t.username t.slskd_id in
      let next = sibling_answer now t asked (b.cancel w t.username t.slskd_id) in
      rw (e, cancel_active)
        (SameJobs-trans w next (cancel_active b now ts next)
          (sibling_answer-SameJobs now t asked (b.cancel w t.username t.slskd_id))
          (cancel_active-SameJobs b now ts next))
]

after_delete-SameJobs :
    (job : ℕ) (leaf : Text) (now : ℕ) (w : World) (r : RemoteAnswer)
    → SameJobs w (after_delete job leaf now w r)
unfolding mark_download_folder_cleaned
after_delete-SameJobs job leaf now w done = (refl, refl)
after_delete-SameJobs job leaf now w not_found = (refl, refl)
after_delete-SameJobs job leaf now w failed = (refl, refl)

pub cleanup_leaves-SameJobs :
    (b : Backend) (job now : ℕ) (leaves : List Text) (w : World)
    → SameJobs w (cleanup_leaves b job now leaves w)
unfolding cleanup_leaves
cleanup_leaves-SameJobs b job now [] w = (refl, refl)
cleanup_leaves-SameJobs b job now (leaf ∷ leaves) w = elim (Bool-cases (is_quarantine_dir leaf)) [
  | inl e ↦ rw (e, cleanup_leaves) (cleanup_leaves-SameJobs b job now leaves w)
  | inr e ↦
      let next = after_delete job leaf now w (b.delete_folder w leaf) in
      rw (e, cleanup_leaves)
        (SameJobs-trans w next (cleanup_leaves b job now leaves next)
          (after_delete-SameJobs job leaf now w (b.delete_folder w leaf))
          (cleanup_leaves-SameJobs b job now leaves next))
]

-- The candidate's ACTIVE row, which ActiveCandidate found.
pub active_candidate-ActiveIn :
    (db : Db) (job : ℕ) (c : Candidate) → active_candidate db job ≡ some c → ActiveIn db c.id
unfolding active_candidate
active_candidate-ActiveIn db job c h =
    let holds = find_row-holds (of_job_in job CandidateState.active) db.candidates c h in
    let parts = &&-parts (c.album_job_id == job) _ holds in
    let self = (==_iff c.id c.id).1 refl in
    found_exists (of_job_in job CandidateState.active) (candidate_in c.id CandidateState.active)
      db.candidates c h (rw (self, parts.1) refl)

-- The state that a DOWNLOADING job should be in, by the numbers of its transfers: one that is lost
-- brings the next candidate once no other is live, and a complete download is imported, or left in
-- place for a manual job that names no album.
unfoldable pub verdict : AlbumJob → List Transfer → AlbumJobState
verdict j ts =
    if ltb 0 (count is_lost ts)
    then (if ltb 0 (count (λ t. is_in_flight t.state) ts)
        then AlbumJobState.downloading
        else AlbumJobState.selecting)
    else if ltb 0 (length ts) && (count is_completed ts == length ts)
    then (if source_eq j.source JobSource.manual && is_empty j.album_mbid
        then AlbumJobState.not_imported
        else AlbumJobState.importing)
    else AlbumJobState.downloading

any_failed-count : (ts : List Transfer) → any_failed ts ≡ ltb 0 (count is_lost ts)
unfolding exists count
any_failed-count [] = refl
any_failed-count (t ∷ ts) = ground (arith, any_failed-count ts)

length-select : (q : Transfer → Bool) (ts : List Transfer) → length (select q ts) ≡ count q ts
unfolding select count
length-select q [] = refl
length-select q (t ∷ ts) = ground (arith, length-select q ts)

count-completed_le : (ts : List Transfer) → count is_completed ts ≤ length ts
unfolding count
count-completed_le [] = omega arith
count-completed_le (t ∷ ts) = ground (arith, count-completed_le ts)

none_incomplete :
    (ts : List Transfer)
    → not (exists (λ t. not (is_completed t)) ts) ≡ (count is_completed ts == length ts)
unfolding exists count
none_incomplete [] = refl
none_incomplete (t ∷ ts) = let le = count-completed_le ts in ground (arith, none_incomplete ts)

all_done-count :
    (ts : List Transfer) → all_done ts ≡ (ltb 0 (length ts) && (count is_completed ts == length ts))
all_done-count ts = let same = none_incomplete ts in ground (arith, same)

pub SameJobs-JobIn :
    (w v : World) (job : ℕ) (st : AlbumJobState)
    → SameJobs w v
    → JobIn w.tables job st
    → JobIn v.tables job st
SameJobs-JobIn w v job st same h = subst (λ rows. RowIn rows job st) (sym same.0) h

module _ (b : Backend) (j : AlbumJob) (c : Candidate) (now : ℕ) where
  give_up-JobIn :
      (w : World)
      → ActiveIn w.tables c.id
      → JobIn w.tables j.id AlbumJobState.downloading
      → JobIn (give_up b j c now w).tables j.id AlbumJobState.selecting
  unfolding cooldown_candidate_and_advance cleanup_folder
  give_up-JobIn w active h =
      let noted = note (event j.id JobEventType.attempt_failed (failed_detail c)) w in
      let leaves = download_folders_for_job noted.tables j.id in
      let same = cleanup_leaves-SameJobs b j.id now leaves noted in
      terminal-JobIn (cleanup_leaves b j.id now leaves noted).tables c.id j.id
        (set_failed (codes "transfer failed") now) AlbumJobState.downloading AlbumJobState.selecting
        (codes "transfer failed") (record { records = true; cooldown = some candidate_cooldown })
        now (λ d. refl)
        (subst (λ rows. exists (candidate_in c.id CandidateState.active) rows ≡ true) (sym same.1)
          active)
        (SameJobs-JobIn noted (cleanup_leaves b j.id now leaves noted) j.id
          AlbumJobState.downloading same h)

  leave_in_place-JobIn :
      (w : World)
      → ActiveIn w.tables c.id
      → JobIn w.tables j.id AlbumJobState.downloading
      → JobIn (leave_in_place j c now w).tables j.id AlbumJobState.not_imported
  unfolding succeed_candidate_and_advance
  leave_in_place-JobIn w active h =
      terminal-JobIn w.tables c.id j.id (set_succeeded now) AlbumJobState.downloading
        AlbumJobState.not_imported [] (record { records = false; cooldown = none }) now (λ d. refl)
        active h

  advance-JobIn :
      (db : Db) (to : AlbumJobState)
      → JobIn db j.id AlbumJobState.downloading
      → JobIn (advance_job_state_from db j.id AlbumJobState.downloading to now).0 j.id to
  unfolding advance_job_state_from
  advance-JobIn db to h =
      JobIn-update_jobs db j.id AlbumJobState.downloading to
        (λ k. record k { state = to; updated_at = now }) (λ k. refl) (λ k. state_eq_refl to) h

  resolve_transfers-JobIn :
      (ts : List Transfer) (w : World)
      → ActiveIn w.tables c.id
      → JobIn w.tables j.id AlbumJobState.downloading
      → JobIn (resolve_transfers b j c now ts w).0.tables j.id (verdict j ts)
  unfolding resolve_transfers verdict
  resolve_transfers-JobIn ts w active h =
      let live = select (λ t. is_in_flight t.state) ts in
      let barred = cancel_pending now (select is_pending ts) w in
      let same = cancel_pending-SameJobs now (select is_pending ts) w in
      let kept = SameJobs-JobIn w barred j.id AlbumJobState.downloading same h in
      rw
        (
          sym (any_failed-count ts),
          sym (all_done-count ts),
          sym (length-select (λ t. is_in_flight t.state) ts),
        )
        (elim (Bool-cases (any_failed ts)) [
          | inl e ↦ elim (Bool-cases (ltb 0 (length live))) [
            | inl k ↦
                rw (e, k)
                  (SameJobs-JobIn barred (cancel_active b now live barred) j.id
                    AlbumJobState.downloading (cancel_active-SameJobs b now live barred) kept)
            | inr k ↦
                rw (e, k)
                  (give_up-JobIn barred
                    (subst (λ rows. exists (candidate_in c.id CandidateState.active) rows ≡ true)
                      (sym same.1) active)
                    kept)
          ]
          | inr e ↦ elim (Bool-cases (all_done ts)) [
            | inl d ↦
                elim (Bool-cases (source_eq j.source JobSource.manual && is_empty j.album_mbid)) [
                  | inl m ↦ rw (e, d, m) (leave_in_place-JobIn w active h)
                  | inr m ↦ rw (e, d, m) (advance-JobIn w.tables AlbumJobState.importing h)
                ]
            | inr d ↦ rw (e, d) h
          ]
        ])

-- For a job that is DOWNLOADING and has an ACTIVE candidate, resolveDownloadingJob leaves the job
-- in the state that the numbers of the candidate's transfers call for: with one that is lost,
-- SELECTING once none is in flight; with all of at least one completed, IMPORTING, or
-- NOT_IMPORTED for a manual job that names no album; else DOWNLOADING.
pub resolve_downloading_job-verdict :
    (b : Backend) (j : AlbumJob) (c : Candidate) (now : ℕ) (w : World)
    → active_candidate w.tables j.id ≡ some c
    → JobIn w.tables j.id AlbumJobState.downloading
    → JobIn
        (resolve_downloading_job b j now w).0.tables
        j.id
        (verdict j (transfers_for_candidate w.tables c.id))
unfolding resolve_downloading_job
resolve_downloading_job-verdict b j c now w found h =
    rw (found, resolve_downloading_job)
      (resolve_transfers-JobIn b j c now (transfers_for_candidate w.tables c.id) w
        (active_candidate-ActiveIn w.tables j.id c found) h)
