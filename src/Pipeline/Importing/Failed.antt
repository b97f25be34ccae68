-- ===== src/Pipeline/Importing/Failed.antt =====
-- Where the failure of a candidate takes an importing job: internal/pipeline/importing.go.
use slusk.Prelude.{
  ℕ, ◌≡◌, refl, sym, subst, ◌∙◌, inl, inr, Bool, true, false, ◌&&◌, ◌==◌, none, some, List, [], ◌∷◌,
  ltb, leb, arith, Bool-cases, if◌then◌else◌,
}
use slusk.Prelude.Text.{Text, text_eq}
use slusk.Core.State.{AlbumJobState, CandidateState, JobSource, source_eq}
use slusk.Core.Models.{AlbumJob, Candidate}
use slusk.Store.Table.{count, exists}
use slusk.Store.Db.{Db, candidate_in}
use slusk.Store.Candidates.{
  active_candidate, set_failed, fail_candidate_and_advance, reject_candidate_and_advance,
}
use slusk.Store.Rejections.{count_rejections_by_reason}
use slusk.Store.Folders.{download_folders_for_job, mark_download_folder_cleaned}
use slusk.Pipeline.Paths.{is_quarantine_dir}
use slusk.Pipeline.World.{World, Backend, RemoteAnswer, done, not_found, failed, outcome, note}
use slusk.Pipeline.Quarantine.{cleanup_folder, cleanup_leaves, after_delete}
use slusk.Pipeline.Downloading.Verdicts.{JobIn, ActiveIn, terminal-JobIn}
use slusk.Pipeline.Downloading.Verdicts.Resolved.{
  SameJobs, cleanup_leaves-SameJobs, SameJobs-JobIn, active_candidate-ActiveIn,
}
use slusk.Pipeline.Importing.{
  ImportingSettings, repeated_rejection_cap, record_park, advanced_answer, fail_import_candidate,
}

after_delete-rejections :
    (job : ℕ) (leaf : Text) (now : ℕ) (w : World) (r : RemoteAnswer)
    → (after_delete job leaf now w r).tables.rejections ≡ w.tables.rejections
unfolding mark_download_folder_cleaned
after_delete-rejections job leaf now w done = refl
after_delete-rejections job leaf now w not_found = refl
after_delete-rejections job leaf now w failed = refl

cleanup_leaves-rejections :
    (b : Backend) (job now : ℕ) (leaves : List Text) (w : World)
    → (cleanup_leaves b job now leaves w).tables.rejections ≡ w.tables.rejections
unfolding cleanup_leaves
cleanup_leaves-rejections b job now [] w = refl
cleanup_leaves-rejections b job now (leaf ∷ leaves) w = elim (Bool-cases (is_quarantine_dir leaf)) [
  | inl e ↦ rw (e, cleanup_leaves) (cleanup_leaves-rejections b job now leaves w)
  | inr e ↦
      rw (e, cleanup_leaves)
        (cleanup_leaves-rejections b job now leaves
            (after_delete job leaf now w (b.delete_folder w leaf))
          ∙ after_delete-rejections job leaf now w (b.delete_folder w leaf))
]

-- The world after the removal of the job's folders, which a manual job keeps.
abbrev cleaned_world : Backend → AlbumJob → ℕ → World → World
cleaned_world b j now w =
    if source_eq j.source JobSource.manual then w else cleanup_folder b j.id now w

cleaned-SameJobs :
    (b : Backend) (j : AlbumJob) (now : ℕ) (w : World)
    → SameJobs w (cleaned_world b j now w)
      × ((cleaned_world b j now w).tables.rejections ≡ w.tables.rejections)
unfolding cleanup_folder
cleaned-SameJobs b j now w =
    let leaves = download_folders_for_job w.tables j.id in
    elim (Bool-cases (source_eq j.source JobSource.manual)) [
      | inl e ↦ rw e ((refl, refl), refl)
      | inr e ↦ rw e (
        cleanup_leaves-SameJobs b j.id now leaves w,
        cleanup_leaves-rejections b j.id now leaves w,
      )
    ]

-- Where a candidate's failure takes the job, by the job's earlier rejections for the same reason: a
-- fault of the content parks it once they have reached a limit that is set.
unfoldable pub failed_import_state : ℕ → Bool → ℕ → AlbumJobState
failed_import_state limit content_fault earlier =
    if content_fault && (ltb 0 limit && leb limit earlier)
    then AlbumJobState.parked
    else AlbumJobState.selecting

cap_reached :
    (s : ImportingSettings) (j : AlbumJob) (reason : Text) (w : World)
    → repeated_rejection_cap s j reason w ≡ (
        ltb 0 s.max_candidates
        && leb s.max_candidates (count_rejections_by_reason w.tables j.id reason))
unfolding repeated_rejection_cap
cap_reached s j reason w = ground arith

advanced_answer-JobIn :
    (j : AlbumJob) (reason : Text) (parks : Bool) (w : World) (r : Db × Bool) (st : AlbumJobState)
    → JobIn r.0 j.id st
    → JobIn (advanced_answer j reason parks w r).tables j.id st
unfolding record_park
advanced_answer-JobIn j reason parks w (db, advanced) st h = elim (Bool-cases (advanced && parks)) [
  | inl e ↦ rw e h
  | inr e ↦ rw e h
]

fail_or_reject-JobIn :
    (db : Db) (c : Candidate) (job : ℕ) (reason : Text) (content_fault : Bool) (to : AlbumJobState)
    (now : ℕ)
    → ActiveIn db c.id
    → JobIn db job AlbumJobState.importing
    → JobIn
        (if content_fault
          then reject_candidate_and_advance db c.id job reason AlbumJobState.importing to now
          else fail_candidate_and_advance db c.id job reason AlbumJobState.importing to now).0
        job
        to
unfolding reject_candidate_and_advance fail_candidate_and_advance
fail_or_reject-JobIn db c job reason true to now active h =
    terminal-JobIn db c.id job (set_failed reason now) AlbumJobState.importing to reason
      (record { records = true; cooldown = none }) now (λ r. refl) active h
fail_or_reject-JobIn db c job reason false to now active h =
    terminal-JobIn db c.id job (set_failed reason now) AlbumJobState.importing to reason
      (record { records = false; cooldown = none }) now (λ r. refl) active h

-- For an IMPORTING job with an ACTIVE candidate, failCandidate leaves the job PARKED where the
-- content is at fault and the job's earlier rejections for the same reason have reached a limit
-- that is set, and SELECTING otherwise, whatever becomes of the job's folders.
pub fail_import_candidate-failed_import_state :
    (s : ImportingSettings) (b : Backend) (j : AlbumJob) (c : Candidate) (reason : Text)
    (content_fault : Bool) (now : ℕ) (w : World)
    → active_candidate w.tables j.id ≡ some c
    → JobIn w.tables j.id AlbumJobState.importing
    → JobIn (fail_import_candidate s b j c reason content_fault now w).tables j.id (
        failed_import_state s.max_candidates content_fault
          (count_rejections_by_reason w.tables j.id reason))
unfolding fail_import_candidate failed_import_state count_rejections_by_reason
fail_import_candidate-failed_import_state s b j c reason content_fault now w found h =
    let cleaned = cleaned_world b j now w in
    let told = note (outcome j.artist_id c.username false) cleaned in
    let same = cleaned-SameJobs b j now w in
    let active =
      subst (λ rows. exists (candidate_in c.id CandidateState.active) rows ≡ true) (sym same.0.1)
        (active_candidate-ActiveIn w.tables j.id c found) in
    let still = SameJobs-JobIn w cleaned j.id AlbumJobState.importing same.0 h in
    let parks = content_fault && repeated_rejection_cap s j reason told in
    let to = (if parks then AlbumJobState.parked else AlbumJobState.selecting) in
    subst
      (λ rows. JobIn (fail_import_candidate s b j c reason content_fault now w).tables j.id (
        failed_import_state s.max_candidates content_fault
          (count (λ r. r.album_job_id == j.id && text_eq r.reason reason) rows)))
      same.1
      (rw (sym (cap_reached s j reason told)) (
        advanced_answer-JobIn j reason parks told _ to
          (fail_or_reject-JobIn told.tables c j.id reason content_fault to now active still)))
