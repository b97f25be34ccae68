-- ===== src/Pipeline/Importing/Confirmed.antt =====
-- Where the ends of an import take a job: internal/pipeline/importing.go.
use slusk.Prelude.{
  ℕ, ◌-◌, ◌≡◌, refl, sym, subst, ◌∙◌, inl, inr, Bool, true, false, ◌&&◌, Option, none, some, List,
  [], ◌∷◌, ltb, leb, Bool-cases, if◌then◌else◌,
}
use slusk.Prelude.Text.{Text, text_eq, codes}
use slusk.Core.State.{AlbumJobState}
use slusk.Core.Models.{AlbumJob, Candidate}
use slusk.Store.Candidates.{
  active_candidate, set_failed, set_succeeded, reject_candidate_and_advance,
  succeed_candidate_and_advance,
}
use slusk.Store.Folders.{download_folders_for_job, mark_download_folder_cleaned}
use slusk.Pipeline.Paths.{quarantine_dir_name, join_path}
use slusk.Pipeline.World.{World, JobEventType, event, outcome, write, note}
use slusk.Pipeline.Quarantine.{mark_cleaned}
use slusk.Pipeline.Downloading.Verdicts.{RowIn, JobIn, ActiveIn, terminal-JobIn}
use slusk.Pipeline.Downloading.Verdicts.Resolved.{active_candidate-ActiveIn}
use slusk.Pipeline.Importing.{
  ImportingSettings, Folders, Music, Listing, entries, missing, unreadable, completed_answer,
  cleanup_completed, cleanup_completed_folder, fail_unconfirmed, complete_import, status_answer,
  album_complete, confirm,
}

mark_cleaned-jobs :
    (job : ℕ) (leaf : Text) (now : ℕ) (w : World)
    → (mark_cleaned job leaf now w).tables.jobs ≡ w.tables.jobs
unfolding mark_download_folder_cleaned
mark_cleaned-jobs job leaf now w = refl

completed_answer-jobs :
    (d : Folders) (job : ℕ) (leaf folder : Text) (now : ℕ) (w : World) (l : Listing)
    → (completed_answer d job leaf folder now w l).tables.jobs ≡ w.tables.jobs
completed_answer-jobs d job leaf folder now w missing = mark_cleaned-jobs job leaf now w
completed_answer-jobs d job leaf folder now w unreadable = refl
completed_answer-jobs d job leaf folder now w (entries n) =
    let marked = mark_cleaned-jobs job leaf now w in
    elim (Bool-cases (ltb 0 n)) [
      | inl e ↦ rw e marked
      | inr e ↦ elim (Bool-cases (d.remove w folder)) [
        | inl k ↦ rw (e, k) marked
        | inr k ↦ rw (e, k) refl
      ]
    ]

cleanup_completed-jobs :
    (d : Folders) (job : ℕ) (root : Text) (now : ℕ) (leaves : List Text) (w : World)
    → (cleanup_completed d job root now leaves w).tables.jobs ≡ w.tables.jobs
unfolding cleanup_completed
cleanup_completed-jobs d job root now [] w = refl
cleanup_completed-jobs d job root now (leaf ∷ leaves) w =
    elim (Bool-cases (text_eq leaf quarantine_dir_name)) [
      | inl e ↦ rw (e, cleanup_completed) (cleanup_completed-jobs d job root now leaves w)
      | inr e ↦
          let folder = join_path root leaf in
          let next = completed_answer d job leaf folder now w (d.list w folder) in
          rw (e, cleanup_completed)
            (cleanup_completed-jobs d job root now leaves next
              ∙ completed_answer-jobs d job leaf folder now w (d.list w folder))
    ]

-- Where an import goes whose status Lidarr answers, once it is late or not.
unfoldable pub confirmed_state : Option (ℕ × ℕ) → Bool → AlbumJobState
confirmed_state none late = if late then AlbumJobState.selecting else AlbumJobState.importing
confirmed_state (some (present, total)) late =
    if ltb 0 total && leb total present
    then AlbumJobState.done
    else if late
    then AlbumJobState.selecting
    else AlbumJobState.importing

module _ (j : AlbumJob) (c : Candidate) (now : ℕ) (w : World) (active : ActiveIn w.tables c.id)
    (h : JobIn w.tables j.id AlbumJobState.importing) where
  fail_unconfirmed-JobIn :
      (detail : Text)
      → JobIn (fail_unconfirmed j c detail now w).tables j.id AlbumJobState.selecting
  unfolding fail_unconfirmed reject_candidate_and_advance
  fail_unconfirmed-JobIn detail =
      terminal-JobIn w.tables c.id j.id (set_failed (codes "import not confirmed") now)
        AlbumJobState.importing AlbumJobState.selecting (codes "import not confirmed")
        (record { records = true; cooldown = none }) now (λ r. refl) active h

  complete_import-JobIn :
      (d : Folders) (root detail : Text)
      → JobIn (complete_import d root j c detail now w).tables j.id AlbumJobState.done
  unfolding succeed_candidate_and_advance cleanup_completed_folder
  complete_import-JobIn d root detail =
      let told =
        note (outcome j.artist_id c.username true)
          (note (event j.id JobEventType.attempt_succeeded detail) w) in
      let closed =
        write
          (succeed_candidate_and_advance w.tables c.id j.id AlbumJobState.importing
            AlbumJobState.done now).0
          told in
      subst (λ rows. RowIn rows j.id AlbumJobState.done)
        (sym (
          cleanup_completed-jobs d j.id root now (download_folders_for_job closed.tables j.id)
            closed))
        (terminal-JobIn w.tables c.id j.id (set_succeeded now) AlbumJobState.importing
          AlbumJobState.done [] (record { records = false; cooldown = none }) now (λ r. refl) active
          h)

  status_answer-JobIn :
      (s : ImportingSettings) (d : Folders) (late : Bool) (status : Option (ℕ × ℕ))
      → JobIn (status_answer s d j c late now w status).tables j.id (confirmed_state status late)
  unfolding confirmed_state
  status_answer-JobIn s d true none = fail_unconfirmed-JobIn _
  status_answer-JobIn s d false none = h
  status_answer-JobIn s d late (some (present, total)) =
      elim (Bool-cases (album_complete present total)) [
        | inl e ↦ rw e (complete_import-JobIn d s.complete_dir _)
        | inr e ↦ elim (Bool-cases late) [
          | inl k ↦ rw (e, k) (fail_unconfirmed-JobIn _)
          | inr k ↦ rw (e, k) h
        ]
      ]

-- For an IMPORTING job with an ACTIVE candidate, confirm leaves the job DONE where Lidarr has all
-- of at least one track, SELECTING where it has not, or does not answer, and the time for the
-- confirmation is over, and IMPORTING otherwise.
pub confirm-confirmed_state :
    (s : ImportingSettings) (d : Folders) (m : Music) (j : AlbumJob) (c : Candidate)
    (album submitted now : ℕ) (w : World)
    → active_candidate w.tables j.id ≡ some c
    → JobIn w.tables j.id AlbumJobState.importing
    → JobIn
        (confirm s d m j c album submitted now w).tables
        j.id
        (confirmed_state (m.album_status w album) (ltb s.import_confirm_timeout (now - submitted)))
unfolding confirm
confirm-confirmed_state s d m j c album submitted now w found h =
    status_answer-JobIn j c now w (active_candidate-ActiveIn w.tables j.id c found) h s d
      (ltb s.import_confirm_timeout (now - submitted)) (m.album_status w album)
