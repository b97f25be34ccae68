-- ===== src/Pipeline/TopUp/Deferral.antt =====
-- How long a candidate waits for the folder of another job: internal/pipeline/selecting.go,
-- deferForFolder.
use slusk.Prelude.{
  ℕ, ◌-◌, ◌≡◌, refl, ◌∙◌, inl, inr, true, false, Option, none, some, ltb, leb, arith, Bool-cases,
  Option-cases, if◌then◌else◌,
}
use slusk.Prelude.Text.{Text}
use slusk.Core.State.{AlbumJobState, CandidateState}
use slusk.Core.Models.{Candidate}
use slusk.Store.Table.{find_row, exists-update}
use slusk.Store.Db.{Db, candidate_is, candidate_in, update_candidates}
use slusk.Store.Candidates.{set_failed, fail_candidate_and_advance}
use slusk.Store.Folders.{defer_candidate, or_now}
use slusk.Pipeline.World.{World, Fmt}
use slusk.Pipeline.TopUp.{TopUpSettings, defer_for_folder, ceiling_reason}
use slusk.Pipeline.TopUp.Moved.{reservation_world}
use slusk.Pipeline.Downloading.Verdicts.{JobIn, ActiveIn, terminal-JobIn}

-- Where a wait that began at that time leaves the job.
unfoldable pub waiting_state : ℕ → ℕ → Option ℕ → AlbumJobState
waiting_state deadline now none = AlbumJobState.downloading
waiting_state deadline now (some since) =
    if ltb deadline (now - since) then AlbumJobState.selecting else AlbumJobState.downloading

over : (deadline waited : ℕ) → ltb deadline waited ≡ true → leb waited deadline ≡ false
over deadline waited h = ground arith

within : (deadline waited : ℕ) → ltb deadline waited ≡ false → leb waited deadline ≡ true
within deadline waited h = ground arith

ceiling-JobIn :
    (db : Db) (candidate job : ℕ) (reason : Text) (now : ℕ)
    → ActiveIn db candidate
    → JobIn db job AlbumJobState.downloading
    → JobIn
        (fail_candidate_and_advance db candidate job reason AlbumJobState.downloading
          AlbumJobState.selecting now).0
        job
        AlbumJobState.selecting
unfolding fail_candidate_and_advance
ceiling-JobIn db candidate job reason now active h =
    terminal-JobIn db candidate job (set_failed reason now) AlbumJobState.downloading
      AlbumJobState.selecting reason (record { records = false; cooldown = none }) now (λ c. refl)
      active h

-- The tables after DeferCandidate.
abbrev deferred : Db → ℕ → ℕ → Db
deferred db candidate now =
    update_candidates (candidate_is candidate)
      (λ r. record r { deferred_since = some (or_now r.deferred_since now); updated_at = now }) db

deferred-ActiveIn :
    (db : Db) (candidate now : ℕ)
    → ActiveIn db candidate
    → ActiveIn (deferred db candidate now) candidate
unfolding update_candidates
deferred-ActiveIn db candidate now h =
    exists-update (candidate_in candidate CandidateState.active) (candidate_is candidate)
      (λ r. record r { deferred_since = some (or_now r.deferred_since now); updated_at = now })
      db.candidates (λ r. refl)
    ∙ h

-- For a DOWNLOADING job whose ACTIVE candidate finds its folder in use by another job,
-- deferForFolder leaves the job SELECTING once the wait has lasted for more than the transfer
-- deadline, and DOWNLOADING before that and where this call begins the wait.
pub defer_for_folder-waiting_state :
    (s : TopUpSettings) (f : Fmt) (job candidate : ℕ) (c : Candidate) (leaf : Text) (owner now : ℕ)
    (w : World)
    → find_row (candidate_is candidate) w.tables.candidates ≡ some c
    → ActiveIn w.tables candidate
    → JobIn w.tables job AlbumJobState.downloading
    → JobIn
        (reservation_world (defer_for_folder s f job candidate leaf owner now w)).tables
        job
        (waiting_state s.transfer_deadline now c.deferred_since)
unfolding defer_for_folder defer_candidate waiting_state update_candidates
defer_for_folder-waiting_state s f job candidate c leaf owner now w found active h =
    let after = deferred w.tables candidate now in
    rw (found, defer_candidate)
      (elim (Option-cases c.deferred_since) [
        | inl e ↦ rw e h
        | inr (since, e) ↦ rw e (elim (Bool-cases (ltb s.transfer_deadline (now - since))) [
          | inl k ↦
              rw (k, over s.transfer_deadline (now - since) k)
                (ceiling-JobIn after candidate job (ceiling_reason f leaf owner s.transfer_deadline)
                  now (deferred-ActiveIn w.tables candidate now active) h)
          | inr k ↦ rw (k, within s.transfer_deadline (now - since) k) h
        ])
      ])
