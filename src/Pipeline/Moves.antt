-- ===== src/Pipeline/Moves.antt =====
-- Which jobs the transactions of internal/pipeline/downloading.go move, and where to.
use slusk.Prelude.{
  ℕ, ◌≡◌, refl, sym, subst, ap, inl, inr, Bool, true, false, ◌&&◌, ◌==◌, none, some, List, [], ◌∷◌,
  ◌∙◌, arith, Bool-cases, Option-cases,
}
use slusk.Prelude.Int.{ℤ}
use slusk.Prelude.Text.{Text}
use slusk.Core.State.{AlbumJobState, CandidateState, TransferState, state_eq, state_in}
use slusk.Core.Models.{AlbumJob, Candidate}
use slusk.Store.Table.{count, exists, find_row}
use slusk.Store.Table.Found.{find_row-update}
use slusk.Store.Db.{
  Db, job_is, job_in, candidate_is, candidate_in, update_jobs, update_candidates, update_transfers,
}
use slusk.Store.Jobs.{advance_job_state_from}
use slusk.Store.Rejections.{CooldownPolicy, record_rejection_tx}
use slusk.Store.Candidates.{
  RejectionRule, set_failed, set_succeeded, terminal_writes, terminal_candidate_and_advance,
  commit_with, fail_candidate_and_advance, cooldown_candidate_and_advance,
  succeed_candidate_and_advance,
}
use slusk.Store.Retry.{park_locked, park_job_for_candidate, live_transfer, progressed}
use slusk.Store.Transfers.{
  record_enqueue_intent, upsert_intent, attach_transfer_id, update_transfer_progress,
  retry_transfer,
}
use slusk.Store.Folders.{
  register_download_folder, upsert_folder, mark_download_folder_cleaned, defer_candidate,
  clear_candidate_deferral,
}
use slusk.Pipeline.Downloading.Verdicts.{record_rejection_row-jobs}

-- The states in which Downloading leaves a job that is DOWNLOADING.
abbrev pub is_outcome : AlbumJobState → Bool
is_outcome s = state_in s (
    AlbumJobState.downloading ∷ AlbumJobState.selecting ∷ AlbumJobState.importing
    ∷ AlbumJobState.not_imported ∷ AlbumJobState.parked ∷ [])

-- What becomes of one row.
abbrev pub Passes : AlbumJob → AlbumJob → Type 0
Passes j k =
    (state_eq j.state AlbumJobState.downloading ≡ false → k ≡ j)
    × (state_eq j.state AlbumJobState.downloading ≡ true → is_outcome k.state ≡ true)

-- Every job is still there, with its row as it was, or moved on from DOWNLOADING.
abbrev RowsMove : List AlbumJob → List AlbumJob → Type 0
RowsMove a b =
    (job : ℕ) (j : AlbumJob)
    → find_row (job_is job) a ≡ some j
    → (k : AlbumJob) × (find_row (job_is job) b ≡ some k) × Passes j k

abbrev pub Moves : Db → Db → Type 0
Moves a b = RowsMove a.jobs b.jobs

outcome : (s : AlbumJobState) → state_eq s AlbumJobState.downloading ≡ true → is_outcome s ≡ true
outcome s h = ground arith

pub Moves-refl : (a : Db) → Moves a a
Moves-refl a job j found = (j, found, (λ h. refl, outcome j.state))

Passes-trans : (j k l : AlbumJob) → Passes j k → Passes k l → Passes j l
Passes-trans j k l first second = (
  λ h.
      let same = first.0 h in
      second.0 (subst (λ x. state_eq x.state AlbumJobState.downloading ≡ false) (sym same) h)
      ∙ same,
  λ h. elim (Bool-cases (state_eq k.state AlbumJobState.downloading)) [
    | inl e ↦ second.1 e
    | inr e ↦ subst (λ x. is_outcome x.state ≡ true) (sym (second.0 e)) (first.1 h)
  ],
)

RowsMove-trans : (a b c : List AlbumJob) → RowsMove a b → RowsMove b c → RowsMove a c
RowsMove-trans a b c first second job j found =
    let (k, there, p) = first job j found in
    let (l, then_there, q) = second job k there in (l, then_there, Passes-trans j k l p q)

pub Moves-trans : (a b c : Db) → Moves a b → Moves b c → Moves a c
Moves-trans a b c = RowsMove-trans a.jobs b.jobs c.jobs

-- A transaction that does not write to the jobs.
RowsMove-same : (a b c : List AlbumJob) → c ≡ b → RowsMove a b → RowsMove a c
RowsMove-same a b c same h job j found =
    let (k, there, p) = h job j found in
    (k, subst (λ rows. find_row (job_is job) rows ≡ some k) (sym same) there, p)

-- An UPDATE of a DOWNLOADING job.
update-Moves :
    (db : Db) (job : ℕ) (f : AlbumJob → AlbumJob)
    → ((j : AlbumJob) → (f j).id ≡ j.id)
    → ((j : AlbumJob) → is_outcome (f j).state ≡ true)
    → Moves db (update_jobs (job_in job AlbumJobState.downloading) f db)
unfolding update_jobs
update-Moves db job f same_id sets x j found =
    let after =
      find_row-update (job_is x) (job_in job AlbumJobState.downloading) f db.jobs j
        (λ y. ap (λ n. n == x) (same_id y)) found in
    elim (Bool-cases (job_in job AlbumJobState.downloading j)) [
      | inl e ↦ (f j, rw e at after, (λ h. absurd (ground arith), λ h. sets j))
      | inr e ↦ (j, rw e at after, (λ h. refl, outcome j.state))
    ]

module _ (a : Db) where
  terminal-Moves :
      (db : Db) (candidate job : ℕ) (set : Candidate → Candidate) (to : AlbumJobState)
      (reason : Text) (rule : RejectionRule) (now : ℕ)
      → is_outcome to ≡ true
      → Moves a db
      → Moves a
          (terminal_candidate_and_advance db candidate job set AlbumJobState.downloading to reason
            rule now).0
  unfolding terminal_candidate_and_advance record_rejection_tx update_candidates
  terminal-Moves db candidate job set to reason rule now ok h =
      let written = terminal_writes db candidate job set AlbumJobState.downloading to reason now in
      let moved : Moves a written = RowsMove-trans a.jobs db.jobs written.jobs h (
        update-Moves (update_candidates (candidate_in candidate CandidateState.active) set db) job _
          (λ j. refl) (λ j. ok)) in
      elim (Bool-cases (count (candidate_in candidate CandidateState.active) db.candidates == 0)) [
        | inl e ↦ rw e h
        | inr e ↦ elim (Bool-cases (count (job_in job AlbumJobState.downloading) db.jobs == 0)) [
          | inl f ↦ rw (e, f) h
          | inr f ↦ elim (Bool-cases rule.records) [
            | inl r ↦ elim (Option-cases (find_row (candidate_is candidate) written.candidates)) [
              | inl m ↦ rw (e, f, r, m, commit_with) h
              | inr (c, m) ↦
                  rw (e, f, r, m, commit_with)
                    (RowsMove-same a.jobs written.jobs _
                      (record_rejection_row-jobs written job c.username _ reason rule.cooldown now)
                      moved)
            ]
            | inr r ↦ rw (e, f, r) moved
          ]
        ]
      ]

  pub advance_job_state_from-Moves :
      (job : ℕ) (to : AlbumJobState) (now : ℕ) (db : Db)
      → is_outcome to ≡ true
      → Moves a db
      → Moves a (advance_job_state_from db job AlbumJobState.downloading to now).0
  unfolding advance_job_state_from
  advance_job_state_from-Moves job to now db ok h =
      Moves-trans a db (advance_job_state_from db job AlbumJobState.downloading to now).0 h
        (update-Moves db job _ (λ j. refl) (λ j. ok))

  pub fail_candidate_and_advance-Moves :
      (candidate job : ℕ) (reason : Text) (to : AlbumJobState) (now : ℕ) (db : Db)
      → is_outcome to ≡ true
      → Moves a db
      → Moves a
          (fail_candidate_and_advance db candidate job reason AlbumJobState.downloading to now).0
  unfolding fail_candidate_and_advance
  fail_candidate_and_advance-Moves candidate job reason to now db ok h =
      terminal-Moves db candidate job (set_failed reason now) to reason
        (record { records = false; cooldown = none }) now ok h

  pub cooldown_candidate_and_advance-Moves :
      (candidate job : ℕ) (reason : Text) (to : AlbumJobState) (policy : CooldownPolicy) (now : ℕ)
      (db : Db)
      → is_outcome to ≡ true
      → Moves a db
      → Moves a
          (cooldown_candidate_and_advance db candidate job reason AlbumJobState.downloading to
            policy now).0
  unfolding cooldown_candidate_and_advance
  cooldown_candidate_and_advance-Moves candidate job reason to policy now db ok h =
      terminal-Moves db candidate job (set_failed reason now) to reason
        (record { records = true; cooldown = some policy }) now ok h

  pub succeed_candidate_and_advance-Moves :
      (candidate job : ℕ) (to : AlbumJobState) (now : ℕ) (db : Db)
      → is_outcome to ≡ true
      → Moves a db
      → Moves a (succeed_candidate_and_advance db candidate job AlbumJobState.downloading to now).0
  unfolding succeed_candidate_and_advance
  succeed_candidate_and_advance-Moves candidate job to now db ok h =
      terminal-Moves db candidate job (set_succeeded now) to []
        (record { records = false; cooldown = none }) now ok h

  park_locked-Moves :
      (j : AlbumJob) (transfer candidate : ℕ) (to : TransferState) (n total : ℤ) (now : ℕ) (db : Db)
      → Moves a db
      → Moves a (park_locked db j transfer candidate to n total now).0
  unfolding park_locked update_transfers
  park_locked-Moves j transfer candidate to n total now db h =
      elim (Bool-cases (count (live_transfer transfer candidate) db.transfers == 0)) [
        | inl e ↦ rw e h
        | inr e ↦ elim (Bool-cases (state_eq j.state AlbumJobState.downloading)) [
          | inl f ↦
              rw (e, f)
                (let written =
                    update_transfers (live_transfer transfer candidate)
                      (λ t. record t {
                        state = to;
                        bytes_done = n;
                        bytes_total = total;
                        last_progress_at = progressed n now t;
                        updated_at = now;
                      })
                      db in
                  RowsMove-trans a.jobs written.jobs _
                    (RowsMove-same a.jobs db.jobs written.jobs refl h)
                    (update-Moves written j.id
                      (λ k. record k { state = AlbumJobState.parked; updated_at = now }) (λ k. refl)
                      (λ k. refl)))
          | inr f ↦ rw (e, f) (RowsMove-same a.jobs db.jobs _ refl h)
        ]
      ]

  pub park_job_for_candidate-Moves :
      (transfer candidate : ℕ) (to : TransferState) (n total : ℤ) (now : ℕ) (db : Db)
      → Moves a db
      → Moves a (park_job_for_candidate db transfer candidate to n total now).0
  unfolding park_job_for_candidate
  park_job_for_candidate-Moves transfer candidate to n total now db h =
      elim (Option-cases (find_row (candidate_is candidate) db.candidates)) [
        | inl e ↦ rw (e, park_job_for_candidate) h
        | inr (c, e) ↦ elim (Option-cases (find_row (job_is c.album_job_id) db.jobs)) [
          | inl f ↦ rw (e, f, park_job_for_candidate) h
          | inr (j, f) ↦
              elim (Bool-cases
                (exists (λ t. t.id == transfer && t.candidate_id == candidate) db.transfers)) [
                  | inl k ↦
                      rw (e, f, k, park_job_for_candidate)
                        (park_locked-Moves j transfer candidate to n total now db h)
                  | inr k ↦ rw (e, f, k, park_job_for_candidate) h
                ]
        ]
      ]

  pub retry_transfer-Moves :
      (transfer now : ℕ) (db : Db) → Moves a db → Moves a (retry_transfer db transfer now)
  unfolding retry_transfer update_transfers
  retry_transfer-Moves transfer now db h = RowsMove-same a.jobs db.jobs _ refl h

  pub update_transfer_progress-Moves :
      (transfer : ℕ) (to : TransferState) (n total : ℤ) (now : ℕ) (db : Db)
      → Moves a db
      → Moves a (update_transfer_progress db transfer to n total now)
  unfolding update_transfer_progress update_transfers
  update_transfer_progress-Moves transfer to n total now db h =
      RowsMove-same a.jobs db.jobs _ refl h

  pub attach_transfer_id-Moves :
      (transfer : ℕ) (id : Text) (now : ℕ) (db : Db)
      → Moves a db
      → Moves a (attach_transfer_id db transfer id now).0
  unfolding attach_transfer_id update_transfers
  attach_transfer_id-Moves transfer id now db h = RowsMove-same a.jobs db.jobs _ (ground arith) h

  pub record_enqueue_intent-Moves :
      (candidate : ℕ) (username filename : Text) (deadline now : ℕ) (db : Db)
      → Moves a db
      → Moves a (record_enqueue_intent db candidate username filename deadline now).0
  unfolding record_enqueue_intent upsert_intent update_transfers
  record_enqueue_intent-Moves candidate username filename deadline now db h =
      RowsMove-same a.jobs db.jobs _ (ground arith) h

  pub register_download_folder-Moves :
      (job : ℕ) (leaf : Text) (now : ℕ) (db : Db)
      → Moves a db
      → Moves a (register_download_folder db job leaf now).0
  unfolding register_download_folder upsert_folder
  register_download_folder-Moves job leaf now db h = RowsMove-same a.jobs db.jobs _ (ground arith) h

  pub mark_download_folder_cleaned-Moves :
      (job : ℕ) (leaf : Text) (now : ℕ) (db : Db)
      → Moves a db
      → Moves a (mark_download_folder_cleaned db job leaf now)
  unfolding mark_download_folder_cleaned
  mark_download_folder_cleaned-Moves job leaf now db h = RowsMove-same a.jobs db.jobs _ refl h

  pub defer_candidate-Moves :
      (candidate now : ℕ) (db : Db) → Moves a db → Moves a (defer_candidate db candidate now).0
  unfolding defer_candidate update_candidates
  defer_candidate-Moves candidate now db h = RowsMove-same a.jobs db.jobs _ (ground arith) h

  pub clear_candidate_deferral-Moves :
      (candidate : ℕ) (db : Db) → Moves a db → Moves a (clear_candidate_deferral db candidate)
  unfolding clear_candidate_deferral update_candidates
  clear_candidate_deferral-Moves candidate db h = RowsMove-same a.jobs db.jobs _ refl h
