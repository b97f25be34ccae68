-- ===== src/Pipeline/Downloading/Verdicts.antt =====
-- Where a guarded transition of internal/store/candidates.go takes the row of a job.
pub mod Resolved
use slusk.Prelude.{
  ℕ, ◌<◌, ◌≡◌, refl, sym, ap, subst, ◌∙◌, inl, inr, Bool, true, false, not, ◌&&◌, ◌||◌, ◌==◌,
  Option, none, some, List, [], ◌∷◌, ltb, arith, Bool-cases, Option-cases, some_eq, &&-parts,
  if◌then◌else◌, length,
}
use slusk.Prelude.Text.{Text, is_empty, codes}
use slusk.Core.State.{
  AlbumJobState, CandidateState, JobSource, TransferState, state_eq, source_eq, candidate_state_eq,
}
use slusk.Core.Models.{AlbumJob, Candidate, Transfer}
use slusk.Store.Table.{
  count, exists, find_row, select, update, find_row-holds, find_row-exists, exists-count,
  exists_mono, exists-update,
}
use slusk.Store.Table.Found.{find_row-update, find_row-none, exists-update_key}
use slusk.Store.Db.{
  Db, job_is, job_in, candidate_is, candidate_in, update_jobs, update_candidates, update_transfers,
}
use slusk.Store.Rejections.{CooldownPolicy, record_rejection_tx, record_rejection_row}
use slusk.Store.Candidates.{
  RejectionRule, set_failed, set_succeeded, terminal_writes, terminal_candidate_and_advance,
  commit_with, refused_reason, cooldown_candidate_and_advance, succeed_candidate_and_advance,
  active_candidate, of_job_in,
}
use slusk.Store.Jobs.{advance_job_state_from}
use slusk.Store.Folders.{mark_download_folder_cleaned, download_folders_for_job}
use slusk.Pipeline.Paths.{is_quarantine_dir}
use slusk.Pipeline.World.{
  World, Backend, RemoteAnswer, done, not_found, failed, JobEventType, event, note, after_cancel,
}
use slusk.Pipeline.Quarantine.{after_delete, cleanup_leaves, cleanup_folder}
use slusk.Pipeline.TopUp.{is_pending, transfers_for_candidate}
use slusk.Pipeline.Downloading.Resolve.{
  cancel_row, cancel_pending, sibling_answer, cancel_active, give_up, leave_in_place, any_failed,
  all_done, is_completed, is_lost, resolve_transfers, resolve_downloading_job, failed_detail,
  candidate_cooldown,
}
use slusk.Store.Transfers.{update_transfer_progress, is_in_flight}

pub found_exists :
    {A : Type 0} (q r : A → Bool) (xs : List A) (x : A)
    → find_row q xs ≡ some x
    → r x ≡ true
    → exists r xs ≡ true
unfolding find_row exists
found_exists q r [] x h k = cc
found_exists q r (y ∷ ys) x h k = elim (Bool-cases (q y)) [
  | inl e ↦
      let same = some_eq (rw (e, find_row) at h) in
      let here = subst (λ z. r z ≡ true) (sym same) k in ground arith
  | inr e ↦ let rest = found_exists q r ys x (rw (e, find_row) at h) k in ground arith
]

pub count_found :
    {A : Type 0} (q : A → Bool) (xs : List A) → exists q xs ≡ true → (count q xs == 0) ≡ false
count_found q xs h = let some_row = exists-count q xs h in ground arith

pub state_eq_refl : (s : AlbumJobState) → state_eq s s ≡ true
state_eq_refl s = ground arith

-- The job's row is in the state.
abbrev pub RowIn : List AlbumJob → ℕ → AlbumJobState → Type 0
RowIn rows job st =
    (k : AlbumJob) × (find_row (job_is job) rows ≡ some k) × (state_eq k.state st ≡ true)

abbrev pub JobIn : Db → ℕ → AlbumJobState → Type 0
JobIn db job st = RowIn db.jobs job st

-- An UPDATE of the job in a state that sets another one.
pub JobIn-update_jobs :
    (db : Db) (job : ℕ) (from to : AlbumJobState) (f : AlbumJob → AlbumJob)
    → ((j : AlbumJob) → (f j).id ≡ j.id)
    → ((j : AlbumJob) → state_eq (f j).state to ≡ true)
    → JobIn db job from
    → JobIn (update_jobs (job_in job from) f db) job to
unfolding update_jobs
JobIn-update_jobs db job from to f same_id sets (k, found, is) =
    let key = find_row-holds (job_is job) db.jobs k found in
    let after =
      find_row-update (job_is job) (job_in job from) f db.jobs k
        (λ j. ap (λ n. n == job) (same_id j)) found in
    (f k, rw (key, is) at after, sets k)

pub JobIn-count :
    (db : Db) (job : ℕ) (st : AlbumJobState)
    → JobIn db job st
    → (count (job_in job st) db.jobs == 0) ≡ false
JobIn-count db job st (k, found, is) =
    let key = find_row-holds (job_is job) db.jobs k found in
    count_found (job_in job st) db.jobs
      (found_exists (job_is job) (job_in job st) db.jobs k found (rw (key, is) refl))

-- The row of the candidate is there and ACTIVE.
abbrev pub ActiveIn : Db → ℕ → Type 0
ActiveIn db candidate = exists (candidate_in candidate CandidateState.active) db.candidates ≡ true

pub record_rejection_row-jobs :
    (db : Db) (job : ℕ) (u f r : Text) (p : Option CooldownPolicy) (now : ℕ)
    → (record_rejection_row db job u f r p now).jobs ≡ db.jobs
unfolding record_rejection_row
record_rejection_row-jobs db job u f r p now = elim (Bool-cases (is_empty f)) [
  | inl e ↦ rw e refl
  | inr e ↦ rw e refl
]

-- The rejection is recorded for a candidate that is there, and leaves the jobs alone.
commit_rejection-JobIn :
    (old db : Db) (candidate job : ℕ) (st : AlbumJobState) (reason : Text)
    (p : Option CooldownPolicy) (now : ℕ)
    → exists (candidate_is candidate) db.candidates ≡ true
    → JobIn db job st
    → JobIn (commit_with old (record_rejection_tx db candidate job reason p now)).0 job st
unfolding record_rejection_tx
commit_rejection-JobIn old db candidate job st reason p now there h =
    elim (Option-cases (find_row (candidate_is candidate) db.candidates)) [
      | inl e ↦ absurd (let gone = find_row-none (candidate_is candidate) db.candidates e in cc)
      | inr (c, e) ↦
          rw (e, commit_with)
            (subst (λ rows. RowIn rows job st)
              (sym (record_rejection_row-jobs db job c.username _ reason p now)) h)
    ]

written-JobIn :
    (db : Db) (candidate job : ℕ) (set : Candidate → Candidate) (from to : AlbumJobState)
    (reason : Text) (now : ℕ)
    → JobIn db job from
    → JobIn (terminal_writes db candidate job set from to reason now) job to
unfolding update_candidates
written-JobIn db candidate job set from to reason now h =
    JobIn-update_jobs (update_candidates (candidate_in candidate CandidateState.active) set db) job
      from to
      (λ j. record j {
        state = to;
        updated_at = now;
        import_refused_reason = refused_reason to reason j.import_refused_reason;
      })
      (λ j. refl) (λ j. state_eq_refl to) h

written-candidate :
    (db : Db) (candidate job : ℕ) (set : Candidate → Candidate) (from to : AlbumJobState)
    (reason : Text) (now : ℕ)
    → ((c : Candidate) → (set c).id ≡ c.id)
    → ActiveIn db candidate
    → exists
        (candidate_is candidate)
        (terminal_writes db candidate job set from to reason now).candidates
      ≡ true
unfolding update_candidates update_jobs
written-candidate db candidate job set from to reason now same h =
    exists-update (candidate_is candidate) (candidate_in candidate CandidateState.active) set
      db.candidates (λ c. ap (λ n. n == candidate) (same c))
    ∙ exists_mono (candidate_in candidate CandidateState.active) (candidate_is candidate)
        db.candidates (λ c k. (&&-parts (c.id == candidate) _ k).0) h

pub terminal-JobIn :
    (db : Db) (candidate job : ℕ) (set : Candidate → Candidate) (from to : AlbumJobState)
    (reason : Text) (rule : RejectionRule) (now : ℕ)
    → ((c : Candidate) → (set c).id ≡ c.id)
    → ActiveIn db candidate
    → JobIn db job from
    → JobIn (terminal_candidate_and_advance db candidate job set from to reason rule now).0 job to
unfolding terminal_candidate_and_advance
terminal-JobIn db candidate job set from to reason rule now same active h =
    rw
      (
        count_found (candidate_in candidate CandidateState.active) db.candidates active,
        JobIn-count db job from h,
      )
      (let written = written-JobIn db candidate job set from to reason now h in
        elim (Bool-cases rule.records) [
          | inl e ↦ rw e (
              commit_rejection-JobIn db (terminal_writes db candidate job set from to reason now)
                candidate job to reason rule.cooldown now
                (written-candidate db candidate job set from to reason now same active) written)
          | inr e ↦ rw e written
        ])
