-- ===== src/Store/Activation/Cap.antt =====
-- ActivateCandidateWithTransfers of internal/store/candidates.go: the cap on active jobs, and a
-- refused activation.
use slusk.Prelude.{
  ℕ, ◌≤◌, ◌≡◌, refl, true, false, ◌==◌, ==_iff, List, [], arith, Bool-cases, Option-cases, inl, inr,
  leb, length, &&-parts, subst, sym,
}
use slusk.Prelude.Text.{Text}
use slusk.Core.State.{AlbumJobState, state_eq, state_eq→≡, state_in}
use slusk.Core.Models.{AlbumJob, Candidate, CandidateFile}
use slusk.Store.Table.{count, find_row}
use slusk.Store.Table.Found.{count-update_gain}
use slusk.Store.Db.{Db, job_in, update_jobs, update_candidates}
use slusk.Store.Jobs.{count_jobs_in_states}
use slusk.Store.Activation.{
  Inserted, inserted, remote_busy, duplicate_key, insert_pending, Activation, activated, cap_full,
  skipped, invalid, activate_inserted, activate_locked, activate_candidate_with_transfers,
  write_activation, eligible, valid_files, active_states, set_downloading,
}

-- What an activation may leave: the cap holds if it activated, and else nothing is written.
abbrev pub Settled : Db → ℕ → Db × Activation → Type 0
Settled db limit (after, activated) = count_jobs_in_states after active_states ≤ limit
Settled db limit (after, cap_full) = after ≡ db
Settled db limit (after, skipped) = after ≡ db
Settled db limit (after, invalid) = after ≡ db

activate_inserted-Settled :
    (db : Db) (candidate job : ℕ) (files : List CandidateFile) (release_date : Text) (r : Inserted)
    (limit now : ℕ)
    → leb limit (count_jobs_in_states db active_states) ≡ false
    → Settled db limit (activate_inserted db candidate job files release_date r now)
unfolding activate_inserted write_activation update_jobs update_candidates count_jobs_in_states
activate_inserted-Settled db candidate job files release_date remote_busy limit now free = refl
activate_inserted-Settled db candidate job files release_date duplicate_key limit now free = refl
activate_inserted-Settled db candidate job files release_date (inserted rows) limit now free =
    elim (Bool-cases (count (eligible candidate job) db.candidates == 1)) [
      | inl e ↦ rw e (elim (Bool-cases (count (job_in job AlbumJobState.selecting) db.jobs == 1)) [
        | inl f ↦
            let one = (==_iff (count (job_in job AlbumJobState.selecting) db.jobs) 1).0 f in
            let gain =
              count-update_gain (λ j. state_in j.state active_states)
                (job_in job AlbumJobState.selecting) (set_downloading files release_date now)
                db.jobs (λ j h. not_active j (&&-parts (j.id == job) _ h).1) (λ j h. refl) in
            rw f (rw gain (ground (arith, one, free)))
        | inr f ↦ rw f refl
      ])
      | inr e ↦ rw e refl
    ]
  where
    not_active :
        (j : AlbumJob)
        → state_eq j.state AlbumJobState.selecting ≡ true
        → state_in j.state active_states ≡ false
    not_active j h =
        subst (λ s. state_in s active_states ≡ false)
          (sym (state_eq→≡ j.state AlbumJobState.selecting h)) refl

activate_locked-Settled :
    (db : Db) (c : Candidate) (job : ℕ) (release_date : Text) (limit deadline now : ℕ)
    → Settled db limit (activate_locked db c job release_date limit deadline now)
unfolding activate_locked
activate_locked-Settled db c job release_date limit deadline now =
    elim (Bool-cases (length c.files == 0)) [
      | inl e ↦ rw e refl
      | inr e ↦ rw e (elim (Bool-cases (valid_files [] c.files)) [
        | inl f ↦ rw f (elim (Bool-cases (leb limit (count_jobs_in_states db active_states))) [
          | inl g ↦ rw g refl
          | inr g ↦ rw g (
              activate_inserted-Settled db c.id job c.files release_date
                (insert_pending db.next_transfer c.id c.username c.files deadline now db.transfers)
                limit now g)
        ])
        | inr f ↦ rw f refl
      ])
    ]

-- ActivateCandidateWithTransfers either activates, and then at most `limit` jobs are DOWNLOADING
-- or IMPORTING, or it answers why not and leaves every table as it was.
pub activate_candidate_with_transfers-Settled :
    (db : Db) (candidate job limit deadline now : ℕ)
    → Settled db limit (activate_candidate_with_transfers db candidate job limit deadline now)
unfolding activate_candidate_with_transfers
activate_candidate_with_transfers-Settled db candidate job limit deadline now =
    elim (Option-cases (find_row (eligible candidate job) db.candidates)) [
      | inl e ↦ rw (e, activate_candidate_with_transfers) refl
      | inr (c, e) ↦
          rw (e, activate_candidate_with_transfers)
            (elim (Option-cases (find_row (job_in job AlbumJobState.selecting) db.jobs)) [
              | inl f ↦ rw (f, activate_candidate_with_transfers) refl
              | inr (j, f) ↦
                  rw (f, activate_candidate_with_transfers)
                    (activate_locked-Settled db c job j.release_date limit deadline now)
            ])
    ]
