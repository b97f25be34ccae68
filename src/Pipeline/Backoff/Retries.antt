-- ===== src/Pipeline/Backoff/Retries.antt =====
-- The retry budget of internal/pipeline/backoff.go: the delay, and the end of the retries.
use slusk.Prelude.{
  ℕ, suc, ◌+◌, ◌*◌, ◌%◌, ◌^◌, ◌≤◌, ◌<◌, ◌≡◌, refl, ap, true, false, not, ◌&&◌, ==_iff, none, some,
  arith, if◌then◌else◌, ltb, leb, Option, List, [], ◌∷◌, length,
}
use slusk.Prelude.Text.{Text}
use slusk.Core.State.{AlbumJobState, state_in}
use slusk.Core.Models.{AlbumJob}
use slusk.Store.Table.{find_row, find_row-holds}
use slusk.Store.Table.Found.{find_row-update}
use slusk.Store.Db.{Db, job_is, update_jobs}
use slusk.Store.Jobs.{due, mark_job_failed, set_job_backoff, guarded_states}
use slusk.Store.Rejections.{max_exponent}
use slusk.Store.Rejections.Bars.{capped_exact, clamp_id}
use slusk.Pipeline.Backoff.{
  next_backoff, fail_or_backoff, failing_cycle, failing_cycles, first_due, next_turn, RetryPolicy,
}

-- Where the doubled base does not overflow an int64, for at most 32 retries, the delay is that
-- base, cut at the cap.
pub next_backoff_exact :
    (retries base cap : ℕ)
    → retries ≤ 32
    → base * 2 ^ retries < 2 ^ 63
    → next_backoff retries base cap
      ≡ (if ltb cap (base * 2 ^ retries) then cap else base * 2 ^ retries)
unfolding next_backoff
next_backoff_exact retries base cap few fits =
    rw (clamp_id retries few) (capped_exact (base * 2 ^ retries) cap fits)

-- From the thirty-second retry on, a base that is a multiple of 2^32 wraps around to no delay at
-- all.
pub next_backoff_wraps : (more k cap : ℕ) → next_backoff (32 + more) (2 ^ 32 * k) cap ≡ 0
unfolding next_backoff
next_backoff_wraps more k cap =
    let last : (if ltb max_exponent (32 + more) then max_exponent else 32 + more) ≡ 32 =
      ground arith in
    let none_left : (2 ^ 32 * k * 2 ^ 32) % 2 ^ 64 ≡ 0 = omega arith in
    rw last (rw none_left (ground arith))

set_backoff_row :
    (db : Db) (job : ℕ) (j : AlbumJob) (retries not_before now : ℕ)
    → find_row (job_is job) db.jobs ≡ some j
    → find_row (job_is job) (set_job_backoff db job retries not_before now).jobs
      ≡ some (record j {
        retries = retries;
        empty_searches = 0;
        not_before = some not_before;
        updated_at = now;
      })
unfolding set_job_backoff update_jobs
set_backoff_row db job j retries not_before now found =
    let key = find_row-holds (job_is job) db.jobs j found in
    let after =
      find_row-update (job_is job) (job_is job)
        (λ r. record r {
          retries = retries;
          empty_searches = 0;
          not_before = some not_before;
          updated_at = now;
        })
        db.jobs j (λ r. refl) found in
    rw key at after

failed_row :
    (db : Db) (job now : ℕ) (j : AlbumJob)
    → find_row (job_is job) db.jobs ≡ some j
    → state_in j.state guarded_states ≡ false
    → find_row (job_is job) (mark_job_failed db job now).jobs
      ≡ some (record j {
        state = AlbumJobState.failed;
        failed_at = some now;
        not_before = none;
        updated_at = now;
      })
unfolding mark_job_failed update_jobs
failed_row db job now j found unguarded =
    let key = find_row-holds (job_is job) db.jobs j found in
    let after =
      find_row-update (job_is job) (λ r. job_is job r && not (state_in r.state guarded_states))
        (λ r. record r {
          state = AlbumJobState.failed;
          failed_at = some now;
          not_before = none;
          updated_at = now;
        })
        db.jobs j (λ r. refl) found in
    rw (key, unguarded) at after

module _ (policy : RetryPolicy) (reason : Text) (job : ℕ) where
  last_cycle :
      (now : ℕ) (db : Db) (j : AlbumJob)
      → find_row (job_is job) db.jobs ≡ some j
      → due j.not_before now ≡ true
      → leb policy.max_retries (j.retries + 1) ≡ true
      → failing_cycle policy reason job now db ≡ mark_job_failed db job now
  unfolding failing_cycle fail_or_backoff
  last_cycle now db j found ready spent =
      let key = (==_iff j.id job).0 (find_row-holds (job_is job) db.jobs j found) in
      rw (found, failing_cycle) (rw (ready, spent) (ap (λ k. mark_job_failed db k now) key))

  early_cycle :
      (now : ℕ) (db : Db) (j : AlbumJob)
      → find_row (job_is job) db.jobs ≡ some j
      → due j.not_before now ≡ true
      → leb policy.max_retries (j.retries + 1) ≡ false
      → failing_cycle policy reason job now db
        ≡ set_job_backoff db job
            (j.retries + 1)
            (now + next_backoff (j.retries + 1) policy.base policy.cap)
            now
  unfolding failing_cycle fail_or_backoff
  early_cycle now db j found ready left =
      let key = (==_iff j.id job).0 (find_row-holds (job_is job) db.jobs j found) in
      rw (found, failing_cycle)
        (rw (ready, left)
          (ap
            (λ k.
              set_job_backoff db k (j.retries + 1)
                (now + next_backoff (j.retries + 1) policy.base policy.cap) now)
            key))

  first_due-due : (now late : ℕ) (o : Option ℕ) → due o (first_due now o + late) ≡ true
  first_due-due now late none = refl
  first_due-due now late (some t) = ground arith

  next_turn-due :
      (now late : ℕ) (db : Db) (j : AlbumJob)
      → find_row (job_is job) db.jobs ≡ some j
      → due j.not_before (next_turn db job now + late) ≡ true
  unfolding next_turn
  next_turn-due now late db j found = rw (found, next_turn) (first_due-due now late j.not_before)

-- A job that is in no guarded state and has as many retries left as there are failing search
-- cycles, each at any time from the end of the backoff of the one before, is FAILED after the
-- last of them, with the time of the last one.
pub failing_cycles-failed :
    (policy : RetryPolicy) (reason : Text) (job : ℕ) (late : ℕ) (lates : List ℕ) (now : ℕ) (db : Db)
    (j : AlbumJob)
    → find_row (job_is job) db.jobs ≡ some j
    → state_in j.state guarded_states ≡ false
    → j.retries + suc (length lates) ≡ policy.max_retries
    → (k : AlbumJob) × (find_row
          (job_is job)
          (failing_cycles (late ∷ lates) policy reason job now db).0.jobs
        ≡ some k)
      × (k.state ≡ AlbumJobState.failed)
      × (k.failed_at ≡ some (failing_cycles (late ∷ lates) policy reason job now db).1)
unfolding failing_cycles
failing_cycles-failed policy reason job late [] now db j found unguarded left =
    let at = next_turn db job now + late in
    (
      record j {
        state = AlbumJobState.failed;
        failed_at = some at;
        not_before = none;
        updated_at = at;
      },
      rw
          (last_cycle policy reason job at db j found
            (next_turn-due policy reason job now late db j found) (ground (arith, left)))
          (failed_row db job at j found unguarded),
      refl,
      refl,
    )
failing_cycles-failed policy reason job late (next ∷ lates) now db j found unguarded left =
    let at = next_turn db job now + late in
    let early =
      early_cycle policy reason job at db j found
        (next_turn-due policy reason job now late db j found) (ground (arith, left)) in
    failing_cycles-failed policy reason job next lates at (failing_cycle policy reason job at db)
      (record j {
        retries = j.retries + 1;
        empty_searches = 0;
        not_before = some (at + next_backoff (j.retries + 1) policy.base policy.cap);
        updated_at = at;
      })
      (rw early (
        set_backoff_row db job j (j.retries + 1)
          (at + next_backoff (j.retries + 1) policy.base policy.cap) at found))
      unguarded (omega (arith, left))
