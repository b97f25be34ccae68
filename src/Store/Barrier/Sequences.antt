-- ===== src/Store/Barrier/Sequences.antt =====
-- Every sequence of the operations on transfers after CancelJob.
use slusk.Prelude.{
  ℕ, ◌≡◌, refl, false, ◌&&◌, ◌==◌, some, List, [], ◌∷◌, Bool-cases, Option-cases, inl, inr,
  &&-parts,
}
use slusk.Prelude.Int.{ℤ}
use slusk.Prelude.Text.{Text}
use slusk.Core.State.{TransferState}
use slusk.Core.Models.{AlbumJob, Candidate}
use slusk.Store.Table.{exists, count, find_row}
use slusk.Store.Db.{Db, job_is, candidate_is}
use slusk.Store.Retry.{park_job_for_candidate}
use slusk.Store.Transfers.{
  owner_state, barred, record_enqueue_intent, live_id, attach_transfer_id, transfer_owner_state,
  uncancelled, update_transfer_progress, retry_transfer, live_of, cancel_job,
}
use slusk.Store.Integrity.{UniqueIds}
use slusk.Store.Barrier.{cancel_job_lem, cancel_job-candidates}
use slusk.Store.Barrier.Peers.{
  PeerOperation, intends, attaches, progresses, retries, parks, peer_apply, peer_run,
  uncancelled_job, Closed, update-Closed, open_owner, upsert_intent-Closed, park_locked-Closed,
}

intends-Closed :
    (candidates : List Candidate) (job k : ℕ) (u f : Text) (deadline now : ℕ) (db : Db)
    → UniqueIds candidates
    → Closed candidates job db
    → Closed candidates job (record_enqueue_intent db k u f deadline now).0
unfolding record_enqueue_intent
intends-Closed candidates job k u f deadline now db unique c =
    elim (Bool-cases (barred (owner_state db k))) [
      | inl e ↦ rw e c
      | inr e ↦ rw e (
          upsert_intent-Closed candidates job k u f deadline now db
            (open_owner candidates job k db unique c e) c)
    ]

attaches-Closed :
    (candidates : List Candidate) (job t : ℕ) (remote : Text) (now : ℕ) (db : Db)
    → Closed candidates job db
    → Closed candidates job (attach_transfer_id db t remote now).0
unfolding attach_transfer_id
attaches-Closed candidates job t remote now db c =
    elim (Bool-cases (barred (transfer_owner_state db t))) [
      | inl e ↦ rw e c
      | inr e ↦ rw e (elim (Bool-cases (count (live_id t) db.transfers == 0)) [
        | inl f ↦ rw f c
        | inr f ↦ rw f (
            update-Closed candidates job (live_id t) _ db (λ r h. (&&-parts (r.id == t) _ h).1)
              (λ r. refl) c)
      ])
    ]

parks-Closed :
    (candidates : List Candidate) (job t k : ℕ) (to : TransferState) (n total : ℤ) (now : ℕ)
    (db : Db)
    → Closed candidates job db
    → Closed candidates job (park_job_for_candidate db t k to n total now).0
unfolding park_job_for_candidate
parks-Closed candidates job t k to n total now db c =
    elim (Option-cases (find_row (candidate_is k) db.candidates)) [
      | inl e ↦ rw (e, park_job_for_candidate) c
      | inr (x, e) ↦
          rw (e, park_job_for_candidate)
            (elim (Option-cases (find_row (job_is x.album_job_id) db.jobs)) [
              | inl f ↦ rw (f, park_job_for_candidate) c
              | inr (j, f) ↦
                  rw (f, park_job_for_candidate)
                    (elim (Bool-cases
                      (exists (λ r. r.id == t && r.candidate_id == k) db.transfers)) [
                        | inl g ↦ rw g (park_locked-Closed candidates job j t k to n total now db c)
                        | inr g ↦ rw g c
                      ])
            ])
    ]

peer_apply-Closed :
    (candidates : List Candidate) (job : ℕ) (op : PeerOperation) (db : Db)
    → UniqueIds candidates
    → Closed candidates job db
    → Closed candidates job (peer_apply op db)
unfolding peer_apply update_transfer_progress retry_transfer
peer_apply-Closed candidates job (intends k u f deadline now) db unique c =
    intends-Closed candidates job k u f deadline now db unique c
peer_apply-Closed candidates job (attaches t remote now) db unique c =
    attaches-Closed candidates job t remote now db c
peer_apply-Closed candidates job (progresses t to n total now) db unique c =
    update-Closed candidates job (λ r. live_id t r && uncancelled db r) _ db
      (λ r h. (&&-parts (r.id == t) _ (&&-parts (live_id t r) _ h).0).1) (λ r. refl) c
peer_apply-Closed candidates job (retries t now) db unique c =
    update-Closed candidates job (λ r. live_id t r && uncancelled db r) _ db
      (λ r h. (&&-parts (r.id == t) _ (&&-parts (live_id t r) _ h).0).1) (λ r. refl) c
peer_apply-Closed candidates job (parks t k to n total now) db unique c =
    parks-Closed candidates job t k to n total now db c

peer_run-Closed :
    (candidates : List Candidate) (job : ℕ) (ops : List PeerOperation) (db : Db)
    → UniqueIds candidates
    → Closed candidates job db
    → Closed candidates job (peer_run ops db)
unfolding peer_run
peer_run-Closed candidates job [] db unique c = c
peer_run-Closed candidates job (op ∷ ops) db unique c =
    peer_run-Closed candidates job ops (peer_apply op db) unique
      (peer_apply-Closed candidates job op db unique c)

-- After CancelJob on a job that is there, in tables whose candidate ids are unique, every
-- sequence of enqueue intents, attached ids, progress reports, transfer retries and parkings
-- leaves every row of the job CANCELLED and no live transfer of its candidates.
pub peer_run-cancel_job :
    (db : Db) (job now : ℕ) (j : AlbumJob) (ops : List PeerOperation)
    → UniqueIds db.candidates
    → find_row (job_is job) db.jobs ≡ some j
    → (exists (uncancelled_job job) (peer_run ops (cancel_job db job now).0).jobs ≡ false)
      × (exists
            (live_of (peer_run ops (cancel_job db job now).0) job)
            (peer_run ops (cancel_job db job now).0).transfers
          ≡ false)
peer_run-cancel_job db job now j ops unique found =
    let after = cancel_job_lem db job now j found in
    let closed =
      peer_run-Closed db.candidates job ops (cancel_job db job now).0 unique
        (cancel_job-candidates db job now j found, after.0, after.1) in
    (closed.1, closed.2)
