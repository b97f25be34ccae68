-- ===== src/Store/LiveOwner/Statements.antt =====
-- The operations of the store that write transfers keep one live owner per remote file.
use slusk.Prelude.{
  ℕ, suc, refl, Bool, ◌&&◌, ◌==◌, List, [], ◌∷◌, Bool-cases, Option-cases, inl, inr, length, leb,
  &&-parts,
}
use slusk.Prelude.Text.{Text}
use slusk.Core.State.{AlbumJobState, state_eq, is_live}
use slusk.Core.Models.{Candidate, CandidateFile, Transfer}
use slusk.Store.Table.{count, exists, find_row}
use slusk.Store.Db.{
  Db, job_is, job_in, owns_live, has_key, update_jobs, update_candidates, update_transfers,
}
use slusk.Store.Jobs.{count_jobs_in_states}
use slusk.Store.Activation.{
  Inserted, inserted, remote_busy, duplicate_key, insert_pending, pending_transfer,
  activate_inserted, activate_locked, activate_candidate_with_transfers, write_activation, eligible,
  valid_files, create_inserted, create_manual_job, active_states,
}
use slusk.Store.Transfers.{
  upsert_intent, record_enqueue_intent, owner_state, barred, live_key, live_id, attach_transfer_id,
  transfer_owner_state, prepare_job_cancellation, cancel_rows, live_of,
}
use slusk.Store.LiveOwner.{LiveUnique, append-LiveUnique, update-LiveUnique}

abbrev InsertedUnique : Inserted → Type 0
InsertedUnique (inserted rows) = LiveUnique rows
InsertedUnique remote_busy = Unit
InsertedUnique duplicate_key = Unit

insert_pending_unique :
    (id candidate : ℕ) (username : Text) (files : List CandidateFile) (deadline now : ℕ)
    (rows : List Transfer)
    → LiveUnique rows
    → InsertedUnique (insert_pending id candidate username files deadline now rows)
unfolding insert_pending
insert_pending_unique id candidate username [] deadline now rows unique = unique
insert_pending_unique id candidate username (f ∷ fs) deadline now rows unique =
    elim (Bool-cases (exists (has_key candidate username f.filename) rows)) [
      | inl e ↦ rw e tt
      | inr e ↦ rw e (elim (Bool-cases (exists (owns_live username f.filename) rows)) [
        | inl g ↦ rw g tt
        | inr g ↦ rw g (
            insert_pending_unique (suc id) candidate username fs deadline now _ (
              append-LiveUnique rows (pending_transfer id candidate username f deadline now) g
                unique))
      ])
    ]

activate_inserted_unique :
    (db : Db) (candidate job : ℕ) (files : List CandidateFile) (release_date : Text) (r : Inserted)
    (now : ℕ)
    → InsertedUnique r
    → LiveUnique db.transfers
    → LiveUnique (activate_inserted db candidate job files release_date r now).0.transfers
unfolding activate_inserted write_activation update_jobs update_candidates
activate_inserted_unique db candidate job files release_date remote_busy now new u = u
activate_inserted_unique db candidate job files release_date duplicate_key now new u = u
activate_inserted_unique db candidate job files release_date (inserted rows) now new u =
    elim (Bool-cases (count (eligible candidate job) db.candidates == 1)) [
      | inl e ↦ rw e (elim (Bool-cases (count (job_in job AlbumJobState.selecting) db.jobs == 1)) [
        | inl f ↦ rw f new
        | inr f ↦ rw f u
      ])
      | inr e ↦ rw e u
    ]

activate_locked_unique :
    (db : Db) (c : Candidate) (job : ℕ) (release_date : Text) (max_active deadline now : ℕ)
    → LiveUnique db.transfers
    → LiveUnique (activate_locked db c job release_date max_active deadline now).0.transfers
unfolding activate_locked
activate_locked_unique db c job release_date max_active deadline now u =
    elim (Bool-cases (length c.files == 0)) [
      | inl e ↦ rw e u
      | inr e ↦ rw e (elim (Bool-cases (valid_files [] c.files)) [
        | inl f ↦ rw f (elim (Bool-cases (leb max_active (count_jobs_in_states db active_states))) [
          | inl g ↦ rw g u
          | inr g ↦ rw g (
              activate_inserted_unique db c.id job c.files release_date _ now
                (insert_pending_unique db.next_transfer c.id c.username c.files deadline now
                  db.transfers u)
                u)
        ])
        | inr f ↦ rw f u
      ])
    ]

pub activate_candidate_with_transfers-LiveUnique :
    (db : Db) (candidate job max_active deadline now : ℕ)
    → LiveUnique db.transfers
    → LiveUnique
        (activate_candidate_with_transfers db candidate job max_active deadline now).0.transfers
unfolding activate_candidate_with_transfers
activate_candidate_with_transfers-LiveUnique db candidate job max_active deadline now u =
    elim (Option-cases (find_row (eligible candidate job) db.candidates)) [
      | inl e ↦ rw (e, activate_candidate_with_transfers) u
      | inr (c, e) ↦
          rw (e, activate_candidate_with_transfers)
            (elim (Option-cases (find_row (job_in job AlbumJobState.selecting) db.jobs)) [
              | inl f ↦ rw (f, activate_candidate_with_transfers) u
              | inr (j, f) ↦
                  rw (f, activate_candidate_with_transfers)
                    (activate_locked_unique db c job j.release_date max_active deadline now u)
            ])
    ]

create_inserted_unique :
    (db : Db) (title artist_name peer album_mbid : Text) (files : List CandidateFile) (r : Inserted)
    (now : ℕ)
    → InsertedUnique r
    → LiveUnique db.transfers
    → LiveUnique (create_inserted db title artist_name peer album_mbid files r now).0.transfers
unfolding create_inserted
create_inserted_unique db title artist_name peer album_mbid files remote_busy now new u = u
create_inserted_unique db title artist_name peer album_mbid files duplicate_key now new u = u
create_inserted_unique db title artist_name peer album_mbid files (inserted rows) now new u = new

pub create_manual_job-LiveUnique :
    (db : Db) (title artist_name peer album_mbid : Text) (files : List CandidateFile)
    (deadline now : ℕ)
    → LiveUnique db.transfers
    → LiveUnique
        (create_manual_job db title artist_name peer album_mbid files deadline now).0.transfers
unfolding create_manual_job
create_manual_job-LiveUnique db title artist_name peer album_mbid files deadline now u =
    create_inserted_unique db title artist_name peer album_mbid files _ now
      (insert_pending_unique db.next_transfer db.next_candidate peer files deadline now db.transfers
        u)
      u

upsert_intent_unique :
    (db : Db) (candidate : ℕ) (username filename : Text) (deadline now : ℕ)
    → LiveUnique db.transfers
    → LiveUnique (upsert_intent db candidate username filename deadline now).0.transfers
unfolding upsert_intent update_transfers
upsert_intent_unique db candidate username filename deadline now u =
    elim (Option-cases (find_row (has_key candidate username filename) db.transfers)) [
      | inl e ↦
          rw (e, upsert_intent)
            (elim (Bool-cases (exists (owns_live username filename) db.transfers)) [
              | inl f ↦ rw f u
              | inr f ↦ rw f (append-LiveUnique db.transfers _ f u)
            ])
      | inr (t, e) ↦
          rw (e, upsert_intent)
            (elim (Bool-cases (is_live t.state)) [
              | inl f ↦
                  rw (f, update_transfers)
                    (update-LiveUnique (live_key candidate username filename) _ db.transfers
                      (λ t. refl) (λ t. refl)
                      (λ t h. (&&-parts (has_key candidate username filename t) _ h).1) u)
              | inr f ↦ rw f u
            ])
    ]

pub record_enqueue_intent-LiveUnique :
    (db : Db) (candidate : ℕ) (username filename : Text) (deadline now : ℕ)
    → LiveUnique db.transfers
    → LiveUnique (record_enqueue_intent db candidate username filename deadline now).0.transfers
unfolding record_enqueue_intent
record_enqueue_intent-LiveUnique db candidate username filename deadline now u =
    elim (Bool-cases (barred (owner_state db candidate))) [
      | inl e ↦ rw e u
      | inr e ↦ rw e (upsert_intent_unique db candidate username filename deadline now u)
    ]

pub attach_transfer_id-LiveUnique :
    (db : Db) (transfer : ℕ) (remote_id : Text) (now : ℕ)
    → LiveUnique db.transfers
    → LiveUnique (attach_transfer_id db transfer remote_id now).0.transfers
unfolding attach_transfer_id update_transfers
attach_transfer_id-LiveUnique db transfer remote_id now u =
    elim (Bool-cases (barred (transfer_owner_state db transfer))) [
      | inl e ↦ rw e u
      | inr e ↦ rw e (elim (Bool-cases (count (live_id transfer) db.transfers == 0)) [
        | inl f ↦ rw f u
        | inr f ↦
            rw (f, update_transfers)
              (update-LiveUnique (live_id transfer) _ db.transfers (λ t. refl) (λ t. refl)
                (λ t h. (&&-parts (t.id == transfer) _ h).1) u)
      ])
    ]

pub prepare_job_cancellation-LiveUnique :
    (db : Db) (job now : ℕ) (reject_importing : Bool)
    → LiveUnique db.transfers
    → LiveUnique (prepare_job_cancellation db job now reject_importing).0.transfers
unfolding prepare_job_cancellation cancel_rows update_jobs update_transfers
prepare_job_cancellation-LiveUnique db job now reject_importing u =
    elim (Option-cases (find_row (job_is job) db.jobs)) [
      | inl e ↦ rw (e, prepare_job_cancellation) u
      | inr (j, e) ↦
          rw (e, prepare_job_cancellation)
            (elim (Bool-cases (reject_importing && state_eq j.state AlbumJobState.importing)) [
              | inl f ↦ rw f u
              | inr f ↦
                  rw (f, cancel_rows, update_jobs, update_transfers)
                    (update-LiveUnique (live_of db job) _ db.transfers (λ t. refl) (λ t. refl)
                      (λ t h. (&&-parts _ (is_live t.state) h).1) u)
            ])
    ]
