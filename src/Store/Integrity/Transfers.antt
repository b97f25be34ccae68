-- ===== src/Store/Integrity/Transfers.antt =====
-- The write-ahead enqueue, the cancellation barrier and the folder register keep
-- the referential integrity.
use slusk.Prelude.{
  ℕ, suc, ◌≡◌, refl, Bool, true, false, ◌&&◌, ◌==◌, Bool-cases, Option-cases, inl, inr, All-append,
  not, ltb,
}
use slusk.Prelude.Text.{Text}
use slusk.Core.State.{AlbumJobState, is_live, state_eq}
use slusk.Store.Table.{exists, count, find_row, All-update, find_row-exists, select, best}
use slusk.Store.Db.{Db, job_is, candidate_is, owns_live, has_key}
use slusk.Store.Transfers.{
  owner_state, barred, upsert_intent, record_enqueue_intent, transfer_owner_state, live_id,
  attach_transfer_id, prepare_job_cancellation, cancel_rows,
}
use slusk.Store.Folders.{
  register_download_folder, upsert_folder, folder_is, valid_download_leaf, owned_by_other,
  mark_download_folder_cleaned, defer_candidate,
}
use slusk.Store.Integrity.{
  Integrity, update_jobs-Integrity, update_candidates-Integrity, update_transfers-Integrity,
  with_folders,
}
use slusk.Store.Integrity.Candidates.{with_transfers}

-- A job that the join finds has its candidate in the table.
owner_exists :
    (db : Db) (candidate : ℕ)
    → barred (owner_state db candidate) ≡ false
    → exists (candidate_is candidate) db.candidates ≡ true
unfolding owner_state
owner_exists db candidate h =
    elim (Option-cases (find_row (candidate_is candidate) db.candidates)) [
      | inl e ↦ cc (rw (e, owner_state) at h)
      | inr (c, e) ↦ find_row-exists _ db.candidates c e
    ]

upsert_intent-Integrity :
    (db : Db) (candidate : ℕ) (username filename : Text) (deadline now : ℕ)
    → exists (candidate_is candidate) db.candidates ≡ true
    → Integrity db
    → Integrity (upsert_intent db candidate username filename deadline now).0
unfolding upsert_intent
upsert_intent-Integrity db candidate username filename deadline now here i =
    elim (Option-cases (find_row (has_key candidate username filename) db.transfers)) [
      | inl e ↦
          rw (e, upsert_intent)
            (elim (Bool-cases (exists (owns_live username filename) db.transfers)) [
              | inl f ↦ rw f i
              | inr f ↦ rw f (
                  with_transfers db _ (suc db.next_transfer)
                    (All-append _ db.transfers _ i.transfers_owned (here, tt)) i)
            ])
      | inr (t, e) ↦
          rw (e, upsert_intent)
            (elim (Bool-cases (is_live t.state)) [
              | inl f ↦ rw f (update_transfers-Integrity _ (λ t. refl) _ db i)
              | inr f ↦ rw f i
            ])
    ]

pub record_enqueue_intent-Integrity :
    (db : Db) (candidate : ℕ) (username filename : Text) (deadline now : ℕ)
    → Integrity db
    → Integrity (record_enqueue_intent db candidate username filename deadline now).0
unfolding record_enqueue_intent
record_enqueue_intent-Integrity db candidate username filename deadline now i =
    elim (Bool-cases (barred (owner_state db candidate))) [
      | inl e ↦ rw e i
      | inr e ↦ rw e (
          upsert_intent-Integrity db candidate username filename deadline now
            (owner_exists db candidate e) i)
    ]

pub attach_transfer_id-Integrity :
    (db : Db) (transfer : ℕ) (remote_id : Text) (now : ℕ)
    → Integrity db
    → Integrity (attach_transfer_id db transfer remote_id now).0
unfolding attach_transfer_id
attach_transfer_id-Integrity db transfer remote_id now i =
    elim (Bool-cases (barred (transfer_owner_state db transfer))) [
      | inl e ↦ rw e i
      | inr e ↦ rw e (elim (Bool-cases (count (live_id transfer) db.transfers == 0)) [
        | inl f ↦ rw f i
        | inr f ↦ rw f (update_transfers-Integrity _ (λ t. refl) _ db i)
      ])
    ]

pub prepare_job_cancellation-Integrity :
    (db : Db) (job now : ℕ) (reject_importing : Bool)
    → Integrity db
    → Integrity (prepare_job_cancellation db job now reject_importing).0
unfolding prepare_job_cancellation
prepare_job_cancellation-Integrity db job now reject_importing i =
    elim (Option-cases (find_row (job_is job) db.jobs)) [
      | inl e ↦ rw (e, prepare_job_cancellation) i
      | inr (j, e) ↦
          rw (e, prepare_job_cancellation)
            (elim (Bool-cases (reject_importing && state_eq j.state AlbumJobState.importing)) [
              | inl f ↦ rw f i
              | inr f ↦ rw f (
                  unfold cancel_rows in
                  update_jobs-Integrity _ (λ j. refl) _ _
                    (update_transfers-Integrity _ (λ t. refl) _ db i))
            ])
    ]

upsert_folder-Integrity :
    (db : Db) (job : ℕ) (leaf : Text) (now : ℕ)
    → exists (job_is job) db.jobs ≡ true
    → Integrity db
    → Integrity (upsert_folder db job leaf now)
unfolding upsert_folder
upsert_folder-Integrity db job leaf now here i =
    elim (Bool-cases (exists (folder_is job leaf) db.folders)) [
      | inl e ↦ rw e (
          with_folders db _ db.next_folder
            (All-update (λ f. exists (job_is f.album_job_id) db.jobs ≡ true) _ _ db.folders
              (λ f _ h. h) i.folders_owned)
            i)
      | inr e ↦ rw e (
          with_folders db _ (suc db.next_folder)
            (All-append _ db.folders _ i.folders_owned (here, tt)) i)
    ]

pub register_download_folder-Integrity :
    (db : Db) (job : ℕ) (leaf : Text) (now : ℕ)
    → Integrity db
    → Integrity (register_download_folder db job leaf now).0
unfolding register_download_folder
register_download_folder-Integrity db job leaf now i =
    elim (Bool-cases (not (valid_download_leaf leaf))) [
      | inl e ↦ rw e i
      | inr e ↦
          rw e
            (elim (Option-cases (
              best (λ a b. ltb a.album_job_id b.album_job_id)
                (select (owned_by_other db job leaf) db.folders))) [
                  | inl f ↦
                      rw (f, register_download_folder)
                        (elim (Bool-cases (exists (job_is job) db.jobs)) [
                          | inl g ↦ rw g (upsert_folder-Integrity db job leaf now g i)
                          | inr g ↦ rw g i
                        ])
                  | inr (owner, f) ↦ rw (f, register_download_folder) i
                ])
    ]

pub mark_download_folder_cleaned-Integrity :
    (db : Db) (job : ℕ) (leaf : Text) (now : ℕ)
    → Integrity db
    → Integrity (mark_download_folder_cleaned db job leaf now)
unfolding mark_download_folder_cleaned
mark_download_folder_cleaned-Integrity db job leaf now i =
    with_folders db _ db.next_folder
      (All-update (λ f. exists (job_is f.album_job_id) db.jobs ≡ true) _ _ db.folders (λ f _ h. h)
        i.folders_owned)
      i

pub defer_candidate-Integrity :
    (db : Db) (candidate now : ℕ) → Integrity db → Integrity (defer_candidate db candidate now).0
unfolding defer_candidate
defer_candidate-Integrity db candidate now i =
    elim (Option-cases (find_row (candidate_is candidate) db.candidates)) [
      | inl e ↦ rw (e, defer_candidate) i
      | inr (c, e) ↦
          rw (e, defer_candidate) (update_candidates-Integrity _ (λ c. refl) (λ c. refl) _ db i)
    ]
