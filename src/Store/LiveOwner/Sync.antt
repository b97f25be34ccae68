-- ===== src/Store/LiveOwner/Sync.antt =====
-- The wanted sync, the bulk retry, the candidate cache and the folder register keep one live owner
-- per remote file.
use slusk.Prelude.{
  ℕ, suc, ◌≡◌, sym, subst, ◌∙◌, refl, Bool, ◌&&◌, ◌||◌, ◌==◌, List, [], ◌∷◌, ◌++◌, Bool-cases,
  Option-cases, inl, inr, length, ltb, not,
}
use slusk.Prelude.Text.{Text}
use slusk.Core.State.{AlbumJobState, state_eq}
use slusk.Store.Jobs.{lacks_metadata}
use slusk.Core.Models.{AlbumJob, WantedRelease}
use slusk.Store.Table.{exists, find_row, select, best}
use slusk.Store.Db.{
  Db, job_is, candidate_is, update_jobs, update_candidates, delete_transfers, delete_rejections,
}
use slusk.Store.Candidates.{insert_candidates, NewCandidate}
use slusk.Store.Wanted.{
  start_over, insert_wanted, has_album, refresh_from, refresh_metadata, sync_unique,
  sync_wanted_jobs, unique_releases, bulk_retry_manual, bulk_retry_jobs, wanted_job, returned,
  cancel_jobs_not_wanted,
}
use slusk.Store.Folders.{
  register_download_folder, upsert_folder, folder_is, valid_download_leaf, owned_by_other,
  defer_candidate,
}
use slusk.Store.LiveOwner.{LiveUnique, delete-LiveUnique}
use slusk.Store.LiveOwner.Deletions.{delete_children-LiveUnique}

start_over-LiveUnique :
    (p : AlbumJob → Bool) (now : ℕ) (db : Db)
    → LiveUnique db.transfers
    → LiveUnique (start_over p now db).transfers
unfolding start_over delete_rejections update_jobs
start_over-LiveUnique p now db u =
    delete_children-LiveUnique (returned p db.jobs) (record db { jobs = _ }) u

insert_wanted-LiveUnique :
    (releases : List WantedRelease) (now : ℕ) (db : Db)
    → LiveUnique db.transfers
    → LiveUnique (insert_wanted releases now db).transfers
unfolding insert_wanted
insert_wanted-LiveUnique [] now db u = u
insert_wanted-LiveUnique (r ∷ rs) now db u = elim (Bool-cases (exists (has_album r.id) db.jobs)) [
  | inl e ↦ rw (e, insert_wanted) (insert_wanted-LiveUnique rs now db u)
  | inr e ↦
      rw (e, insert_wanted)
        (insert_wanted-LiveUnique rs now
          (record db {
            jobs = db.jobs ++ wanted_job db.next_job r now ∷ [];
            next_job = suc db.next_job;
          })
          u)
]

refresh_from-transfers :
    (p : AlbumJob → Bool) (f : AlbumJob → AlbumJob) (releases : List WantedRelease) (db : Db)
    → (refresh_from p f releases db).transfers ≡ db.transfers
unfolding refresh_from update_jobs
refresh_from-transfers p f [] db = refl
refresh_from-transfers p f (r ∷ rs) db = refresh_from-transfers p f rs (update_jobs _ _ db)

refresh_metadata-LiveUnique :
    (releases : List WantedRelease) (now : ℕ) (db : Db)
    → LiveUnique db.transfers
    → LiveUnique (refresh_metadata releases now db).transfers
unfolding refresh_metadata
refresh_metadata-LiveUnique releases now db u =
    let full =
      refresh_from (λ j. state_eq j.state AlbumJobState.wanted) (λ j. record j { updated_at = now })
        releases db in
    subst LiveUnique
      (sym (
        refresh_from-transfers
          (λ j. not (state_eq j.state AlbumJobState.wanted) && lacks_metadata j) (λ j. j) releases
          full
        ∙ refresh_from-transfers (λ j. state_eq j.state AlbumJobState.wanted)
            (λ j. record j { updated_at = now }) releases db))
      u

cancel_jobs_not_wanted-LiveUnique :
    (db : Db) (ids : List ℕ) (now : ℕ)
    → LiveUnique db.transfers
    → LiveUnique (cancel_jobs_not_wanted db ids now).0.transfers
unfolding cancel_jobs_not_wanted update_jobs
cancel_jobs_not_wanted-LiveUnique db ids now u = u

sync_unique-LiveUnique :
    (db : Db) (releases : List WantedRelease) (failed_cutoff now : ℕ)
    → LiveUnique db.transfers
    → LiveUnique (sync_unique db releases failed_cutoff now).0.transfers
unfolding sync_unique
sync_unique-LiveUnique db releases failed_cutoff now u = start_over-LiveUnique _ now _ (
    cancel_jobs_not_wanted-LiveUnique _ _ now (
      refresh_metadata-LiveUnique releases now _
        (start_over-LiveUnique _ now _ (insert_wanted-LiveUnique releases now db u))))

pub sync_wanted_jobs-LiveUnique :
    (db : Db) (releases : List WantedRelease) (failed_cutoff now : ℕ)
    → LiveUnique db.transfers
    → LiveUnique (sync_wanted_jobs db releases failed_cutoff now).0.transfers
unfolding sync_wanted_jobs
sync_wanted_jobs-LiveUnique db releases failed_cutoff now u =
    elim (Bool-cases (length (unique_releases releases) == 0)) [
      | inl e ↦ rw e u
      | inr e ↦ rw e (sync_unique-LiveUnique db (unique_releases releases) failed_cutoff now u)
    ]

pub bulk_retry_jobs-LiveUnique :
    (db : Db) (ids : List ℕ) (now : ℕ)
    → LiveUnique db.transfers
    → LiveUnique (bulk_retry_jobs db ids now).0.transfers
unfolding bulk_retry_jobs bulk_retry_manual update_candidates delete_transfers update_jobs
bulk_retry_jobs-LiveUnique db ids now u = delete-LiveUnique _ _ (start_over-LiveUnique _ now db u)

pub insert_candidates-LiveUnique :
    (db : Db) (job : ℕ) (cands : List NewCandidate) (now : ℕ)
    → LiveUnique db.transfers
    → LiveUnique (insert_candidates db job cands now).0.transfers
unfolding insert_candidates update_jobs
insert_candidates-LiveUnique db job cands now u =
    elim (Bool-cases (exists (job_is job) db.jobs || length cands == 0)) [
      | inl e ↦ rw e u
      | inr e ↦ rw e u
    ]

upsert_folder-LiveUnique :
    (db : Db) (job : ℕ) (leaf : Text) (now : ℕ)
    → LiveUnique db.transfers
    → LiveUnique (upsert_folder db job leaf now).transfers
unfolding upsert_folder
upsert_folder-LiveUnique db job leaf now u =
    elim (Bool-cases (exists (folder_is job leaf) db.folders)) [ inl e ↦ rw e u | inr e ↦ rw e u ]

pub register_download_folder-LiveUnique :
    (db : Db) (job : ℕ) (leaf : Text) (now : ℕ)
    → LiveUnique db.transfers
    → LiveUnique (register_download_folder db job leaf now).0.transfers
unfolding register_download_folder
register_download_folder-LiveUnique db job leaf now u =
    elim (Bool-cases (not (valid_download_leaf leaf))) [
      | inl e ↦ rw e u
      | inr e ↦
          rw e
            (elim (Option-cases (
              best (λ a b. ltb a.album_job_id b.album_job_id)
                (select (owned_by_other db job leaf) db.folders))) [
                  | inl f ↦
                      rw (f, register_download_folder)
                        (elim (Bool-cases (exists (job_is job) db.jobs)) [
                          | inl g ↦ rw g (upsert_folder-LiveUnique db job leaf now u)
                          | inr g ↦ rw g u
                        ])
                  | inr (owner, f) ↦ rw (f, register_download_folder) u
                ])
    ]

pub defer_candidate-LiveUnique :
    (db : Db) (candidate now : ℕ)
    → LiveUnique db.transfers
    → LiveUnique (defer_candidate db candidate now).0.transfers
unfolding defer_candidate update_candidates
defer_candidate-LiveUnique db candidate now u =
    elim (Option-cases (find_row (candidate_is candidate) db.candidates)) [
      | inl e ↦ rw (e, defer_candidate) u
      | inr (c, e) ↦ rw (e, defer_candidate) u
    ]
