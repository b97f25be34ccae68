-- ===== src/Store/Integrity/Wanted.antt =====
-- The wanted sync and the bulk retry keep the referential integrity.
use slusk.Prelude.{
  ℕ, suc, ◌≡◌, refl, Bool, ◌==◌, List, [], ◌∷◌, arith, Bool-cases, inl, inr, length,
}
use slusk.Core.Models.{AlbumJob, WantedRelease}
use slusk.Store.Table.{exists}
use slusk.Store.Db.{Db}
use slusk.Store.Wanted.{
  start_over, insert_wanted, has_album, refresh_from, refresh_metadata, sync_unique,
  sync_wanted_jobs, unique_releases, bulk_retry_manual, bulk_retry_jobs, cancel_jobs_not_wanted,
}
use slusk.Store.Integrity.{
  Integrity, update_jobs-Integrity, update_candidates-Integrity, delete_transfers-Integrity,
  delete_children-Integrity, delete_rejections-Integrity,
}
use slusk.Store.Integrity.Candidates.{append_jobs-Integrity}

pub start_over-Integrity :
    (p : AlbumJob → Bool) (now : ℕ) (db : Db) → Integrity db → Integrity (start_over p now db)
unfolding start_over
start_over-Integrity p now db i =
    delete_rejections-Integrity _ _
      (delete_children-Integrity _ _ (update_jobs-Integrity _ (λ j. refl) p db i))

insert_wanted-Integrity :
    (releases : List WantedRelease) (now : ℕ) (db : Db)
    → Integrity db
    → Integrity (insert_wanted releases now db)
unfolding insert_wanted
insert_wanted-Integrity [] now db i = i
insert_wanted-Integrity (r ∷ rs) now db i = elim (Bool-cases (exists (has_album r.id) db.jobs)) [
  | inl e ↦ rw e (insert_wanted-Integrity rs now db i)
  | inr e ↦ rw e (
      insert_wanted-Integrity rs now _
        (append_jobs-Integrity db _ (suc db.next_job) (omega arith) (omega arith, tt) i))
]

refresh_from-Integrity :
    (p : AlbumJob → Bool) (f : AlbumJob → AlbumJob) (releases : List WantedRelease) (db : Db)
    → ((j : AlbumJob) → (f j).id ≡ j.id)
    → Integrity db
    → Integrity (refresh_from p f releases db)
unfolding refresh_from
refresh_from-Integrity p f [] db same i = i
refresh_from-Integrity p f (r ∷ rs) db same i =
    refresh_from-Integrity p f rs _ same (update_jobs-Integrity _ (λ j. same _) _ db i)

refresh_metadata-Integrity :
    (releases : List WantedRelease) (now : ℕ) (db : Db)
    → Integrity db
    → Integrity (refresh_metadata releases now db)
unfolding refresh_metadata
refresh_metadata-Integrity releases now db i =
    refresh_from-Integrity _ (λ j. j) releases _ (λ j. refl)
      (refresh_from-Integrity _ (λ j. record j { updated_at = now }) releases db (λ j. refl) i)

sync_unique-Integrity :
    (db : Db) (releases : List WantedRelease) (failed_cutoff now : ℕ)
    → Integrity db
    → Integrity (sync_unique db releases failed_cutoff now).0
unfolding sync_unique cancel_jobs_not_wanted
sync_unique-Integrity db releases failed_cutoff now i = start_over-Integrity _ now _ (
    update_jobs-Integrity _ (λ j. refl) _ _
      (refresh_metadata-Integrity releases now _
        (start_over-Integrity _ now _ (insert_wanted-Integrity releases now db i))))

pub sync_wanted_jobs-Integrity :
    (db : Db) (releases : List WantedRelease) (failed_cutoff now : ℕ)
    → Integrity db
    → Integrity (sync_wanted_jobs db releases failed_cutoff now).0
unfolding sync_wanted_jobs
sync_wanted_jobs-Integrity db releases failed_cutoff now i =
    elim (Bool-cases (length (unique_releases releases) == 0)) [
      | inl e ↦ rw e i
      | inr e ↦ rw e (sync_unique-Integrity db (unique_releases releases) failed_cutoff now i)
    ]

pub bulk_retry_jobs-Integrity :
    (db : Db) (ids : List ℕ) (now : ℕ) → Integrity db → Integrity (bulk_retry_jobs db ids now).0
unfolding bulk_retry_jobs bulk_retry_manual
bulk_retry_jobs-Integrity db ids now i =
    update_candidates-Integrity _ (λ c. refl) (λ c. refl) _ _
      (delete_transfers-Integrity _ _
        (update_jobs-Integrity _ (λ j. refl) _ _ (start_over-Integrity _ now db i)))
