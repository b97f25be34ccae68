-- ===== src/Store/Wanted/Manual.antt =====
-- SyncWantedJobs of internal/store/pipeline.go and the jobs that did not come from Lidarr.
use slusk.Prelude.{
  ℕ, suc, ◌≡◌, ◌∙◌, refl, ap, Bool, true, false, not, ◌&&◌, ◌==◌, List, [], ◌∷◌, ◌++◌, Bool-cases,
  inl, inr, length, &&-parts,
}
use slusk.Core.State.{AlbumJobState, JobSource, state_eq, source_eq}
use slusk.Core.Models.{AlbumJob, WantedRelease}
use slusk.Store.Table.{update, select, exists}
use slusk.Store.Table.Found.{select-update, select-append}
use slusk.Store.Db.{Db, update_jobs, clean_slate}
use slusk.Store.Jobs.{lacks_metadata}
use slusk.Store.Wanted.{
  from_lidarr, unwanted, set_cancelled, cancel_jobs_not_wanted, failed_before, album_in, revivable,
  start_over, unique_releases, wanted_job, has_album, insert_wanted, set_metadata, refresh_from,
  refresh_metadata, ids_of, rewanted, sync_unique, sync_wanted_jobs,
}
use slusk.Store.Wanted.Snapshot.{start_over-jobs}

-- source = manual
abbrev pub is_manual : AlbumJob → Bool
is_manual j = source_eq j.source JobSource.manual

lidarr_not_manual : (j : AlbumJob) → from_lidarr j ≡ true → is_manual j ≡ false
lidarr_not_manual j h = go j.source h
  where
    go :
        (s : JobSource) → source_eq s JobSource.lidarr ≡ true → source_eq s JobSource.manual ≡ false
    go JobSource.lidarr e = refl
    go JobSource.manual e = cc

-- An update of Lidarr jobs that keeps the source.
manual-update :
    (p : AlbumJob → Bool) (f : AlbumJob → AlbumJob) (jobs : List AlbumJob)
    → ((j : AlbumJob) → p j ≡ true → from_lidarr j ≡ true)
    → ((j : AlbumJob) → (f j).source ≡ j.source)
    → select is_manual (update p f jobs) ≡ select is_manual jobs
manual-update p f jobs lidarr same =
    select-update is_manual p f jobs (λ j h. lidarr_not_manual j (lidarr j h))
      (λ j h. ap (λ s. source_eq s JobSource.manual) (same j) ∙ lidarr_not_manual j (lidarr j h))

manual-start_over :
    (p : AlbumJob → Bool) (now : ℕ) (db : Db)
    → ((j : AlbumJob) → p j ≡ true → from_lidarr j ≡ true)
    → select is_manual (start_over p now db).jobs ≡ select is_manual db.jobs
manual-start_over p now db lidarr =
    ap (select is_manual) (start_over-jobs p now db)
    ∙ manual-update p (clean_slate AlbumJobState.wanted now) db.jobs lidarr (λ j. refl)

manual-insert_wanted :
    (releases : List WantedRelease) (now : ℕ) (db : Db)
    → select is_manual (insert_wanted releases now db).jobs ≡ select is_manual db.jobs
unfolding insert_wanted
manual-insert_wanted [] now db = refl
manual-insert_wanted (r ∷ rs) now db = elim (Bool-cases (exists (has_album r.id) db.jobs)) [
  | inl e ↦ rw (e, insert_wanted) (manual-insert_wanted rs now db)
  | inr e ↦
      rw (e, insert_wanted)
        (manual-insert_wanted rs now (record db {
          jobs = db.jobs ++ wanted_job db.next_job r now ∷ [];
          next_job = suc db.next_job;
        })
          ∙ select-append is_manual db.jobs (wanted_job db.next_job r now ∷ [])
          ∙ unfold select in append_none (select is_manual db.jobs))
]
  where
    append_none : (js : List AlbumJob) → js ++ [] ≡ js
    append_none [] = refl
    append_none (j ∷ js) = ap (λ ks. j ∷ ks) (append_none js)

manual-refresh_from :
    (p : AlbumJob → Bool) (f : AlbumJob → AlbumJob) (releases : List WantedRelease) (db : Db)
    → ((j : AlbumJob) → (f j).source ≡ j.source)
    → select is_manual (refresh_from p f releases db).jobs ≡ select is_manual db.jobs
unfolding refresh_from update_jobs
manual-refresh_from p f [] db same = refl
manual-refresh_from p f (r ∷ rs) db same =
    manual-refresh_from p f rs
      (update_jobs (λ j. has_album r.id j && p j) (λ j. f (set_metadata r j)) db) same
    ∙ manual-update (λ j. has_album r.id j && p j) (λ j. f (set_metadata r j)) db.jobs
        (λ j h. (&&-parts (from_lidarr j) _ (&&-parts (has_album r.id j) (p j) h).0).0)
        (λ j. same (set_metadata r j))

manual-refresh_metadata :
    (releases : List WantedRelease) (now : ℕ) (db : Db)
    → select is_manual (refresh_metadata releases now db).jobs ≡ select is_manual db.jobs
unfolding refresh_metadata
manual-refresh_metadata releases now db =
    let full =
      refresh_from (λ j. state_eq j.state AlbumJobState.wanted) (λ j. record j { updated_at = now })
        releases db in
    manual-refresh_from (λ j. not (state_eq j.state AlbumJobState.wanted) && lacks_metadata j)
      (λ j. j) releases full (λ j. refl)
    ∙ manual-refresh_from (λ j. state_eq j.state AlbumJobState.wanted)
        (λ j. record j { updated_at = now }) releases db (λ j. refl)

manual-sync_unique :
    (db : Db) (releases : List WantedRelease) (cutoff now : ℕ)
    → select is_manual (sync_unique db releases cutoff now).0.jobs ≡ select is_manual db.jobs
unfolding sync_unique cancel_jobs_not_wanted update_jobs
manual-sync_unique db releases cutoff now =
    let ids = ids_of releases in
    let inserted = insert_wanted releases now db in
    let entered = start_over (rewanted ids) now inserted in
    let refreshed = refresh_metadata releases now entered in
    let kept = (cancel_jobs_not_wanted refreshed ids now).0 in
    manual-start_over (revivable ids cutoff) now kept (λ j h.
      (&&-parts (album_in ids j.lidarr_album_id) _
        (&&-parts (failed_before j.failed_at cutoff) _
          (&&-parts (state_eq j.state AlbumJobState.failed) _ h).1).1).1)
    ∙ manual-update (unwanted ids) (set_cancelled now) refreshed.jobs
        (λ j h. (&&-parts (from_lidarr j) _ (&&-parts (not _) _ h).1).0) (λ j. refl)
    ∙ manual-refresh_metadata releases now entered
    ∙ manual-start_over (rewanted ids) now inserted (λ j h.
      (&&-parts (from_lidarr j) _ (&&-parts (state_eq j.state AlbumJobState.cancelled) _ h).1).0)
    ∙ manual-insert_wanted releases now db

-- SyncWantedJobs leaves every manual job as it was, and adds none.
pub sync_wanted_jobs-is_manual :
    (db : Db) (releases : List WantedRelease) (cutoff now : ℕ)
    → select is_manual (sync_wanted_jobs db releases cutoff now).0.jobs ≡ select is_manual db.jobs
unfolding sync_wanted_jobs
sync_wanted_jobs-is_manual db releases cutoff now =
    elim (Bool-cases (length (unique_releases releases) == 0)) [
      | inl e ↦ rw e refl
      | inr e ↦ rw e (manual-sync_unique db (unique_releases releases) cutoff now)
    ]
