-- ===== src/Store/Wanted/Snapshot.antt =====
-- SyncWantedJobs of internal/store/pipeline.go against the snapshot that it reconciles with.
use slusk.Prelude.{
  ℕ, suc, ◌≡◌, ◌∙◌, refl, sym, ap, subst, Bool, true, false, not, ◌&&◌, ◌||◌, ◌==◌, ==_iff, Option,
  none, some, List, [], ◌∷◌, ◌++◌, arith, Bool-cases, inl, inr, length, &&-parts,
}
use slusk.Core.State.{AlbumJobState, state_eq, state_in}
use slusk.Core.Models.{AlbumJob, WantedRelease}
use slusk.Store.Table.{update, exists, exists-update, exists-append}
use slusk.Store.Table.Found.{exists-update_none, exists-update_le, exists_same}
use slusk.Store.Db.{
  Db, update_jobs, delete_children, delete_candidates, delete_transfers, delete_rejections,
  clean_slate,
}
use slusk.Store.Jobs.{guarded_states, lacks_metadata}
use slusk.Store.Wanted.{
  any_id, album_in, album_not_in, from_lidarr, unwanted, set_cancelled, cancel_jobs_not_wanted,
  failed_before, revivable, start_over, put_release, unique_from, unique_releases, wanted_job,
  has_album, insert_wanted, set_metadata, refresh_from, refresh_metadata, ids_of, rewanted,
  sync_unique, sync_wanted_jobs,
}

any_id-put_release :
    (r : WantedRelease) (acc : List WantedRelease) (k : ℕ)
    → any_id (ids_of (put_release r acc)) k ≡ (r.id == k || any_id (ids_of acc) k)
unfolding put_release any_id
any_id-put_release r [] k = refl
any_id-put_release r (s ∷ ss) k = ground (arith, any_id-put_release r ss k)

any_id-unique_from :
    (acc releases : List WantedRelease) (k : ℕ)
    → any_id (ids_of (unique_from acc releases)) k
      ≡ (any_id (ids_of acc) k || any_id (ids_of releases) k)
unfolding unique_from any_id
any_id-unique_from acc [] k = ground arith
any_id-unique_from acc (r ∷ rs) k =
    ground (arith, any_id-unique_from (put_release r acc) rs k, any_id-put_release r acc k)

-- The deduplicated snapshot has the ids of the snapshot.
any_id-unique_releases :
    (releases : List WantedRelease) (k : ℕ)
    → any_id (ids_of (unique_releases releases)) k ≡ any_id (ids_of releases) k
unfolding unique_releases any_id
any_id-unique_releases releases k = any_id-unique_from [] releases k

unwanted_same :
    (ids others : List ℕ) (j : AlbumJob)
    → ((k : ℕ) → any_id ids k ≡ any_id others k)
    → unwanted ids j ≡ unwanted others j
unwanted_same ids others j same =
    ap (λ b. not (state_in j.state guarded_states) && (from_lidarr j && b)) (go j.lidarr_album_id)
  where
    go : (album : Option ℕ) → album_not_in ids album ≡ album_not_in others album
    go none = refl
    go (some k) = ap not (same k)

put_release-length :
    (r : WantedRelease) (acc : List WantedRelease) → (length (put_release r acc) == 0) ≡ false
unfolding put_release
put_release-length r [] = ground arith
put_release-length r (s ∷ ss) = ground arith

unique_from-length :
    (acc releases : List WantedRelease)
    → (length acc == 0) ≡ false
    → (length (unique_from acc releases) == 0) ≡ false
unfolding unique_from
unique_from-length acc [] h = h
unique_from-length acc (r ∷ rs) h =
    unique_from-length (put_release r acc) rs (put_release-length r acc)

nonempty_sync :
    (db : Db) (r : WantedRelease) (rs : List WantedRelease) (cutoff now : ℕ)
    → sync_wanted_jobs db (r ∷ rs) cutoff now ≡ sync_unique db (unique_releases (r ∷ rs)) cutoff now
unfolding sync_wanted_jobs unique_releases unique_from
nonempty_sync db r rs cutoff now =
    rw (unique_from-length (put_release r []) rs (put_release-length r [])) refl

pub start_over-jobs :
    (p : AlbumJob → Bool) (now : ℕ) (db : Db)
    → (start_over p now db).jobs ≡ update p (clean_slate AlbumJobState.wanted now) db.jobs
unfolding start_over delete_rejections delete_children delete_candidates delete_transfers
    update_jobs
start_over-jobs p now db = refl

-- An album of the snapshot is not outside it.
revivable_wanted :
    (ids : List ℕ) (cutoff : ℕ) (j : AlbumJob)
    → revivable ids cutoff j ≡ true
    → album_not_in ids j.lidarr_album_id ≡ false
revivable_wanted ids cutoff j h =
    go j.lidarr_album_id
      (&&-parts _ (from_lidarr j)
        (&&-parts (failed_before j.failed_at cutoff) _
          (&&-parts (state_eq j.state AlbumJobState.failed) _ h).1).1).0
  where
    go : (album : Option ℕ) → album_in ids album ≡ true → album_not_in ids album ≡ false
    go none e = refl
    go (some k) e = rw e refl

no_unwanted :
    (db : Db) (releases : List WantedRelease) (cutoff now : ℕ)
    → exists (unwanted (ids_of releases)) (sync_unique db releases cutoff now).0.jobs ≡ false
unfolding sync_unique cancel_jobs_not_wanted update_jobs
no_unwanted db releases cutoff now =
    let ids = ids_of releases in
    let refreshed =
      refresh_metadata releases now
        (start_over (rewanted ids) now (insert_wanted releases now db)) in
    let kept = (cancel_jobs_not_wanted refreshed ids now).0 in
    subst (λ js. exists (unwanted ids) js ≡ false)
      (sym (start_over-jobs (revivable ids cutoff) now kept))
      (exists-update_le (unwanted ids) (revivable ids cutoff) (clean_slate AlbumJobState.wanted now)
        kept.jobs (λ j h. let outside = revivable_wanted ids cutoff j h in ground (arith, outside))
        (exists-update_none (unwanted ids) (unwanted ids) (set_cancelled now) refreshed.jobs
          (λ j h. ground arith) (λ j h. h)))

-- After SyncWantedJobs with a snapshot that is not empty, every Lidarr job of an album outside
-- the snapshot is DONE, CANCELLED or FAILED.
pub sync_wanted_jobs_lem :
    (db : Db) (r : WantedRelease) (rs : List WantedRelease) (cutoff now : ℕ)
    → exists (unwanted (ids_of (r ∷ rs))) (sync_wanted_jobs db (r ∷ rs) cutoff now).0.jobs ≡ false
sync_wanted_jobs_lem db r rs cutoff now = rw (nonempty_sync db r rs cutoff now) (
    sym (
      exists_same _ _ (sync_unique db (unique_releases (r ∷ rs)) cutoff now).0.jobs (λ j.
        unwanted_same (ids_of (unique_releases (r ∷ rs))) (ids_of (r ∷ rs)) j
          (any_id-unique_releases (r ∷ rs))))
    ∙ no_unwanted db (unique_releases (r ∷ rs)) cutoff now)

insert_wanted-has_album :
    (releases : List WantedRelease) (now : ℕ) (db : Db) (k : ℕ)
    → (any_id (ids_of releases) k || exists (has_album k) db.jobs) ≡ true
    → exists (has_album k) (insert_wanted releases now db).jobs ≡ true
unfolding insert_wanted any_id
insert_wanted-has_album [] now db k h = h
insert_wanted-has_album (r ∷ rs) now db k h = elim (Bool-cases (exists (has_album r.id) db.jobs)) [
  | inl e ↦
      rw (e, insert_wanted)
        (insert_wanted-has_album rs now db k (elim (Bool-cases (r.id == k)) [
          | inl same ↦
              let there : exists (has_album k) db.jobs ≡ true =
                subst (λ i. exists (has_album i) db.jobs ≡ true) ((==_iff r.id k).0 same) e in
              ground arith
          | inr other ↦ ground arith
        ]))
  | inr e ↦
      rw (e, insert_wanted)
        (insert_wanted-has_album rs now
          (record db {
            jobs = db.jobs ++ wanted_job db.next_job r now ∷ [];
            next_job = suc db.next_job;
          })
          k
          (let split = exists-append (has_album k) db.jobs (wanted_job db.next_job r now ∷ []) in
            unfold exists in ground arith))
]

start_over-has_album :
    (p : AlbumJob → Bool) (now : ℕ) (db : Db) (k : ℕ)
    → exists (has_album k) (start_over p now db).jobs ≡ exists (has_album k) db.jobs
start_over-has_album p now db k =
    ap (exists (has_album k)) (start_over-jobs p now db)
    ∙ exists-update (has_album k) p (clean_slate AlbumJobState.wanted now) db.jobs (λ j. refl)

refresh_from-has_album :
    (p : AlbumJob → Bool) (f : AlbumJob → AlbumJob) (releases : List WantedRelease) (db : Db)
    (k : ℕ)
    → ((j : AlbumJob) → has_album k (f j) ≡ has_album k j)
    → exists (has_album k) (refresh_from p f releases db).jobs ≡ exists (has_album k) db.jobs
unfolding refresh_from update_jobs
refresh_from-has_album p f [] db k same = refl
refresh_from-has_album p f (r ∷ rs) db k same =
    refresh_from-has_album p f rs
      (update_jobs (λ j. has_album r.id j && p j) (λ j. f (set_metadata r j)) db) k same
    ∙ exists-update (has_album k) (λ j. has_album r.id j && p j) (λ j. f (set_metadata r j)) db.jobs
        (λ j. same (set_metadata r j))

refresh_metadata-has_album :
    (releases : List WantedRelease) (now : ℕ) (db : Db) (k : ℕ)
    → exists (has_album k) (refresh_metadata releases now db).jobs ≡ exists (has_album k) db.jobs
unfolding refresh_metadata
refresh_metadata-has_album releases now db k =
    let full =
      refresh_from (λ j. state_eq j.state AlbumJobState.wanted) (λ j. record j { updated_at = now })
        releases db in
    refresh_from-has_album (λ j. not (state_eq j.state AlbumJobState.wanted) && lacks_metadata j)
      (λ j. j) releases full k (λ j. refl)
    ∙ refresh_from-has_album (λ j. state_eq j.state AlbumJobState.wanted)
        (λ j. record j { updated_at = now }) releases db k (λ j. refl)

sync_unique-has_album :
    (db : Db) (releases : List WantedRelease) (cutoff now k : ℕ)
    → any_id (ids_of releases) k ≡ true
    → exists (has_album k) (sync_unique db releases cutoff now).0.jobs ≡ true
unfolding sync_unique cancel_jobs_not_wanted update_jobs
sync_unique-has_album db releases cutoff now k h =
    let ids = ids_of releases in
    let inserted = insert_wanted releases now db in
    let refreshed = refresh_metadata releases now (start_over (rewanted ids) now inserted) in
    let kept = (cancel_jobs_not_wanted refreshed ids now).0 in
    start_over-has_album (revivable ids cutoff) now kept k
    ∙ exists-update (has_album k) (unwanted ids) (set_cancelled now) refreshed.jobs (λ j. refl)
    ∙ refresh_metadata-has_album releases now (start_over (rewanted ids) now inserted) k
    ∙ start_over-has_album (rewanted ids) now inserted k
    ∙ insert_wanted-has_album releases now db k (rw h refl)

-- After SyncWantedJobs, every album of the snapshot has a Lidarr job.
pub sync_wanted_jobs-has_album :
    (db : Db) (releases : List WantedRelease) (cutoff now k : ℕ)
    → any_id (ids_of releases) k ≡ true
    → exists (has_album k) (sync_wanted_jobs db releases cutoff now).0.jobs ≡ true
unfolding any_id
sync_wanted_jobs-has_album db [] cutoff now k h = cc
sync_wanted_jobs-has_album db (r ∷ rs) cutoff now k h = rw (nonempty_sync db r rs cutoff now) (
    sync_unique-has_album db (unique_releases (r ∷ rs)) cutoff now k
      (any_id-unique_releases (r ∷ rs) k ∙ h))
