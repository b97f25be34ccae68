-- ===== src/Store/Integrity.antt =====
-- Referential integrity of the tables: what the foreign keys, the primary keys and the identity
-- columns of internal/store/migrations promise, and that each statement keeps it.
pub mod Candidates
pub mod Activation
pub mod Retry
pub mod Transfers
pub mod Wanted
pub mod History
use slusk.Prelude.{
  ℕ, suc, ◌+◌, ◌<◌, ◌≤◌, ◌≡◌, ◌∙◌, ap, refl, Bool, true, false, ◌&&◌, ◌==◌, List, [], ◌∷◌, ◌++◌,
  arith, All, if◌then◌else◌, Bool-cases, ◌⊎◌, inl, inr, All-append, All-mono,
}
use slusk.Core.Models.{AlbumJob, Candidate, Transfer, CandidateRejection, DownloadFolder}
use slusk.Store.Table.{
  update, delete, exists, All-update, All-delete, All-delete_self, All-and, exists-update,
  exists-append, exists-delete_apart, exists-delete,
}
use slusk.Store.Db.{
  Db, job_is, candidate_is, candidate_of, transfer_of, update_jobs, update_candidates,
  update_transfers, delete_transfers, delete_candidates, delete_children, delete_rejections,
}

-- No two candidates have one id.
abbrev pub UniqueIds : List Candidate → Type 0
UniqueIds [] = Unit
UniqueIds (c ∷ cs) = (exists (candidate_is c.id) cs ≡ false) × UniqueIds cs

pub record Integrity (db : Db) : Type 0 where
  pub candidates_owned : All (λ c. exists (job_is c.album_job_id) db.jobs ≡ true) db.candidates
  pub transfers_owned :
      All (λ t. exists (candidate_is t.candidate_id) db.candidates ≡ true) db.transfers
  pub rejections_owned : All (λ r. exists (job_is r.album_job_id) db.jobs ≡ true) db.rejections
  pub folders_owned : All (λ f. exists (job_is f.album_job_id) db.jobs ≡ true) db.folders
  pub jobs_below : All (λ j. j.id < db.next_job) db.jobs
  pub candidates_below : All (λ c. c.id < db.next_candidate) db.candidates
  pub unique_candidates : UniqueIds db.candidates

module _ (f : AlbumJob → AlbumJob) (same : (j : AlbumJob) → (f j).id ≡ j.id) where
  job_is_same : (k : ℕ) (j : AlbumJob) → job_is k (f j) ≡ job_is k j
  job_is_same k j = ap (λ i. i == k) (same j)

  pub update_jobs-Integrity :
      (p : AlbumJob → Bool) (db : Db) → Integrity db → Integrity (update_jobs p f db)
  unfolding update_jobs
  update_jobs-Integrity p db i = record {
    candidates_owned =
        All-mono _ _ db.candidates (λ c h. still c.album_job_id h) i.candidates_owned;
    transfers_owned = i.transfers_owned;
    rejections_owned =
        All-mono _ _ db.rejections (λ r h. still r.album_job_id h) i.rejections_owned;
    folders_owned = All-mono _ _ db.folders (λ r h. still r.album_job_id h) i.folders_owned;
    jobs_below =
        All-update (λ j. j.id < db.next_job) p f db.jobs (λ j _ h. omega (arith, same j))
          i.jobs_below;
    candidates_below = i.candidates_below;
    unique_candidates = i.unique_candidates;
  }
    where
      still :
          (k : ℕ) → exists (job_is k) db.jobs ≡ true → exists (job_is k) (update p f db.jobs) ≡ true
      still k h = exists-update (job_is k) p f db.jobs (job_is_same k) ∙ h

unique_update :
    (p : Candidate → Bool) (f : Candidate → Candidate) (cs : List Candidate)
    → ((c : Candidate) → (f c).id ≡ c.id)
    → UniqueIds cs
    → UniqueIds (update p f cs)
unfolding update
unique_update p f [] same u = tt
unique_update p f (c ∷ cs) same u = (
  rw (kept_id (Bool-cases (p c)))
      (exists-update (candidate_is c.id) p f cs (λ d. ap (λ i. i == c.id) (same d)) ∙ u.0),
  unique_update p f cs same u.1,
)
  where
    kept_id : (p c ≡ true) ⊎ (p c ≡ false) → (if p c then f c else c).id ≡ c.id
    kept_id (inl e) = rw e (same c)
    kept_id (inr e) = rw e

module _ (f : Candidate → Candidate) (same_id : (c : Candidate) → (f c).id ≡ c.id) where
  pub update_candidates-Integrity :
      ((c : Candidate) → (f c).album_job_id ≡ c.album_job_id)
      → (p : Candidate → Bool) (db : Db) → Integrity db
      → Integrity (update_candidates p f db)
  unfolding update_candidates
  update_candidates-Integrity same_job p db i = record {
    candidates_owned =
        All-update (λ c. exists (job_is c.album_job_id) db.jobs ≡ true) p f db.candidates
          (λ c _ h. rw (same_job c) h) i.candidates_owned;
    transfers_owned = All-mono _ _ db.transfers (λ t h. still t.candidate_id h) i.transfers_owned;
    rejections_owned = i.rejections_owned;
    folders_owned = i.folders_owned;
    jobs_below = i.jobs_below;
    candidates_below =
        All-update (λ c. c.id < db.next_candidate) p f db.candidates
          (λ c _ h. omega (arith, same_id c)) i.candidates_below;
    unique_candidates = unique_update p f db.candidates same_id i.unique_candidates;
  }
    where
      still :
          (k : ℕ)
          → exists (candidate_is k) db.candidates ≡ true
          → exists (candidate_is k) (update p f db.candidates) ≡ true
      still k h =
          exists-update (candidate_is k) p f db.candidates (λ c. ap (λ i. i == k) (same_id c)) ∙ h

pub update_transfers-Integrity :
    (f : Transfer → Transfer)
    → ((t : Transfer) → (f t).candidate_id ≡ t.candidate_id)
    → (p : Transfer → Bool) (db : Db) → Integrity db
    → Integrity (update_transfers p f db)
unfolding update_transfers
update_transfers-Integrity f same p db i = record {
  candidates_owned = i.candidates_owned;
  transfers_owned =
      All-update (λ t. exists (candidate_is t.candidate_id) db.candidates ≡ true) p f db.transfers
        (λ t _ h. rw (same t) h) i.transfers_owned;
  rejections_owned = i.rejections_owned;
  folders_owned = i.folders_owned;
  jobs_below = i.jobs_below;
  candidates_below = i.candidates_below;
  unique_candidates = i.unique_candidates;
}

pub delete_transfers-Integrity :
    (jobs : ℕ → Bool) (db : Db) → Integrity db → Integrity (delete_transfers jobs db)
unfolding delete_transfers
delete_transfers-Integrity jobs db i = record {
  candidates_owned = i.candidates_owned;
  transfers_owned = All-delete _ (transfer_of jobs db.candidates) db.transfers i.transfers_owned;
  rejections_owned = i.rejections_owned;
  folders_owned = i.folders_owned;
  jobs_below = i.jobs_below;
  candidates_below = i.candidates_below;
  unique_candidates = i.unique_candidates;
}

-- A test that a table fails, it fails after a DELETE.
exists-delete-false :
    (q p : Candidate → Bool) (cs : List Candidate)
    → exists q cs ≡ false
    → exists q (delete p cs) ≡ false
unfolding exists delete
exists-delete-false q p [] h = h
exists-delete-false q p (c ∷ cs) h = ground (arith, exists-delete-false q p cs)

unique_delete :
    (p : Candidate → Bool) (cs : List Candidate) → UniqueIds cs → UniqueIds (delete p cs)
unfolding delete
unique_delete p [] u = tt
unique_delete p (c ∷ cs) u = elim (Bool-cases (p c)) [
  | inl e ↦ rw (e, delete) (unique_delete p cs u.1)
  | inr e ↦
      rw (e, delete) (exists-delete-false (candidate_is c.id) p cs u.0, unique_delete p cs u.1)
]

pub delete_children-Integrity :
    (jobs : ℕ → Bool) (db : Db) → Integrity db → Integrity (delete_children jobs db)
unfolding delete_children delete_candidates delete_transfers transfer_of
delete_children-Integrity jobs db i = record {
  candidates_owned = All-delete _ (candidate_of jobs) db.candidates i.candidates_owned;
  transfers_owned =
      All-and (λ t. exists (candidate_is t.candidate_id) db.candidates ≡ true)
        (λ t. transfer_of jobs db.candidates t ≡ false)
        (λ t.
          exists (candidate_is t.candidate_id) (delete (candidate_of jobs) db.candidates) ≡ true)
        _
        (λ t here kept.
          exists-delete_apart (candidate_is t.candidate_id) (candidate_of jobs) db.candidates here
            kept)
        (All-delete _ (transfer_of jobs db.candidates) db.transfers i.transfers_owned)
        (All-delete_self (transfer_of jobs db.candidates) db.transfers);
  rejections_owned = i.rejections_owned;
  folders_owned = i.folders_owned;
  jobs_below = i.jobs_below;
  candidates_below = All-delete _ (candidate_of jobs) db.candidates i.candidates_below;
  unique_candidates = unique_delete (candidate_of jobs) db.candidates i.unique_candidates;
}

-- The rejection history keeps its foreign key whatever rows of it go or change.
pub with_rejections :
    (db : Db) (rows : List CandidateRejection)
    → All (λ r. exists (job_is r.album_job_id) db.jobs ≡ true) rows
    → Integrity db
    → Integrity (record db { rejections = rows })
with_rejections db rows owned i = record {
  candidates_owned = i.candidates_owned;
  transfers_owned = i.transfers_owned;
  rejections_owned = owned;
  folders_owned = i.folders_owned;
  jobs_below = i.jobs_below;
  candidates_below = i.candidates_below;
  unique_candidates = i.unique_candidates;
}

pub with_folders :
    (db : Db) (rows : List DownloadFolder) (next : ℕ)
    → All (λ r. exists (job_is r.album_job_id) db.jobs ≡ true) rows
    → Integrity db
    → Integrity (record db { folders = rows; next_folder = next })
with_folders db rows next owned i = record {
  candidates_owned = i.candidates_owned;
  transfers_owned = i.transfers_owned;
  rejections_owned = i.rejections_owned;
  folders_owned = owned;
  jobs_below = i.jobs_below;
  candidates_below = i.candidates_below;
  unique_candidates = i.unique_candidates;
}

pub delete_rejections-Integrity :
    (jobs : ℕ → Bool) (db : Db) → Integrity db → Integrity (delete_rejections jobs db)
unfolding delete_rejections
delete_rejections-Integrity jobs db i =
    with_rejections db _ (All-delete _ (λ r. jobs r.album_job_id) db.rejections i.rejections_owned)
      i
