-- ===== src/Store/Integrity/Candidates.antt =====
-- Every operation of the store on jobs and candidates keeps the referential integrity.
use slusk.Prelude.{
  ℕ, suc, ◌+◌, ◌<◌, ◌≤◌, ◌≡◌, ◌∙◌, ap, refl, Bool, true, false, ◌||◌, ◌==◌, Option, List, [], ◌∷◌,
  ◌++◌, arith, All, Bool-cases, Option-cases, inl, inr, All-append, All-mono, length, &&-parts,
}
use slusk.Prelude.Text.{Text, is_empty}
use slusk.Core.State.{AlbumJobState, CandidateState}
use slusk.Core.Models.{AlbumJob, Candidate, Transfer}
use slusk.Store.Table.{
  exists, count, find_row, All-update, exists-append, exists_mono, count-exists, exists-update,
}
use slusk.Store.Db.{Db, job_is, job_in, candidate_in, candidate_is, update_jobs, update_candidates}
use slusk.Store.Rejections.{
  CooldownPolicy, record_rejection_tx, record_rejection_row, upsert_rejection, rejection_is,
  first_filename,
}
use slusk.Store.Jobs.{reset_job_to_wanted}
use slusk.Store.Candidates.{
  NewCandidate, new_candidates, insert_candidates, terminal_candidate_and_advance, RejectionRule,
  commit_with, terminal_writes,
}
use slusk.Store.Integrity.{
  Integrity, UniqueIds, update_jobs-Integrity, update_candidates-Integrity,
  delete_children-Integrity, with_rejections,
}

-- A row that a guarded UPDATE changes is there.
pub affected_exists {ℓ} :
    {A : Type ℓ} (q : A → Bool) (xs : List A) → (count q xs == 0) ≡ false → exists q xs ≡ true
affected_exists q xs h = count-exists q xs (ground arith)

pub job_in_exists :
    (job : ℕ) (from : AlbumJobState) (jobs : List AlbumJob)
    → (count (job_in job from) jobs == 0) ≡ false
    → exists (job_is job) jobs ≡ true
job_in_exists job from jobs h =
    exists_mono (job_in job from) (job_is job) jobs (λ j e. (&&-parts _ _ e).0)
      (affected_exists (job_in job from) jobs h)

pub reset_job_to_wanted-Integrity :
    (db : Db) (job : ℕ) (from : AlbumJobState) (retries : ℕ) (not_before : Option ℕ) (now : ℕ)
    → Integrity db
    → Integrity (reset_job_to_wanted db job from retries not_before now)
unfolding reset_job_to_wanted
reset_job_to_wanted-Integrity db job from retries not_before now i =
    elim (Bool-cases (count (job_in job from) db.jobs == 0)) [
      | inl e ↦ rw e i
      | inr e ↦ rw e (delete_children-Integrity _ _ (update_jobs-Integrity _ (λ j. refl) _ db i))
    ]

upsert_owned :
    (db : Db) (job : ℕ) (username dir reason : Text) (now : ℕ)
    → exists (job_is job) db.jobs ≡ true
    → Integrity db
    → All
        (λ r. exists (job_is r.album_job_id) db.jobs ≡ true)
        (upsert_rejection job username dir reason now db.rejections)
unfolding upsert_rejection
upsert_owned db job username dir reason now here i =
    elim (Bool-cases (exists (rejection_is job username dir) db.rejections)) [
      | inl e ↦ rw e (
          All-update (λ r. exists (job_is r.album_job_id) db.jobs ≡ true) _ _ db.rejections
            (λ r _ h. h) i.rejections_owned)
      | inr e ↦ rw e (All-append _ db.rejections _ i.rejections_owned (here, tt))
    ]

pub record_rejection_row-Integrity :
    (db : Db) (job : ℕ) (username filename reason : Text) (cooldown : Option CooldownPolicy)
    (now : ℕ)
    → exists (job_is job) db.jobs ≡ true
    → Integrity db
    → Integrity (record_rejection_row db job username filename reason cooldown now)
unfolding record_rejection_row
record_rejection_row-Integrity db job username filename reason cooldown now here i =
    elim (Bool-cases (is_empty filename)) [
      | inl e ↦ rw e i
      | inr e ↦ rw e (
          with_rejections db _
            (All-update (λ r. exists (job_is r.album_job_id) db.jobs ≡ true) _ _ _ (λ r _ h. h)
              (upsert_owned db job username _ reason now here i))
            i)
    ]

-- The write of a job row that a test guards leaves every job where it was.
pub job_still :
    (k : ℕ) (p : AlbumJob → Bool) (f : AlbumJob → AlbumJob) (db : Db)
    → ((j : AlbumJob) → (f j).id ≡ j.id)
    → exists (job_is k) db.jobs ≡ true
    → exists (job_is k) (update_jobs p f db).jobs ≡ true
unfolding update_jobs
job_still k p f db same h =
    exists-update (job_is k) p f db.jobs (λ j. ap (λ i. i == k) (same j)) ∙ h

record_rejection_tx-Integrity :
    (db written : Db) (candidate job : ℕ) (reason : Text) (cooldown : Option CooldownPolicy)
    (now : ℕ)
    → exists (job_is job) written.jobs ≡ true
    → Integrity db
    → Integrity written
    → Integrity (commit_with db (record_rejection_tx written candidate job reason cooldown now)).0
unfolding record_rejection_tx
record_rejection_tx-Integrity db written candidate job reason cooldown now here i w =
    elim (Option-cases (find_row (candidate_is candidate) written.candidates)) [
      | inl e ↦ rw (e, record_rejection_tx) i
      | inr (c, e) ↦
          rw (e, record_rejection_tx)
            (record_rejection_row-Integrity written job c.username (first_filename c.files) reason
              cooldown now here w)
    ]

module _ (db : Db) (candidate job : ℕ) (set : Candidate → Candidate) where
  pub terminal_candidate_and_advance-Integrity :
      (from to : AlbumJobState) (reason : Text) (rule : RejectionRule) (now : ℕ)
      → ((c : Candidate) → (set c).id ≡ c.id)
      → ((c : Candidate) → (set c).album_job_id ≡ c.album_job_id)
      → Integrity db
      → Integrity (terminal_candidate_and_advance db candidate job set from to reason rule now).0
  unfolding terminal_candidate_and_advance update_candidates
  terminal_candidate_and_advance-Integrity from to reason rule now same_id same_job i =
      elim (Bool-cases (count (candidate_in candidate CandidateState.active) db.candidates == 0)) [
        | inl e ↦ rw e i
        | inr e ↦ rw e (elim (Bool-cases (count (job_in job from) db.jobs == 0)) [
          | inl f ↦ rw f i
          | inr f ↦ rw f (elim (Bool-cases rule.records) [
            | inl g ↦ rw g (
                record_rejection_tx-Integrity db _ candidate job reason rule.cooldown now
                  (job_still job _ _ _ (λ j. refl) (job_in_exists job from db.jobs f)) i both)
            | inr g ↦ rw g both
          ])
        ])
      ]
    where
      both : Integrity (terminal_writes db candidate job set from to reason now)
      both =
          update_jobs-Integrity _ (λ j. refl) _ _
            (update_candidates-Integrity set same_id same_job _ db i)

new_owned :
    (id job : ℕ) (cands : List NewCandidate) (now : ℕ) (jobs : List AlbumJob)
    → exists (job_is job) jobs ≡ true
    → All (λ c. exists (job_is c.album_job_id) jobs ≡ true) (new_candidates id job cands now)
unfolding new_candidates
new_owned id job [] now jobs h = tt
new_owned id job (c ∷ cs) now jobs h = (h, new_owned (suc id) job cs now jobs h)

new_below :
    (id job : ℕ) (cands : List NewCandidate) (now : ℕ)
    → All (λ c. (id ≤ c.id) × (c.id < id + length cands)) (new_candidates id job cands now)
unfolding new_candidates
new_below id job [] now = tt
new_below id job (c ∷ cs) now = (
  (omega arith, omega arith),
  All-mono _ _ (new_candidates (suc id) job cs now)
      (λ d h. (omega (arith, h.0), omega (arith, h.1))) (new_below (suc id) job cs now),
)

-- An id that every row lies above is none of theirs.
id_absent :
    (k : ℕ) (cs : List Candidate) → All (λ c. k < c.id) cs → exists (candidate_is k) cs ≡ false
unfolding exists
id_absent k [] h = refl
id_absent k (c ∷ cs) h = ground (arith, h.0, id_absent k cs h.1)

new_unique :
    (id job : ℕ) (cands : List NewCandidate) (now : ℕ) → UniqueIds (new_candidates id job cands now)
unfolding new_candidates
new_unique id job [] now = tt
new_unique id job (c ∷ cs) now = (
  id_absent id (new_candidates (suc id) job cs now) (
      All-mono _ _ (new_candidates (suc id) job cs now) (λ d h. h.0)
        (new_below (suc id) job cs now)),
  new_unique (suc id) job cs now,
)

-- Rows with new ids join rows with old ones.
pub unique_append :
    (n : ℕ) (xs ys : List Candidate)
    → All (λ c. c.id < n) xs
    → All (λ c. n ≤ c.id) ys
    → UniqueIds xs
    → UniqueIds ys
    → UniqueIds (xs ++ ys)
unique_append n [] ys below above ux uy = uy
unique_append n (x ∷ xs) ys below above ux uy = (
  exists-append (candidate_is x.id) xs ys
      ∙ rw ux.0 (id_absent x.id ys (All-mono _ _ ys (λ c h. omega (arith, h, below.0)) above)),
  unique_append n xs ys below.1 above ux.1 uy,
)

pub append_candidates-Integrity :
    (db : Db) (rows : List Candidate) (n : ℕ)
    → db.next_candidate ≤ n
    → All (λ c. exists (job_is c.album_job_id) db.jobs ≡ true) rows
    → All (λ c. (db.next_candidate ≤ c.id) × (c.id < n)) rows
    → UniqueIds rows
    → Integrity db
    → Integrity (record db { candidates = db.candidates ++ rows; next_candidate = n })
append_candidates-Integrity db rows n grows owned range unique i = record {
  candidates_owned = All-append _ db.candidates rows i.candidates_owned owned;
  transfers_owned =
      All-mono _ _ db.transfers
        (λ t h. exists-append (candidate_is t.candidate_id) db.candidates rows ∙ rw h)
        i.transfers_owned;
  rejections_owned = i.rejections_owned;
  folders_owned = i.folders_owned;
  jobs_below = i.jobs_below;
  candidates_below =
      All-append _ db.candidates rows
        (All-mono _ _ db.candidates (λ c h. omega (arith, h)) i.candidates_below)
        (All-mono _ _ rows (λ c h. h.1) range);
  unique_candidates =
      unique_append db.next_candidate db.candidates rows i.candidates_below
        (All-mono _ _ rows (λ c h. h.0) range) i.unique_candidates unique;
}

pub append_jobs-Integrity :
    (db : Db) (rows : List AlbumJob) (n : ℕ)
    → db.next_job ≤ n
    → All (λ j. j.id < n) rows
    → Integrity db
    → Integrity (record db { jobs = db.jobs ++ rows; next_job = n })
append_jobs-Integrity db rows n grows below i = record {
  candidates_owned = All-mono _ _ db.candidates (λ c h. still c.album_job_id h) i.candidates_owned;
  transfers_owned = i.transfers_owned;
  rejections_owned = All-mono _ _ db.rejections (λ r h. still r.album_job_id h) i.rejections_owned;
  folders_owned = All-mono _ _ db.folders (λ f h. still f.album_job_id h) i.folders_owned;
  jobs_below =
      All-append _ db.jobs rows (All-mono _ _ db.jobs (λ j h. omega (arith, h)) i.jobs_below) below;
  candidates_below = i.candidates_below;
  unique_candidates = i.unique_candidates;
}
  where
    still : (k : ℕ) → exists (job_is k) db.jobs ≡ true → exists (job_is k) (db.jobs ++ rows) ≡ true
    still k h = exists-append (job_is k) db.jobs rows ∙ rw h

pub with_transfers :
    (db : Db) (rows : List Transfer) (n : ℕ)
    → All (λ t. exists (candidate_is t.candidate_id) db.candidates ≡ true) rows
    → Integrity db
    → Integrity (record db { transfers = rows; next_transfer = n })
with_transfers db rows n owned i = record {
  candidates_owned = i.candidates_owned;
  transfers_owned = owned;
  rejections_owned = i.rejections_owned;
  folders_owned = i.folders_owned;
  jobs_below = i.jobs_below;
  candidates_below = i.candidates_below;
  unique_candidates = i.unique_candidates;
}

new_owned_if :
    (id job : ℕ) (cands : List NewCandidate) (now : ℕ) (jobs : List AlbumJob)
    → (exists (job_is job) jobs || length cands == 0) ≡ true
    → All (λ c. exists (job_is c.album_job_id) jobs ≡ true) (new_candidates id job cands now)
unfolding new_candidates
new_owned_if id job [] now jobs h = tt
new_owned_if id job (c ∷ cs) now jobs h = new_owned id job (c ∷ cs) now jobs (ground arith)

pub insert_candidates-Integrity :
    (db : Db) (job : ℕ) (cands : List NewCandidate) (now : ℕ)
    → Integrity db
    → Integrity (insert_candidates db job cands now).0
unfolding insert_candidates
insert_candidates-Integrity db job cands now i =
    elim (Bool-cases (exists (job_is job) db.jobs || length cands == 0)) [
      | inl e ↦ rw e (
          update_jobs-Integrity _ (λ j. refl) _ _
            (append_candidates-Integrity db (new_candidates db.next_candidate job cands now)
              (db.next_candidate + length cands) (omega arith)
              (new_owned_if db.next_candidate job cands now db.jobs e)
              (new_below db.next_candidate job cands now)
              (new_unique db.next_candidate job cands now) i))
      | inr e ↦ rw e i
    ]
