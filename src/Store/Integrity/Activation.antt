-- ===== src/Store/Integrity/Activation.antt =====
-- Activation, manual creation, retries, deletion and the wanted sync keep the referential integrity.
use slusk.Prelude.{
  ℕ, suc, ◌+◌, ◌≡◌, ◌∙◌, refl, Bool, true, ◌==◌, some, List, [], ◌∷◌, ◌++◌, arith, All, Bool-cases,
  Option-cases, inl, inr, All-append, All-mono, length, leb,
}
use slusk.Prelude.Text.{Text}
use slusk.Core.State.{AlbumJobState}
use slusk.Core.Models.{Candidate, CandidateFile, Transfer}
use slusk.Store.Table.{exists, count, find_row, exists-append}
use slusk.Store.Db.{Db, job_is, job_in, candidate_is, owns_live, has_key}
use slusk.Store.Activation.{
  Inserted, inserted, remote_busy, duplicate_key, insert_pending, activate_inserted,
  activate_locked, activate_candidate_with_transfers, write_activation, eligible, valid_files,
  create_inserted, create_manual_job, manual_candidate, manual_job, active_states,
}
use slusk.Store.Jobs.{count_jobs_in_states}
use slusk.Store.Integrity.{Integrity, update_jobs-Integrity, update_candidates-Integrity}
use slusk.Store.Integrity.Candidates.{
  append_candidates-Integrity, append_jobs-Integrity, with_transfers,
}

-- What an INSERT leaves in the table belongs to candidates that are there.
abbrev InsertedOwned : List Candidate → Inserted → Type 0
InsertedOwned cs (inserted rows) = All (λ t. exists (candidate_is t.candidate_id) cs ≡ true) rows
InsertedOwned cs remote_busy = Unit
InsertedOwned cs duplicate_key = Unit

insert_pending-owned :
    (id candidate : ℕ) (username : Text) (files : List CandidateFile) (deadline now : ℕ)
    (rows : List Transfer) (cs : List Candidate)
    → exists (candidate_is candidate) cs ≡ true
    → All (λ t. exists (candidate_is t.candidate_id) cs ≡ true) rows
    → InsertedOwned cs (insert_pending id candidate username files deadline now rows)
unfolding insert_pending
insert_pending-owned id candidate username [] deadline now rows cs here owned = owned
insert_pending-owned id candidate username (f ∷ fs) deadline now rows cs here owned =
    elim (Bool-cases (exists (has_key candidate username f.filename) rows)) [
      | inl e ↦ rw e tt
      | inr e ↦ rw e (elim (Bool-cases (exists (owns_live username f.filename) rows)) [
        | inl g ↦ rw g tt
        | inr g ↦ rw g (
            insert_pending-owned (suc id) candidate username fs deadline now (rows ++ _) cs here
              (All-append _ rows _ owned (here, tt)))
      ])
    ]

activate_inserted-Integrity :
    (db : Db) (candidate job : ℕ) (files : List CandidateFile) (release_date : Text) (r : Inserted)
    (now : ℕ)
    → InsertedOwned db.candidates r
    → Integrity db
    → Integrity (activate_inserted db candidate job files release_date r now).0
unfolding activate_inserted write_activation
activate_inserted-Integrity db candidate job files release_date remote_busy now owned i = i
activate_inserted-Integrity db candidate job files release_date duplicate_key now owned i = i
activate_inserted-Integrity db candidate job files release_date (inserted rows) now owned i =
    elim (Bool-cases (count (eligible candidate job) db.candidates == 1)) [
      | inl e ↦ rw e (elim (Bool-cases (count (job_in job AlbumJobState.selecting) db.jobs == 1)) [
        | inl f ↦ rw f (
            update_jobs-Integrity _ (λ j. refl) _ _
              (update_candidates-Integrity _ (λ c. refl) (λ c. refl) _ _
                (with_transfers db rows (db.next_transfer + length files) owned i)))
        | inr f ↦ rw f i
      ])
      | inr e ↦ rw e i
    ]

activate_locked-Integrity :
    (db : Db) (c : Candidate) (job : ℕ) (release_date : Text) (max_active deadline now : ℕ)
    → exists (candidate_is c.id) db.candidates ≡ true
    → Integrity db
    → Integrity (activate_locked db c job release_date max_active deadline now).0
unfolding activate_locked
activate_locked-Integrity db c job release_date max_active deadline now here i =
    elim (Bool-cases (length c.files == 0)) [
      | inl e ↦ rw e i
      | inr e ↦ rw e (elim (Bool-cases (valid_files [] c.files)) [
        | inl f ↦ rw f (elim (Bool-cases (leb max_active (count_jobs_in_states db active_states))) [
          | inl g ↦ rw g i
          | inr g ↦ rw g (
              activate_inserted-Integrity db c.id job c.files release_date _ now
                (insert_pending-owned db.next_transfer c.id c.username c.files deadline now
                  db.transfers db.candidates here i.transfers_owned)
                i)
        ])
        | inr f ↦ rw f i
      ])
    ]

-- The row that a SELECT returns is in its table.
pub found_id :
    (q : Candidate → Bool) (cs : List Candidate) (c : Candidate)
    → find_row q cs ≡ some c
    → exists (candidate_is c.id) cs ≡ true
unfolding find_row exists
found_id q [] c h = cc
found_id q (d ∷ ds) c h = ground (arith, found_id q ds c)

pub activate_candidate_with_transfers-Integrity :
    (db : Db) (candidate job max_active deadline now : ℕ)
    → Integrity db
    → Integrity (activate_candidate_with_transfers db candidate job max_active deadline now).0
unfolding activate_candidate_with_transfers
activate_candidate_with_transfers-Integrity db candidate job max_active deadline now i =
    elim (Option-cases (find_row (eligible candidate job) db.candidates)) [
      | inl e ↦ rw (e, activate_candidate_with_transfers) i
      | inr (c, e) ↦
          rw (e, activate_candidate_with_transfers)
            (elim (Option-cases (find_row (job_in job AlbumJobState.selecting) db.jobs)) [
              | inl f ↦ rw (f, activate_candidate_with_transfers) i
              | inr (j, f) ↦
                  rw (f, activate_candidate_with_transfers)
                    (activate_locked-Integrity db c job j.release_date max_active deadline now
                      (found_id _ db.candidates c e) i)
            ])
    ]

create_inserted-Integrity :
    (db : Db) (title artist_name peer album_mbid : Text) (files : List CandidateFile) (r : Inserted)
    (now : ℕ)
    → InsertedOwned
        (db.candidates ++ manual_candidate db.next_candidate db.next_job peer files now ∷ [])
        r
    → Integrity db
    → Integrity (create_inserted db title artist_name peer album_mbid files r now).0
unfolding create_inserted
create_inserted-Integrity db title artist_name peer album_mbid files remote_busy now owned i = i
create_inserted-Integrity db title artist_name peer album_mbid files duplicate_key now owned i = i
create_inserted-Integrity db title artist_name peer album_mbid files (inserted rows) now owned i =
    with_transfers _ rows (db.next_transfer + length files) owned (
      append_candidates-Integrity _
        (manual_candidate db.next_candidate db.next_job peer files now ∷ []) (suc db.next_candidate)
        (omega arith) (last_job, tt) ((omega arith, omega arith), tt) (unfold exists in refl, tt)
        (append_jobs-Integrity db (manual_job db.next_job title artist_name album_mbid now ∷ [])
          (suc db.next_job) (omega arith) (omega arith, tt) i))
  where
    last_job :
        exists
          (job_is db.next_job)
          (db.jobs ++ manual_job db.next_job title artist_name album_mbid now ∷ [])
        ≡ true
    last_job =
        exists-append (job_is db.next_job) db.jobs
          (manual_job db.next_job title artist_name album_mbid now ∷ [])
        ∙ (unfold exists in ground arith)

pub create_manual_job-Integrity :
    (db : Db) (title artist_name peer album_mbid : Text) (files : List CandidateFile)
    (deadline now : ℕ)
    → Integrity db
    → Integrity (create_manual_job db title artist_name peer album_mbid files deadline now).0
unfolding create_manual_job
create_manual_job-Integrity db title artist_name peer album_mbid files deadline now i =
    create_inserted-Integrity db title artist_name peer album_mbid files _ now
      (insert_pending-owned db.next_transfer db.next_candidate peer files deadline now db.transfers
        (db.candidates ++ manual_candidate db.next_candidate db.next_job peer files now ∷ [])
        (exists-append (candidate_is db.next_candidate) db.candidates
            (manual_candidate db.next_candidate db.next_job peer files now ∷ [])
          ∙ (unfold exists in ground arith))
        (All-mono _ _ db.transfers
          (λ t h.
            exists-append (candidate_is t.candidate_id) db.candidates
              (manual_candidate db.next_candidate db.next_job peer files now ∷ [])
            ∙ rw h)
          i.transfers_owned))
      i
