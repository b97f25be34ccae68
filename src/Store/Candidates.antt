-- ===== src/Store/Candidates.antt =====
-- internal/store/candidates.go: the life of one cached candidate, and its activation.
use slusk.Prelude.{
  ℕ, suc, ◌+◌, Bool, true, false, ◌&&◌, ◌||◌, ◌==◌, Option, none, some, List, [], ◌∷◌, ◌++◌, ltb,
  if◌then◌else◌, length,
}
use slusk.Prelude.Int.{ℤ, ltb_ℤ}
use slusk.Prelude.Text.{Text}
use slusk.Core.State.{AlbumJobState, CandidateState, state_eq, candidate_state_eq}
use slusk.Core.Models.{Candidate, CandidateFile}
use slusk.Store.Table.{count, exists, find_row, select, best}
use slusk.Store.Db.{Db, job_is, job_in, candidate_is, candidate_in, update_jobs, update_candidates}
use slusk.Store.Rejections.{CooldownPolicy, record_rejection_tx}

pub record NewCandidate : Type 0 where
  pub username : Text
  pub score : ℤ
  pub files : List CandidateFile
  pub last_resort : Bool

-- The rows of one InsertCandidates, with the ids that the identity column gives them.
unfoldable pub new_candidates : ℕ → ℕ → List NewCandidate → ℕ → List Candidate
new_candidates id job [] now = []
new_candidates id job (c ∷ cs) now =
    record {
      id = id;
      album_job_id = job;
      username = c.username;
      score = c.score;
      files = c.files;
      state = CandidateState.new;
      fail_reason = [];
      import_submitted_at = none;
      last_resort = c.last_resort;
      deferred_since = none;
      created_at = now;
      updated_at = now;
    }
    ∷ new_candidates (suc id) job cs now

-- InsertCandidates: false where the foreign key refuses the rows of a job that is gone.
unfoldable pub insert_candidates : Db → ℕ → List NewCandidate → ℕ → Db × Bool
insert_candidates db job cands now =
    if exists (job_is job) db.jobs || length cands == 0
    then (
      update_jobs (job_in job AlbumJobState.wanted)
          (λ j. record j { retries = 0; empty_searches = 0; not_before = none; updated_at = now })
          (record db {
            candidates = db.candidates ++ new_candidates db.next_candidate job cands now;
            next_candidate = db.next_candidate + length cands;
          }),
      true,
    )
    else (db, false)

-- ORDER BY score DESC, id ASC
abbrev pub scores_before : Candidate → Candidate → Bool
scores_before a b =
    if ltb_ℤ b.score a.score then true else if ltb_ℤ a.score b.score then false else ltb a.id b.id

-- album_job_id = $1 AND state = $2
abbrev pub of_job_in : ℕ → CandidateState → Candidate → Bool
of_job_in job s c = c.album_job_id == job && candidate_state_eq c.state s

-- NextNewCandidate
unfoldable pub next_new_candidate : Db → ℕ → Option Candidate
next_new_candidate db job =
    best scores_before (select (of_job_in job CandidateState.new) db.candidates)

-- ActiveCandidate
unfoldable pub active_candidate : Db → ℕ → Option Candidate
active_candidate db job = find_row (of_job_in job CandidateState.active) db.candidates

-- FailCandidate
unfoldable pub fail_candidate : Db → ℕ → Text → ℕ → Db
fail_candidate db candidate reason now =
    update_candidates (candidate_is candidate)
      (λ c. record c { state = CandidateState.failed; fail_reason = reason; updated_at = now }) db

-- SucceedCandidate
unfoldable pub succeed_candidate : Db → ℕ → ℕ → Db
succeed_candidate db candidate now =
    update_candidates (candidate_is candidate)
      (λ c. record c { state = CandidateState.succeeded; updated_at = now }) db

pub record RejectionRule : Type 0 where
  pub records : Bool
  pub cooldown : Option CooldownPolicy

-- CASE WHEN $1 = IMPORT_REFUSED THEN reason ELSE import_refused_reason END
abbrev pub refused_reason : AlbumJobState → Text → Text → Text
refused_reason to reason old = if state_eq to AlbumJobState.import_refused then reason else old

abbrev pub commit_with : Db → Option Db → Db × Bool
commit_with db none = (db, false)
commit_with db (some written) = (written, true)

-- The two UPDATEs of terminalCandidateAndAdvance.
abbrev pub terminal_writes :
    Db → ℕ → ℕ → (Candidate → Candidate) → AlbumJobState → AlbumJobState → Text → ℕ → Db
terminal_writes db candidate job set from to reason now =
    update_jobs (job_in job from)
      (λ j. record j {
        state = to;
        updated_at = now;
        import_refused_reason = refused_reason to reason j.import_refused_reason;
      })
      (update_candidates (candidate_in candidate CandidateState.active) set db)

-- terminalCandidateAndAdvance: both guarded writes, or neither.
unfoldable pub terminal_candidate_and_advance :
    Db
    → ℕ
    → ℕ
    → (Candidate → Candidate)
    → AlbumJobState
    → AlbumJobState
    → Text
    → RejectionRule
    → ℕ
    → Db × Bool
terminal_candidate_and_advance db candidate job set from to reason rule now =
    let written = terminal_writes db candidate job set from to reason now in
    if count (candidate_in candidate CandidateState.active) db.candidates == 0
    then (db, false)
    else if count (job_in job from) db.jobs == 0
    then (db, false)
    else if rule.records
    then commit_with db (record_rejection_tx written candidate job reason rule.cooldown now)
    else (written, true)

abbrev pub set_failed : Text → ℕ → Candidate → Candidate
set_failed reason now c = record c {
  state = CandidateState.failed;
  fail_reason = reason;
  updated_at = now;
}

abbrev pub set_succeeded : ℕ → Candidate → Candidate
set_succeeded now c = record c { state = CandidateState.succeeded; updated_at = now }

-- FailCandidateAndAdvance
unfoldable pub fail_candidate_and_advance :
    Db → ℕ → ℕ → Text → AlbumJobState → AlbumJobState → ℕ → Db × Bool
unfolding terminal_candidate_and_advance
fail_candidate_and_advance db candidate job reason from to now =
    terminal_candidate_and_advance db candidate job (set_failed reason now) from to reason
      (record { records = false; cooldown = none }) now

-- CooldownCandidateAndAdvance
unfoldable pub cooldown_candidate_and_advance :
    Db → ℕ → ℕ → Text → AlbumJobState → AlbumJobState → CooldownPolicy → ℕ → Db × Bool
unfolding terminal_candidate_and_advance
cooldown_candidate_and_advance db candidate job reason from to policy now =
    terminal_candidate_and_advance db candidate job (set_failed reason now) from to reason
      (record { records = true; cooldown = some policy }) now

-- RejectCandidateAndAdvance
unfoldable pub reject_candidate_and_advance :
    Db → ℕ → ℕ → Text → AlbumJobState → AlbumJobState → ℕ → Db × Bool
unfolding terminal_candidate_and_advance
reject_candidate_and_advance db candidate job reason from to now =
    terminal_candidate_and_advance db candidate job (set_failed reason now) from to reason
      (record { records = true; cooldown = none }) now

-- SucceedCandidateAndAdvance
unfoldable pub succeed_candidate_and_advance :
    Db → ℕ → ℕ → AlbumJobState → AlbumJobState → ℕ → Db × Bool
unfolding terminal_candidate_and_advance
succeed_candidate_and_advance db candidate job from to now =
    terminal_candidate_and_advance db candidate job (set_succeeded now) from to []
      (record { records = false; cooldown = none }) now

-- MarkImportSubmitted
unfoldable pub mark_import_submitted : Db → ℕ → ℕ → Db
mark_import_submitted db candidate now =
    update_candidates (candidate_is candidate)
      (λ c. record c { import_submitted_at = some now; updated_at = now }) db
