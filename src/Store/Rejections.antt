-- ===== src/Store/Rejections.antt =====
-- internal/store/rejections.go: the candidates that a job has already tried and failed.
pub mod Bars
use slusk.Prelude.{
  ℕ, ◌+◌, ◌-◌, ◌*◌, ◌%◌, ◌^◌, Bool, true, false, ◌&&◌, ◌||◌, ◌==◌, Option, none, some, List, [],
  ◌∷◌, ◌++◌, ltb, leb, if◌then◌else◌,
}
use slusk.Prelude.Text.{Text, text_eq, is_empty}
use slusk.Core.Models.{Candidate, CandidateFile, CandidateRejection}
use slusk.Matcher.Path.{release_dir}
use slusk.Store.Table.{update, select, count, exists, find_row}
use slusk.Store.Db.{Db, candidate_is}

-- An int64 product, as its bit pattern.
abbrev pub int64_mul : ℕ → ℕ → ℕ
int64_mul a b = (a * b) % 2 ^ 64

-- The int64 patterns with the sign bit.
abbrev pub int64_negative : ℕ → Bool
int64_negative n = leb (2 ^ 63) n

pub record CooldownPolicy : Type 0 where
  pub base : ℕ
  pub cap : ℕ

-- const maxExponent
abbrev pub max_exponent : ℕ
max_exponent = 32

-- cooldownFor. The subtraction stops at 0, as the source's `if exp < 0 { exp = 0 }` does.
unfoldable pub cooldown_for : ℕ → ℕ → ℕ → ℕ
cooldown_for attempts base max =
    let exp = (if ltb max_exponent (attempts - 1) then max_exponent else attempts - 1) in
    let d = int64_mul base (2 ^ exp) in if ltb max d || int64_negative d then max else d

-- A rejection that bars its pair at this time: retry_after IS NULL OR retry_after > $2
abbrev pub bars : Option ℕ → ℕ → Bool
bars none now = true
bars (some t) now = ltb now t

-- RejectedCandidates
unfoldable pub rejected_candidates : Db → ℕ → ℕ → List CandidateRejection
rejected_candidates db job now =
    select (λ r. r.album_job_id == job && bars r.retry_after now) db.rejections

-- CountRejectionsByReason
unfoldable pub count_rejections_by_reason : Db → ℕ → Text → ℕ
count_rejections_by_reason db job reason =
    count (λ r. r.album_job_id == job && text_eq r.reason reason) db.rejections

-- The primary key of candidate_rejections.
abbrev pub rejection_is : ℕ → Text → Text → CandidateRejection → Bool
rejection_is job username dir r =
    r.album_job_id == job && (text_eq r.username username && text_eq r.release_dir dir)

-- files->0->>'filename'; NULL and '' are one case for every reader.
abbrev pub first_filename : List CandidateFile → Text
first_filename [] = []
first_filename (f ∷ fs) = f.filename

-- INSERT … ON CONFLICT (album_job_id, username, release_dir) DO UPDATE
unfoldable pub upsert_rejection :
    ℕ → Text → Text → Text → ℕ → List CandidateRejection → List CandidateRejection
upsert_rejection job username dir reason now rows =
    if exists (rejection_is job username dir) rows
    then update (rejection_is job username dir)
        (λ r. record r { reason = reason; created_at = now; attempts = r.attempts + 1 }) rows
    else rows
      ++ record {
        album_job_id = job;
        username = username;
        release_dir = dir;
        reason = reason;
        created_at = now;
        retry_after = none;
        attempts = 1;
      }
        ∷ []

-- nil is SQL's NULL, which is permanent.
abbrev pub retry_after_of : Option CooldownPolicy → ℕ → ℕ → Option ℕ
retry_after_of none attempts now = none
retry_after_of (some policy) attempts now =
    some (now + cooldown_for attempts policy.base policy.cap)

-- RETURNING attempts
abbrev pub attempts_of : Option CandidateRejection → ℕ
attempts_of none = 0
attempts_of (some r) = r.attempts

-- The part of recordRejectionTx after the candidate is read.
unfoldable pub record_rejection_row : Db → ℕ → Text → Text → Text → Option CooldownPolicy → ℕ → Db
record_rejection_row db job username filename reason cooldown now =
    let dir = release_dir filename in
    let rows = upsert_rejection job username dir reason now db.rejections in
    let attempts = attempts_of (find_row (rejection_is job username dir) rows) in
    if is_empty filename then db else record db {
      rejections =
          update (rejection_is job username dir)
            (λ r. record r { retry_after = retry_after_of cooldown attempts now }) rows;
    }

-- recordRejectionTx. The candidate was written in the same transaction, so it is there; the source
-- rolls back where it is not.
unfoldable pub record_rejection_tx : Db → ℕ → ℕ → Text → Option CooldownPolicy → ℕ → Option Db
unfolding record_rejection_row
record_rejection_tx db candidate job reason cooldown now =
    elim (find_row (candidate_is candidate) db.candidates) [
      | none ↦ none
      | some c ↦
          some (record_rejection_row db job c.username (first_filename c.files) reason cooldown now)
    ]
