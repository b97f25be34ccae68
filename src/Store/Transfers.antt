-- ===== src/Store/Transfers.antt =====
-- internal/store/jobs.go: the write-ahead enqueue of one transfer, its progress, and the
-- cancellation barrier that both serialise with.
pub mod WriteAhead
use slusk.Prelude.{
  ℕ, suc, ◌+◌, Bool, true, false, not, ◌&&◌, ◌==◌, Option, none, some, List, [], ◌∷◌, ◌++◌, ltb,
  if◌then◌else◌,
}
use slusk.Prelude.Int.{ℤ, pos, ltb_ℤ}
use slusk.Prelude.Text.{Text}
use slusk.Core.State.{AlbumJobState, TransferState, state_eq, transfer_state_eq, is_live}
use slusk.Core.Models.{Transfer}
use slusk.Store.Table.{count, exists, find_row, select}
use slusk.Store.Db.{
  Db, job_is, candidate_is, update_jobs, update_transfers, transfer_of, owns_live, has_key,
}
use slusk.Store.Retry.{only}

-- SELECT j.state FROM album_jobs j JOIN candidates c … WHERE c.id = $1
unfoldable pub owner_state : Db → ℕ → Option AlbumJobState
owner_state db candidate = elim (find_row (candidate_is candidate) db.candidates) [
  | none ↦ none
  | some c ↦ elim (find_row (job_is c.album_job_id) db.jobs) [ none ↦ none | some j ↦ some j.state ]
]

-- Behind the barrier: no such job, or a CANCELLED one.
abbrev pub barred : Option AlbumJobState → Bool
barred none = true
barred (some s) = state_eq s AlbumJobState.cancelled

pub data Intent : Type 0 where
  recorded : ℕ → Intent
  refused : Intent
  busy : Intent

abbrev pub queued_transfer : ℕ → ℕ → Text → Text → ℕ → ℕ → Transfer
queued_transfer id candidate username filename deadline now = record {
  id = id;
  candidate_id = candidate;
  slskd_id = [];
  username = username;
  filename = filename;
  state = TransferState.queued;
  bytes_done = pos 0;
  bytes_total = pos 0;
  retries = 0;
  deadline = deadline;
  last_progress_at = none;
  updated_at = now;
}

-- A live row with the key of this file.
abbrev pub live_key : ℕ → Text → Text → Transfer → Bool
live_key candidate username filename t = has_key candidate username filename t && is_live t.state

-- The upsert of RecordEnqueueIntent. `busy` is the error of idx_transfers_live_remote_owner.
unfoldable pub upsert_intent : Db → ℕ → Text → Text → ℕ → ℕ → Db × Intent
upsert_intent db candidate username filename deadline now =
    elim (find_row (has_key candidate username filename) db.transfers) [
      | none ↦ if exists (owns_live username filename) db.transfers then (db, busy) else (
        record db {
          transfers =
              db.transfers
              ++ queued_transfer db.next_transfer candidate username filename deadline now ∷ [];
          next_transfer = suc db.next_transfer;
        },
        recorded db.next_transfer,
      )
      | some t ↦
          if is_live t.state
          then (
            update_transfers (live_key candidate username filename)
                (λ r. record r {
                  state = TransferState.queued;
                  deadline = deadline;
                  slskd_id = [];
                  bytes_done = pos 0;
                  updated_at = now;
                })
                db,
            recorded t.id,
          )
          else (db, refused)
    ]

-- RecordEnqueueIntent
unfoldable pub record_enqueue_intent : Db → ℕ → Text → Text → ℕ → ℕ → Db × Intent
unfolding upsert_intent owner_state
record_enqueue_intent db candidate username filename deadline now =
    if barred (owner_state db candidate)
    then (db, refused)
    else upsert_intent db candidate username filename deadline now

-- The candidate of a transfer, which joins it to its job.
unfoldable pub transfer_owner_state : Db → ℕ → Option AlbumJobState
unfolding owner_state
transfer_owner_state db transfer = elim (find_row (λ t. t.id == transfer) db.transfers) [
  | none ↦ none
  | some t ↦ owner_state db t.candidate_id
]

-- id = $3 AND state IN (the live states)
abbrev pub live_id : ℕ → Transfer → Bool
live_id transfer t = t.id == transfer && is_live t.state

-- AttachTransferID
unfoldable pub attach_transfer_id : Db → ℕ → Text → ℕ → Db × Bool
unfolding transfer_owner_state
attach_transfer_id db transfer remote_id now =
    if barred (transfer_owner_state db transfer)
    then (db, false)
    else if count (live_id transfer) db.transfers == 0
    then (db, false)
    else (
      update_transfers (live_id transfer) (λ t. record t { slskd_id = remote_id; updated_at = now })
          db,
      true,
    )

-- FindTransferByFallback
unfoldable pub find_transfer_by_fallback : Db → ℕ → Text → Text → Option Transfer
find_transfer_by_fallback db candidate username filename =
    find_row (live_key candidate username filename) db.transfers

-- EXISTS (SELECT 1 FROM candidates c JOIN album_jobs j … AND j.state != CANCELLED)
unfoldable pub uncancelled : Db → Transfer → Bool
uncancelled db t =
    exists
      (λ c.
        c.id == t.candidate_id
        && exists (λ j. j.id == c.album_job_id && not (state_eq j.state AlbumJobState.cancelled))
            db.jobs)
      db.candidates

abbrev pub stamped : TransferState → ℤ → ℕ → Transfer → Option ℕ
stamped to bytes_done now t =
    if ltb_ℤ t.bytes_done bytes_done
    then some now
    else if transfer_state_eq to TransferState.in_progress
    then elim t.last_progress_at [ none ↦ some now | some at ↦ some at ]
    else t.last_progress_at

-- UpdateTransferProgress
unfoldable pub update_transfer_progress : Db → ℕ → TransferState → ℤ → ℤ → ℕ → Db
unfolding uncancelled
update_transfer_progress db transfer to bytes_done bytes_total now =
    update_transfers (λ t. live_id transfer t && uncancelled db t)
      (λ t. record t {
        state = to;
        bytes_done = bytes_done;
        bytes_total = bytes_total;
        last_progress_at = stamped to bytes_done now t;
        updated_at = now;
      })
      db

-- RetryTransfer
unfoldable pub retry_transfer : Db → ℕ → ℕ → Db
unfolding uncancelled
retry_transfer db transfer now =
    update_transfers (λ t. live_id transfer t && uncancelled db t)
      (λ t. record t {
        state = TransferState.pending;
        retries = t.retries + 1;
        slskd_id = [];
        bytes_done = pos 0;
        last_progress_at = none;
        updated_at = now;
      })
      db

-- The sweep's states: QUEUED, IN_PROGRESS, STALLED
abbrev pub is_in_flight : TransferState → Bool
is_in_flight TransferState.pending = false
is_in_flight s = is_live s

-- TransfersPastDeadline
unfoldable pub transfers_past_deadline : Db → ℕ → List Transfer
transfers_past_deadline db now =
    select (λ t. ltb t.deadline now && is_in_flight t.state) db.transfers

-- ActiveTransfers
unfoldable pub active_transfers : Db → List Transfer
active_transfers db = select (λ t. is_in_flight t.state) db.transfers

pub data Cancellation : Type 0 where
  cancels : List Transfer → Cancellation
  unknown_job : Cancellation
  still_importing : Cancellation

-- The live transfers of the job's candidates. The table's order is that of the ids, since a row is
-- appended with the next one.
abbrev pub live_of : Db → ℕ → Transfer → Bool
live_of db job t = transfer_of (only job) db.candidates t && is_live t.state

-- The writes of prepareJobCancellation.
unfoldable pub cancel_rows : Db → ℕ → ℕ → Db
cancel_rows db job now =
    update_jobs (job_is job) (λ j. record j { state = AlbumJobState.cancelled; updated_at = now })
      (update_transfers (live_of db job)
        (λ t. record t { state = TransferState.cancelled; updated_at = now }) db)

-- prepareJobCancellation
unfoldable pub prepare_job_cancellation : Db → ℕ → ℕ → Bool → Db × Cancellation
unfolding cancel_rows
prepare_job_cancellation db job now reject_importing = elim (find_row (job_is job) db.jobs) [
  | none ↦ (db, unknown_job)
  | some j ↦
      if reject_importing && state_eq j.state AlbumJobState.importing
      then (db, still_importing)
      else (cancel_rows db job now, cancels (select (live_of db job) db.transfers))
]

-- CancelJob
unfoldable pub cancel_job : Db → ℕ → ℕ → Db × Cancellation
unfolding prepare_job_cancellation
cancel_job db job now = prepare_job_cancellation db job now false

-- PrepareDeleteJob
unfoldable pub prepare_delete_job : Db → ℕ → ℕ → Db × Cancellation
unfolding prepare_job_cancellation
prepare_delete_job db job now = prepare_job_cancellation db job now true
