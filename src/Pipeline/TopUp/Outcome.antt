-- ===== src/Pipeline/TopUp/Outcome.antt =====
-- What one turn of the loop of topUpCandidate leaves of its transfer: internal/pipeline/selecting.go.
use slusk.Prelude.{
  ℕ, ◌+◌, ◌≡◌, refl, sym, subst, inl, inr, Bool, true, false, not, ◌&&◌, ◌==◌, Option, none, some,
  [], ltb, Bool-cases, Option-cases, if◌then◌else◌,
}
use slusk.Prelude.Text.{Text}
use slusk.Prelude.Int.{pos}
use slusk.Core.State.{AlbumJobState, TransferState, state_eq, is_live}
use slusk.Core.Models.{Transfer}
use slusk.Store.Table.{count, find_row, find_row-holds}
use slusk.Store.Table.Found.{find_row-update}
use slusk.Store.Db.{Db, job_is, candidate_is, update_transfers}
use slusk.Store.Transfers.{
  Intent, recorded, refused, busy, record_enqueue_intent, attach_transfer_id, retry_transfer,
  update_transfer_progress, uncancelled, owner_state, transfer_owner_state, barred, live_id,
  stamped,
}
use slusk.Pipeline.World.{World, Backend, after_enqueue, write, note, intent}
use slusk.Pipeline.TopUp.{
  TopUpSettings, Send, sent_file, not_sent, stopped, broken, enqueue_answer, intent_answer,
  send_file,
}
use slusk.Store.Transfers.WriteAhead.{recorded_eq}
use slusk.Pipeline.Downloading.Verdicts.{found_exists, count_found}

abbrev pub send_world : Send → World
send_world (sent_file w) = w
send_world (not_sent w) = w
send_world (stopped w) = w
send_world (broken w) = w

abbrev pub id_is : ℕ → Transfer → Bool
id_is tid t = t.id == tid

-- The state of the transfer after the peer's answer: a refusal is tried again while there are
-- retries left.
unfoldable pub answered_state :
    TopUpSettings → Transfer → TransferState → Option Text → TransferState
answered_state s p before (some id) = before
answered_state s p before none =
    if ltb p.retries s.max_transfer_retries then TransferState.pending else TransferState.errored

-- Its retries.
unfoldable pub answered_retries : TopUpSettings → Transfer → ℕ → Option Text → ℕ
answered_retries s p before (some id) = before
answered_retries s p before none =
    if ltb p.retries s.max_transfer_retries then before + 1 else before

-- Its remote id.
unfoldable pub answered_id : TopUpSettings → Transfer → Text → Option Text → Text
answered_id s p before (some id) = id
answered_id s p before none = if ltb p.retries s.max_transfer_retries then [] else before

-- The transfer with this id is the row, with the fields that the peer's answer calls for.
abbrev pub Answered : TopUpSettings → Transfer → ℕ → Transfer → Option Text → Db → Type 0
Answered s p tid t o db =
    (k : Transfer) × (find_row (id_is tid) db.transfers ≡ some k)
    × (k.state ≡ answered_state s p t.state o)
    × (k.retries ≡ answered_retries s p t.retries o)
    × (k.slskd_id ≡ answered_id s p t.slskd_id o)

owner_state-uncancelled :
    (db : Db) (t : Transfer)
    → barred (owner_state db t.candidate_id) ≡ false
    → uncancelled db t ≡ true
unfolding owner_state uncancelled
owner_state-uncancelled db t unbarred =
    elim (Option-cases (find_row (candidate_is t.candidate_id) db.candidates)) [
      | inl e ↦ cc (rw (e, owner_state) at unbarred)
      | inr (c, e) ↦ elim (Option-cases (find_row (job_is c.album_job_id) db.jobs)) [
        | inl f ↦ cc (rw (e, f, owner_state) at unbarred)
        | inr (j, f) ↦
            let key = find_row-holds (candidate_is t.candidate_id) db.candidates c e in
            let job_key = find_row-holds (job_is c.album_job_id) db.jobs j f in
            let going : state_eq j.state AlbumJobState.cancelled ≡ false =
              rw (e, f, owner_state) at unbarred in
            let owner =
              found_exists (job_is c.album_job_id)
                (λ x. x.id == c.album_job_id && not (state_eq x.state AlbumJobState.cancelled))
                db.jobs j f (rw (job_key, going) refl) in
            found_exists (candidate_is t.candidate_id) _ db.candidates c e (rw (key, owner) refl)
      ]
    ]

-- RetryTransfer, of a transfer.
abbrev retried : ℕ → Transfer → Transfer
retried now t = record t {
  state = TransferState.pending;
  retries = t.retries + 1;
  slskd_id = [];
  bytes_done = pos 0;
  last_progress_at = none;
  updated_at = now;
}

-- UpdateTransferProgress, of a transfer that has failed.
abbrev gave_up : ℕ → Transfer → Transfer
gave_up now t = record t {
  state = TransferState.errored;
  bytes_done = pos 0;
  bytes_total = pos 0;
  last_progress_at = stamped TransferState.errored (pos 0) now t;
  updated_at = now;
}

-- AttachTransferID, of a transfer.
abbrev with_id : Text → ℕ → Transfer → Transfer
with_id id now t = record t { slskd_id = id; updated_at = now }

attached_rows :
    (db : Db) (tid : ℕ) (id : Text) (now : ℕ)
    → barred (transfer_owner_state db tid) ≡ false
    → (count (live_id tid) db.transfers == 0) ≡ false
    → attach_transfer_id db tid id now ≡ (update_transfers (live_id tid) (with_id id now) db, true)
unfolding attach_transfer_id
attached_rows db tid id now unbarred some_row = rw (unbarred, some_row) refl

module _ (s : TopUpSettings) (p : Transfer) (tid now : ℕ) (t : Transfer) where
  enqueue_answer-Answered :
      (w : World) (o : Option Text)
      → find_row (id_is tid) w.tables.transfers ≡ some t
      → is_live t.state ≡ true
      → barred (transfer_owner_state w.tables tid) ≡ false
      → Answered s p tid t o (send_world (enqueue_answer s p tid now w o)).tables
  unfolding answered_state answered_retries answered_id retry_transfer update_transfer_progress
      update_transfers attach_transfer_id transfer_owner_state
  enqueue_answer-Answered w none found live unbarred =
      let key = find_row-holds (id_is tid) w.tables.transfers t found in
      let going =
        owner_state-uncancelled w.tables t (rw (found, transfer_owner_state) at unbarred) in
      let chosen : (live_id tid t && uncancelled w.tables t) ≡ true = rw (key, live, going) refl in
      elim (Bool-cases (ltb p.retries s.max_transfer_retries)) [
        | inl e ↦ rw e (
          retried now t,
          rw chosen at (
              find_row-update (id_is tid) (λ x. live_id tid x && uncancelled w.tables x)
                (retried now) w.tables.transfers t (λ x. refl) found),
          refl,
          refl,
          refl,
        )
        | inr e ↦ rw e (
          gave_up now t,
          rw chosen at (
              find_row-update (id_is tid) (λ x. live_id tid x && uncancelled w.tables x)
                (gave_up now) w.tables.transfers t (λ x. refl) found),
          refl,
          refl,
          refl,
        )
      ]
  enqueue_answer-Answered w (some id) found live unbarred =
      let key = find_row-holds (id_is tid) w.tables.transfers t found in
      let chosen : live_id tid t ≡ true = rw (key, live) refl in
      let some_row =
        count_found (live_id tid) w.tables.transfers
          (found_exists (id_is tid) (live_id tid) w.tables.transfers t found chosen) in
      rw (attached_rows w.tables tid id now unbarred some_row) (
        with_id id now t,
        rw chosen at (
            find_row-update (id_is tid) (live_id tid) (with_id id now) w.tables.transfers t
              (λ x. refl) found),
        refl,
        refl,
        refl,
      )

-- The world after the call of Enqueue for a recorded intent.
abbrev pub after_send : Backend → Transfer → ℕ → World → Db → World
after_send b p tid w db =
    after_enqueue b (note (intent tid p.username p.filename) (write db w)) p.username p.filename
      p.bytes_total

-- What Enqueue answers for it.
abbrev pub peer_answer : Backend → Transfer → ℕ → World → Db → Option Text
peer_answer b p tid w db =
    b.enqueue (note (intent tid p.username p.filename) (write db w)) p.username p.filename
      p.bytes_total

-- RecordEnqueueIntent of the loop's turn.
abbrev pub recorded_intent : TopUpSettings → ℕ → ℕ → Transfer → World → Db × Intent
recorded_intent s candidate now p w =
    record_enqueue_intent w.tables candidate p.username p.filename (now + s.transfer_deadline) now

intent_answer-Answered :
    (s : TopUpSettings) (b : Backend) (p : Transfer) (tid now : ℕ) (t : Transfer) (w : World)
    (r : Db × Intent)
    → r.1 ≡ recorded tid
    → find_row (id_is tid) (after_send b p tid w r.0).tables.transfers ≡ some t
    → is_live t.state ≡ true
    → barred (transfer_owner_state (after_send b p tid w r.0).tables tid) ≡ false
    → Answered s p tid t
        (peer_answer b p tid w r.0)
        (send_world (intent_answer s b p now w r)).tables
unfolding after_enqueue
intent_answer-Answered s b p tid now t w (db, busy) e found live unbarred = cc
intent_answer-Answered s b p tid now t w (db, refused) e found live unbarred = cc
intent_answer-Answered s b p tid now t w (db, recorded n) e found live unbarred =
    let same : n ≡ tid = recorded_eq e in
    subst
      (λ m.
        Answered s p tid t (peer_answer b p tid w db)
          (send_world (intent_answer s b p now w (db, recorded m))).tables)
      (sym same)
      (enqueue_answer-Answered s p tid now t (after_send b p tid w db) (peer_answer b p tid w db)
        found live unbarred)

-- For a recorded intent whose transfer is still live after Enqueue, with its job not CANCELLED, a
-- turn of the loop of topUpCandidate leaves that transfer with the remote id of an Enqueue that
-- the peer took, in its state; with one that the peer refused, PENDING without a remote id and
-- with one retry more while the pending file has retries left, and ERRORED with its retries and
-- remote id once it has none.
pub send_file-Answered :
    (s : TopUpSettings) (b : Backend) (candidate now : ℕ) (p : Transfer) (w : World) (tid : ℕ)
    (t : Transfer)
    → (recorded_intent s candidate now p w).1 ≡ recorded tid
    → find_row
        (id_is tid)
        (after_send b p tid w (recorded_intent s candidate now p w).0).tables.transfers
      ≡ some t
    → is_live t.state ≡ true
    → barred (
        transfer_owner_state
          (after_send b p tid w (recorded_intent s candidate now p w).0).tables
          tid)
      ≡ false
    → Answered s p tid t
        (peer_answer b p tid w (recorded_intent s candidate now p w).0)
        (send_world (send_file s b candidate now p w)).tables
unfolding send_file
send_file-Answered s b candidate now p w tid t e found live unbarred =
    intent_answer-Answered s b p tid now t w (recorded_intent s candidate now p w) e found live
      unbarred
