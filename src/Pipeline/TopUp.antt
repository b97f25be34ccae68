-- ===== src/Pipeline/TopUp.antt =====
-- internal/pipeline/selecting.go: topUpCandidate, which Selecting and Downloading share, and the
-- reservation of the folders that it downloads into. A store call that the program only expects to
-- fail for want of a database succeeds here; the errors that the statements themselves raise stay.
pub mod Rule
pub mod Moved
pub mod Calls
pub mod Bounds
pub mod Deferral
pub mod Outcome
use slusk.Prelude.{
  ℕ, suc, ◌+◌, ◌-◌, Bool, true, false, not, ◌&&◌, ◌||◌, ◌==◌, Option, none, some, List, [], ◌∷◌,
  ◌++◌, ltb, leb, if◌then◌else◌, length, take,
}
use slusk.Prelude.Int.{ℤ, pos}
use slusk.Prelude.Text.{Text, text_eq, is_empty, codes}
use slusk.Core.State.{AlbumJobState, TransferState, transfer_state_eq}
use slusk.Core.Models.{Transfer}
use slusk.Store.Table.{count, exists, select}
use slusk.Store.Db.{Db}
use slusk.Store.Jobs.{sort_by, text_lt}
use slusk.Store.Candidates.{fail_candidate_and_advance}
use slusk.Store.Transfers.{
  Intent, recorded, refused, busy, record_enqueue_intent, attach_transfer_id, retry_transfer,
  update_transfer_progress, is_in_flight,
}
use slusk.Store.Folders.{
  Registration, claimed, owned_by, invalid_leaf, no_job, register_download_folder, defer_candidate,
  clear_candidate_deferral,
}
use slusk.Pipeline.Backoff.{decimal}
use slusk.Pipeline.Paths.{common_leaf}
use slusk.Pipeline.World.{
  World, Backend, Fmt, Entry, JobEventType, intent, enqueued, attached, event, write, note,
  after_enqueue, after_cancel,
}

-- The settings of topUpCandidate.
pub record TopUpSettings : Type 0 where
  pub max_inflight_per_peer : ℕ
  pub max_transfer_retries : ℕ
  pub transfer_deadline : ℕ

-- TransfersForCandidate
unfoldable pub transfers_for_candidate : Db → ℕ → List Transfer
transfers_for_candidate db candidate = select (λ t. t.candidate_id == candidate) db.transfers

abbrev pub is_pending : Transfer → Bool
is_pending t = transfer_state_eq t.state TransferState.pending

-- The PENDING transfers in the order of their file names.
unfoldable pub pending_of : List Transfer → List Transfer
pending_of transfers =
    sort_by (λ a b. not (text_lt b.filename a.filename)) (select is_pending transfers)

-- What happened to one file.
pub data Send : Type 0 where
  sent_file : World → Send
  not_sent : World → Send
  stopped : World → Send
  broken : World → Send

-- After AttachTransferID, for a file that the peer took.
abbrev pub attach_answer : World → ℕ → Text → Text → Db × Bool → Send
attach_answer w tid username id (db, true) =
    sent_file (note (attached tid username id) (write db w))
attach_answer w tid username id (db, false) = stopped (after_cancel (write db w) username id)

abbrev pub attach_remote : World → ℕ → Text → Text → ℕ → Send
attach_remote w tid username id now =
    attach_answer w tid username id (attach_transfer_id w.tables tid id now)

-- After Enqueue.
abbrev pub enqueue_answer : TopUpSettings → Transfer → ℕ → ℕ → World → Option Text → Send
enqueue_answer s p tid now w none =
    if ltb p.retries s.max_transfer_retries
    then not_sent (write (retry_transfer w.tables tid now) w)
    else not_sent
        (write (update_transfer_progress w.tables tid TransferState.errored (pos 0) (pos 0) now) w)
enqueue_answer s p tid now w (some id) = attach_remote w tid p.username id now

-- After RecordEnqueueIntent.
abbrev pub intent_answer : TopUpSettings → Backend → Transfer → ℕ → World → Db × Intent → Send
intent_answer s b p now w (db, busy) = broken (write db w)
intent_answer s b p now w (db, refused) = stopped (write db w)
intent_answer s b p now w (db, recorded tid) =
    let before = note (intent tid p.username p.filename) (write db w) in
    enqueue_answer s p tid now (after_enqueue b before p.username p.filename p.bytes_total)
      (b.enqueue before p.username p.filename p.bytes_total)

-- One turn of the loop, below the limit.
unfoldable pub send_file : TopUpSettings → Backend → ℕ → ℕ → Transfer → World → Send
unfolding record_enqueue_intent attach_transfer_id retry_transfer update_transfer_progress
    after_enqueue
send_file s b candidate now p w =
    intent_answer s b p now w (
      record_enqueue_intent w.tables candidate p.username p.filename (now + s.transfer_deadline)
        now)

-- topUpCandidate's answer: the number of files sent, and whether an error ends the tick.
pub record TopUp : Type 0 where
  pub world : World
  pub sent : ℕ
  pub failed : Bool

abbrev pub answer : World → ℕ → Bool → TopUp
answer w sent failed = record { world = w; sent = sent; failed = failed }

-- The loop over the pending files.
unfoldable pub send_files : TopUpSettings → Backend → ℕ → ℕ → List Transfer → ℕ → ℕ → World → TopUp
unfolding send_file
send_files s b candidate now [] inflight sent w = answer w sent false
send_files s b candidate now (p ∷ ps) inflight sent w =
    elim (leb s.max_inflight_per_peer inflight) [
      | true ↦ answer w sent false
      | false ↦ elim (send_file s b candidate now p w) [
        | sent_file v ↦ send_files s b candidate now ps (suc inflight) (suc sent) v
        | not_sent v ↦ send_files s b candidate now ps inflight sent v
        | stopped v ↦ answer v sent false
        | broken v ↦ answer v sent true
      ]
    ]

-- The outcome of reserveDownloadFolders and deferForFolder. Their error results are those of the
-- database only, so that they have no case here.
pub data Reservation : Type 0 where
  reserved : World → Reservation
  waiting : World → Reservation

abbrev waiting_detail : Fmt → Text → ℕ → Text
waiting_detail f leaf owner =
    codes "download folder "
    ++ f.quote leaf
    ++ codes " is in use by job "
    ++ decimal owner
    ++ codes ", waiting"

abbrev pub ceiling_reason : Fmt → Text → ℕ → ℕ → Text
ceiling_reason f leaf owner deadline =
    codes "download folder "
    ++ f.quote leaf
    ++ codes " still held by job "
    ++ decimal owner
    ++ codes " after "
    ++ f.duration deadline

-- After DeferCandidate, whose answer is none for a candidate that is gone: its zero time ends the
-- wait of this tick without an error.
abbrev pub deferral_answer :
    TopUpSettings → Fmt → ℕ → ℕ → Text → ℕ → ℕ → World → Db × Option (ℕ × Bool) → Reservation
deferral_answer s f job candidate leaf owner now w (db, none) = waiting (write db w)
deferral_answer s f job candidate leaf owner now w (db, some (since, first)) =
    if first
    then waiting (
        note (event job JobEventType.candidate_deferred (waiting_detail f leaf owner)) (write db w))
    else if leb (now - since) s.transfer_deadline
    then waiting (write db w)
    else waiting (
        write
          (fail_candidate_and_advance db candidate job
            (ceiling_reason f leaf owner s.transfer_deadline) AlbumJobState.downloading
            AlbumJobState.selecting now).0
          w)

-- deferForFolder. DeferCandidate has set deferred_since, so its answer is no zero time.
unfoldable pub defer_for_folder : TopUpSettings → Fmt → ℕ → ℕ → Text → ℕ → ℕ → World → Reservation
unfolding fail_candidate_and_advance defer_candidate
defer_for_folder s f job candidate leaf owner now w =
    deferral_answer s f job candidate leaf owner now w (defer_candidate w.tables candidate now)

-- The loop of reserveDownloadFolders, with the leaves seen so far.
unfoldable pub reserve_leaves :
    TopUpSettings → Fmt → ℕ → ℕ → ℕ → List Text → List Transfer → World → Reservation
unfolding common_leaf register_download_folder defer_for_folder clear_candidate_deferral
reserve_leaves s f job candidate now seen [] w =
    reserved (write (clear_candidate_deferral w.tables candidate) w)
reserve_leaves s f job candidate now seen (t ∷ ts) w =
    let leaf = common_leaf (t.filename ∷ []) in
    elim (is_empty leaf || exists (text_eq leaf) seen) [
      | true ↦ reserve_leaves s f job candidate now seen ts w
      | false ↦ elim ((register_download_folder w.tables job leaf now).1) [
        | owned_by owner ↦
            defer_for_folder s f job candidate leaf owner now
              (write (register_download_folder w.tables job leaf now).0 w)
        | _ ↦
            reserve_leaves s f job candidate now (leaf ∷ seen) ts
              (write (register_download_folder w.tables job leaf now).0 w)
      ]
    ]

-- reserveDownloadFolders
unfoldable pub reserve_download_folders :
    TopUpSettings → Fmt → ℕ → ℕ → ℕ → List Transfer → World → Reservation
unfolding reserve_leaves
reserve_download_folders s f job candidate now files w =
    reserve_leaves s f job candidate now [] files w

-- topUpCandidate once the folders are reserved.
abbrev pub reserved_answer :
    TopUpSettings → Backend → ℕ → ℕ → List Transfer → ℕ → Reservation → TopUp
reserved_answer s b candidate now pending inflight (reserved w) =
    send_files s b candidate now pending inflight 0 w
reserved_answer s b candidate now pending inflight (waiting w) = answer w 0 false

-- The transfers of the candidate that the peer holds.
abbrev pub inflight_of : List Transfer → ℕ
inflight_of transfers = count (λ t. is_in_flight t.state) transfers

-- The reservation is for the files that there is room for; without room there is none.
unfoldable pub top_up_candidate : TopUpSettings → Fmt → Backend → ℕ → ℕ → ℕ → World → TopUp
unfolding transfers_for_candidate pending_of reserve_download_folders send_files
top_up_candidate s f b job candidate now w =
    let transfers = transfers_for_candidate w.tables candidate in
    let inflight = inflight_of transfers in
    let pending = pending_of transfers in
    let room = s.max_inflight_per_peer - inflight in
    if ltb 0 room && not (length pending == 0)
    then reserved_answer s b candidate now pending inflight
        (reserve_download_folders s f job candidate now (take room pending) w)
    else send_files s b candidate now pending inflight 0 w
