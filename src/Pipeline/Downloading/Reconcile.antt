-- ===== src/Pipeline/Downloading/Reconcile.antt =====
-- internal/pipeline/downloading.go: reconcile, one pass over the transfers that the peer may hold.
use slusk.Prelude.{
  ℕ, suc, ◌-◌, Bool, true, false, not, ◌&&◌, ◌||◌, ◌==◌, Option, none, some, List, [], ◌∷◌, ltb,
  leb, if◌then◌else◌,
}
use slusk.Prelude.Text.{Text, text_eq, is_empty}
use slusk.Core.State.{TransferState, transfer_state_eq}
use slusk.Core.Models.{Transfer}
use slusk.Store.Table.{count, exists}
use slusk.Store.Db.{Db}
use slusk.Store.Transfers.{
  attach_transfer_id, retry_transfer, update_transfer_progress, transfers_past_deadline,
  active_transfers,
}
use slusk.Pipeline.World.{
  World, Backend, RemoteTransfer, RemoteAnswer, done, write, after_cancel, after_remove,
}
use slusk.Pipeline.Downloading.Pass.{
  ReconcileSettings, ReconcileStats, no_stats, Pass, match_live, on_world, on_stats, handle, retry,
  progress, retries_left, finish_stalled, unconfirmed_detail, vanishing_detail, park,
}

-- The end of the overdue loop's turn: the row is cancelled, and the record at the peer goes with it.
abbrev pub cancel_overdue : ℕ → Transfer → Option Text → Pass → Pass
cancel_overdue now tr matched ps =
    let row = progress tr TransferState.cancelled tr.bytes_done tr.bytes_total now ps.world in
    handle tr (
      on_stats (λ n. record n { cancelled = suc n.cancelled })
        (record ps {
          world = elim matched [ none ↦ row | some id ↦ after_remove row tr.username id ];
        }))

-- After Cancel of an overdue transfer. An overdue row's deadline is past, so the difference is that
-- of the source.
abbrev pub overdue_cancelled : ReconcileSettings → ℕ → Transfer → Text → Pass → RemoteAnswer → Pass
overdue_cancelled s now tr id ps done = cancel_overdue now tr (some id) ps
overdue_cancelled s now tr id ps a =
    if leb (now - tr.deadline) s.transfer_deadline
    then ps
    else handle tr (park unconfirmed_detail now tr ps)

-- An overdue transfer that the peer lists, under the id that it goes by.
unfoldable pub overdue_matched :
    ReconcileSettings → Backend → ℕ → Transfer → RemoteTransfer → Text → Pass → Pass
unfolding finish_stalled park
overdue_matched s b now tr lt id ps =
    if transfer_state_eq tr.state TransferState.stalled
      && transfer_state_eq lt.state TransferState.cancelled
    then handle tr (finish_stalled s now tr lt ps)
    else overdue_cancelled s now tr id (on_world (λ w. after_cancel w tr.username id) ps)
        (b.cancel ps.world tr.username id)

-- The row has no remote id yet, and the peer's record has one.
abbrev pub lacks_id : Transfer → RemoteTransfer → Bool
lacks_id tr lt = is_empty tr.slskd_id && not (is_empty lt.id)

abbrev pub adopt : RemoteTransfer → Pass → Pass
adopt lt ps = record ps { our_ids = lt.id ∷ ps.our_ids }

-- After AttachTransferID in the overdue loop.
abbrev pub overdue_attached :
    ReconcileSettings → Backend → ℕ → Transfer → RemoteTransfer → Pass → Db × Bool → Pass
overdue_attached s b now tr lt ps (db, true) =
    overdue_matched s b now tr lt lt.id (on_world (write db) ps)
overdue_attached s b now tr lt ps (db, false) =
    handle tr (on_world (λ w. after_cancel (write db w) tr.username lt.id) ps)

-- One turn of the overdue loop.
unfoldable pub reconcile_overdue :
    ReconcileSettings → Backend → ℕ → List RemoteTransfer → Transfer → Pass → Pass
unfolding match_live attach_transfer_id overdue_matched
reconcile_overdue s b now live tr ps = elim (match_live live tr) [
  | none ↦ cancel_overdue now tr none ps
  | some lt ↦
      if lacks_id tr lt
      then overdue_attached s b now tr lt (adopt lt ps)
          (attach_transfer_id ps.world.tables tr.id lt.id now)
      else overdue_matched s b now tr lt tr.slskd_id (adopt lt ps)
]

-- A transfer that the peer does not list any more.
unfoldable pub lost : ReconcileSettings → ℕ → Transfer → Pass → Pass
unfolding retry_transfer park
lost s now tr ps =
    if retries_left s tr
    then on_stats (λ n. record n { retried = suc n.retried }) (on_world (retry tr now) ps)
    else park vanishing_detail now tr ps

abbrev pub past_stall : ReconcileSettings → ℕ → Transfer → Bool
past_stall s now tr = elim tr.last_progress_at [
  | none ↦ false
  | some at ↦ ltb s.stall_timeout (now - at)
]

-- After Cancel of a stalled transfer.
abbrev pub stall_cancelled :
    ReconcileSettings → ℕ → Transfer → RemoteTransfer → Pass → RemoteAnswer → Pass
stall_cancelled s now tr lt ps done = finish_stalled s now tr lt ps
stall_cancelled s now tr lt ps a = ps

-- A transfer that makes no progress: the intent first, then the cancellation at the peer.
abbrev pub stall : ReconcileSettings → Backend → ℕ → Transfer → RemoteTransfer → Pass → Pass
stall s b now tr lt ps =
    let marked =
      (if transfer_state_eq tr.state TransferState.stalled
        then ps.world
        else progress tr TransferState.stalled lt.bytes_done lt.size now ps.world) in
    stall_cancelled s now tr lt (record ps { world = after_cancel marked tr.username lt.id })
      (b.cancel marked tr.username lt.id)

abbrev pub is_remote_terminal : TransferState → Bool
is_remote_terminal st =
    transfer_state_eq st TransferState.completed
    || (transfer_state_eq st TransferState.cancelled || transfer_state_eq st TransferState.errored)

abbrev pub count_update : TransferState → ReconcileStats → ReconcileStats
count_update st n =
    if transfer_state_eq st TransferState.completed
    then record n { completed = suc n.completed }
    else record n { adopted = suc n.adopted }

-- The peer's view is taken over.
abbrev pub take_over : ℕ → Transfer → RemoteTransfer → Pass → Pass
take_over now tr lt ps = on_stats (count_update lt.state) (
    on_world
      (λ w.
        if is_remote_terminal lt.state
        then after_remove (progress tr lt.state lt.bytes_done lt.size now w) lt.username lt.id
        else progress tr lt.state lt.bytes_done lt.size now w)
      ps)

-- An active transfer that the peer lists.
unfoldable pub active_matched :
    ReconcileSettings → Backend → ℕ → Transfer → RemoteTransfer → Pass → Pass
unfolding finish_stalled retry_transfer update_transfer_progress
active_matched s b now tr lt ps =
    if transfer_state_eq tr.state TransferState.stalled
      && transfer_state_eq lt.state TransferState.cancelled
    then finish_stalled s now tr lt ps
    else if transfer_state_eq lt.state TransferState.errored && (retries_left s tr && lt.retryable)
    then on_stats (λ n. record n { retried = suc n.retried })
        (on_world (λ w. after_remove (retry tr now w) tr.username lt.id) ps)
    else if transfer_state_eq lt.state TransferState.in_progress && past_stall s now tr
    then stall s b now tr lt ps
    else take_over now tr lt ps

-- After AttachTransferID in the active loop.
abbrev pub active_attached :
    ReconcileSettings → Backend → ℕ → Transfer → RemoteTransfer → Pass → Db × Bool → Pass
active_attached s b now tr lt ps (db, true) = active_matched s b now tr lt (on_world (write db) ps)
active_attached s b now tr lt ps (db, false) =
    on_world (λ w. after_cancel (write db w) tr.username lt.id) ps

-- One turn of the active loop.
unfoldable pub reconcile_active :
    ReconcileSettings → Backend → ℕ → List RemoteTransfer → Transfer → Pass → Pass
unfolding match_live attach_transfer_id active_matched lost
reconcile_active s b now live tr ps =
    if exists (λ id. id == tr.id) ps.handled then ps else elim (match_live live tr) [
      | none ↦ lost s now tr ps
      | some lt ↦
          if lacks_id tr lt
          then active_attached s b now tr lt (adopt lt ps)
              (attach_transfer_id ps.world.tables tr.id lt.id now)
          else active_matched s b now tr lt (adopt lt ps)
    ]

-- The loop over the transfers, by one turn of it.
unfoldable pub each_transfer : (Transfer → Pass → Pass) → List Transfer → Pass → Pass
each_transfer turn [] ps = ps
each_transfer turn (tr ∷ trs) ps = each_transfer turn trs (turn tr ps)

abbrev pub start_pass : World → Pass
start_pass w = record { world = w; stats = no_stats; our_ids = []; handled = [] }

-- reconcile; none where ListDownloads fails.
unfoldable pub reconcile : ReconcileSettings → Backend → ℕ → World → Option Pass
unfolding reconcile_overdue reconcile_active each_transfer transfers_past_deadline active_transfers
reconcile s b now w = elim (b.list_downloads w) [
  | none ↦ none
  | some live ↦
      let overdue =
        each_transfer (reconcile_overdue s b now live) (transfers_past_deadline w.tables now)
          (start_pass w) in
      let active =
        each_transfer (reconcile_active s b now live) (active_transfers overdue.world.tables)
          overdue in
      some (
        on_stats
          (λ n. record n { unknown = count (λ t. not (exists (text_eq t.id) active.our_ids)) live })
          active)
]
