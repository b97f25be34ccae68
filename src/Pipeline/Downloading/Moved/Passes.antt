-- ===== src/Pipeline/Downloading/Moved/Passes.antt =====
-- The jobs that the pass of reconcile moves:
-- internal/pipeline/downloading.go.
use slusk.Prelude.{
  ℕ, ◌-◌, ◌≡◌, refl, sym, subst, inl, inr, Bool, true, false, ◌&&◌, ◌==◌, Option, none, some, List,
  [], ◌∷◌, leb, Bool-cases, Option-cases, some_eq, if◌then◌else◌,
}
use slusk.Prelude.Int.{ℤ}
use slusk.Prelude.Text.{Text, is_empty}
use slusk.Core.State.{TransferState, transfer_state_eq}
use slusk.Core.Models.{Transfer}
use slusk.Store.Table.{exists}
use slusk.Store.Db.{Db}
use slusk.Pipeline.Moves.{
  Moves, Moves-refl, attach_transfer_id-Moves, park_job_for_candidate-Moves, retry_transfer-Moves,
  update_transfer_progress-Moves,
}
use slusk.Store.Transfers.{attach_transfer_id, transfers_past_deadline, active_transfers}
use slusk.Store.Retry.{park_job_for_candidate}
use slusk.Pipeline.World.{
  World, Backend, RemoteTransfer, RemoteAnswer, done, not_found, failed, after_cancel, after_remove,
  write,
}
use slusk.Pipeline.Downloading.Pass.{
  ReconcileSettings, Pass, match_live, on_world, handle, retry, progress, retries_left,
  finish_stalled, park_answer, park, unconfirmed_detail, vanishing_detail,
}
use slusk.Pipeline.Downloading.Reconcile.{
  cancel_overdue, overdue_cancelled, overdue_matched, lacks_id, adopt, overdue_attached,
  reconcile_overdue, lost, stall_cancelled, stall, past_stall, is_remote_terminal, take_over,
  active_matched, active_attached, reconcile_active, each_transfer, start_pass, reconcile,
}

after_remove-tables :
    (w : World) (username id : Text) → (after_remove w username id).tables ≡ w.tables
after_remove-tables w username id = elim (Bool-cases (is_empty id)) [
  | inl e ↦ rw e refl
  | inr e ↦ rw e refl
]

module _ (a : Db) (s : ReconcileSettings) (b : Backend) (now : ℕ) where
  abbrev Good : Pass → Type 0
  Good ps = Moves a ps.world.tables

  retry-Moves : (tr : Transfer) (w : World) → Moves a w.tables → Moves a (retry tr now w).tables
  retry-Moves tr w h = retry_transfer-Moves a tr.id now w.tables h

  progress-Moves :
      (tr : Transfer) (to : TransferState) (n total : ℤ) (w : World)
      → Moves a w.tables
      → Moves a (progress tr to n total now w).tables
  progress-Moves tr to n total w h =
      update_transfer_progress-Moves a tr.id to n total now w.tables h

  removed-Moves :
      (w : World) (username id : Text)
      → Moves a w.tables
      → Moves a (after_remove w username id).tables
  removed-Moves w username id h = subst (Moves a) (sym (after_remove-tables w username id)) h

  finish_stalled-Good :
      (tr : Transfer) (lt : RemoteTransfer) (ps : Pass)
      → Good ps
      → Good (finish_stalled s now tr lt ps)
  unfolding finish_stalled
  finish_stalled-Good tr lt ps h = elim (Bool-cases (retries_left s tr)) [
    | inl e ↦
        rw e (removed-Moves (retry tr now ps.world) tr.username lt.id (retry-Moves tr ps.world h))
    | inr e ↦ rw e (
        removed-Moves (progress tr TransferState.errored tr.bytes_done tr.bytes_total now ps.world)
          tr.username lt.id
          (progress-Moves tr TransferState.errored tr.bytes_done tr.bytes_total ps.world h))
  ]

  park_answer-Good :
      (detail : Text) (ps : Pass) (r : Db × ℕ × Bool) → Moves a r.0 → Good (park_answer detail ps r)
  park_answer-Good detail ps (db, job, true) h = h
  park_answer-Good detail ps (db, job, false) h = h

  park-Good : (detail : Text) (tr : Transfer) (ps : Pass) → Good ps → Good (park detail now tr ps)
  unfolding park
  park-Good detail tr ps h =
      park_answer-Good detail ps
        (park_job_for_candidate ps.world.tables tr.id tr.candidate_id TransferState.errored
          tr.bytes_done tr.bytes_total now)
        (park_job_for_candidate-Moves a tr.id tr.candidate_id TransferState.errored tr.bytes_done
          tr.bytes_total now ps.world.tables h)

  cancel_overdue-Good :
      (tr : Transfer) (matched : Option Text) (ps : Pass)
      → Good ps
      → Good (cancel_overdue now tr matched ps)
  cancel_overdue-Good tr none ps h =
      progress-Moves tr TransferState.cancelled tr.bytes_done tr.bytes_total ps.world h
  cancel_overdue-Good tr (some id) ps h =
      removed-Moves (progress tr TransferState.cancelled tr.bytes_done tr.bytes_total now ps.world)
        tr.username id
        (progress-Moves tr TransferState.cancelled tr.bytes_done tr.bytes_total ps.world h)

  unconfirmed-Good :
      (tr : Transfer) (ps : Pass)
      → Good ps
      → Good (
          if leb (now - tr.deadline) s.transfer_deadline
          then ps
          else handle tr (park unconfirmed_detail now tr ps))
  unconfirmed-Good tr ps h = elim (Bool-cases (leb (now - tr.deadline) s.transfer_deadline)) [
    | inl e ↦ rw e h
    | inr e ↦ rw e (park-Good unconfirmed_detail tr ps h)
  ]

  overdue_cancelled-Good :
      (tr : Transfer) (id : Text) (ps : Pass) (r : RemoteAnswer)
      → Good ps
      → Good (overdue_cancelled s now tr id ps r)
  overdue_cancelled-Good tr id ps done h = cancel_overdue-Good tr (some id) ps h
  overdue_cancelled-Good tr id ps not_found h = unconfirmed-Good tr ps h
  overdue_cancelled-Good tr id ps failed h = unconfirmed-Good tr ps h

  overdue_matched-Good :
      (tr : Transfer) (lt : RemoteTransfer) (id : Text) (ps : Pass)
      → Good ps
      → Good (overdue_matched s b now tr lt id ps)
  unfolding overdue_matched
  overdue_matched-Good tr lt id ps h =
      elim (Bool-cases (
        transfer_state_eq tr.state TransferState.stalled
        && transfer_state_eq lt.state TransferState.cancelled)) [
          | inl e ↦ rw e (finish_stalled-Good tr lt ps h)
          | inr e ↦ rw e (
              overdue_cancelled-Good tr id (on_world (λ w. after_cancel w tr.username id) ps)
                (b.cancel ps.world tr.username id) h)
        ]

  overdue_attached-Good :
      (tr : Transfer) (lt : RemoteTransfer) (ps : Pass) (r : Db × Bool)
      → Moves a r.0
      → Good (overdue_attached s b now tr lt ps r)
  overdue_attached-Good tr lt ps (db, true) h =
      overdue_matched-Good tr lt lt.id (on_world (write db) ps) h
  overdue_attached-Good tr lt ps (db, false) h = h

  reconcile_overdue-Good :
      (live : List RemoteTransfer) (tr : Transfer) (ps : Pass)
      → Good ps
      → Good (reconcile_overdue s b now live tr ps)
  unfolding reconcile_overdue
  reconcile_overdue-Good live tr ps h = elim (Option-cases (match_live live tr)) [
    | inl e ↦ rw (e, reconcile_overdue) (cancel_overdue-Good tr none ps h)
    | inr (lt, e) ↦ elim (Bool-cases (lacks_id tr lt)) [
      | inl k ↦
          rw (e, k, reconcile_overdue)
            (overdue_attached-Good tr lt (adopt lt ps)
              (attach_transfer_id ps.world.tables tr.id lt.id now)
              (attach_transfer_id-Moves a tr.id lt.id now ps.world.tables h))
      | inr k ↦
          rw (e, k, reconcile_overdue) (overdue_matched-Good tr lt tr.slskd_id (adopt lt ps) h)
    ]
  ]

  lost-Good : (tr : Transfer) (ps : Pass) → Good ps → Good (lost s now tr ps)
  unfolding lost
  lost-Good tr ps h = elim (Bool-cases (retries_left s tr)) [
    | inl e ↦ rw e (retry-Moves tr ps.world h)
    | inr e ↦ rw e (park-Good vanishing_detail tr ps h)
  ]

  stall_cancelled-Good :
      (tr : Transfer) (lt : RemoteTransfer) (ps : Pass) (r : RemoteAnswer)
      → Good ps
      → Good (stall_cancelled s now tr lt ps r)
  stall_cancelled-Good tr lt ps done h = finish_stalled-Good tr lt ps h
  stall_cancelled-Good tr lt ps not_found h = h
  stall_cancelled-Good tr lt ps failed h = h

  stall-Good :
      (tr : Transfer) (lt : RemoteTransfer) (ps : Pass) → Good ps → Good (stall s b now tr lt ps)
  stall-Good tr lt ps h = elim (Bool-cases (transfer_state_eq tr.state TransferState.stalled)) [
    | inl e ↦ rw e (
        stall_cancelled-Good tr lt (record ps { world = after_cancel ps.world tr.username lt.id })
          (b.cancel ps.world tr.username lt.id) h)
    | inr e ↦
        let marked = progress tr TransferState.stalled lt.bytes_done lt.size now ps.world in
        rw e (
          stall_cancelled-Good tr lt (record ps { world = after_cancel marked tr.username lt.id })
            (b.cancel marked tr.username lt.id)
            (progress-Moves tr TransferState.stalled lt.bytes_done lt.size ps.world h))
  ]

  take_over-Good :
      (tr : Transfer) (lt : RemoteTransfer) (ps : Pass) → Good ps → Good (take_over now tr lt ps)
  take_over-Good tr lt ps h =
      let taken = progress-Moves tr lt.state lt.bytes_done lt.size ps.world h in
      elim (Bool-cases (is_remote_terminal lt.state)) [
        | inl e ↦ rw e (
            removed-Moves (progress tr lt.state lt.bytes_done lt.size now ps.world) lt.username
              lt.id taken)
        | inr e ↦ rw e taken
      ]

  active_matched-Good :
      (tr : Transfer) (lt : RemoteTransfer) (ps : Pass)
      → Good ps
      → Good (active_matched s b now tr lt ps)
  unfolding active_matched
  active_matched-Good tr lt ps h =
      elim (Bool-cases (
        transfer_state_eq tr.state TransferState.stalled
        && transfer_state_eq lt.state TransferState.cancelled)) [
          | inl e ↦ rw e (finish_stalled-Good tr lt ps h)
          | inr e ↦
              elim (Bool-cases (
                transfer_state_eq lt.state TransferState.errored
                && (retries_left s tr && lt.retryable))) [
                  | inl k ↦
                      rw (e, k)
                        (removed-Moves (retry tr now ps.world) tr.username lt.id
                          (retry-Moves tr ps.world h))
                  | inr k ↦
                      elim (Bool-cases (
                        transfer_state_eq lt.state TransferState.in_progress
                        && past_stall s now tr)) [
                          | inl m ↦ rw (e, k, m) (stall-Good tr lt ps h)
                          | inr m ↦ rw (e, k, m) (take_over-Good tr lt ps h)
                        ]
                ]
        ]

  active_attached-Good :
      (tr : Transfer) (lt : RemoteTransfer) (ps : Pass) (r : Db × Bool)
      → Moves a r.0
      → Good (active_attached s b now tr lt ps r)
  active_attached-Good tr lt ps (db, true) h = active_matched-Good tr lt (on_world (write db) ps) h
  active_attached-Good tr lt ps (db, false) h = h

  reconcile_active-Good :
      (live : List RemoteTransfer) (tr : Transfer) (ps : Pass)
      → Good ps
      → Good (reconcile_active s b now live tr ps)
  unfolding reconcile_active
  reconcile_active-Good live tr ps h = elim (Bool-cases (exists (λ id. id == tr.id) ps.handled)) [
    | inl d ↦ rw (d, reconcile_active) h
    | inr d ↦ elim (Option-cases (match_live live tr)) [
      | inl e ↦ rw (d, e, reconcile_active) (lost-Good tr ps h)
      | inr (lt, e) ↦ elim (Bool-cases (lacks_id tr lt)) [
        | inl k ↦
            rw (d, e, k, reconcile_active)
              (active_attached-Good tr lt (adopt lt ps)
                (attach_transfer_id ps.world.tables tr.id lt.id now)
                (attach_transfer_id-Moves a tr.id lt.id now ps.world.tables h))
        | inr k ↦ rw (d, e, k, reconcile_active) (active_matched-Good tr lt (adopt lt ps) h)
      ]
    ]
  ]

  each_transfer-Good :
      (turn : Transfer → Pass → Pass) (trs : List Transfer) (ps : Pass)
      → ((tr : Transfer) (qs : Pass) → Good qs → Good (turn tr qs))
      → Good ps
      → Good (each_transfer turn trs ps)
  unfolding each_transfer
  each_transfer-Good turn [] ps keep h = h
  each_transfer-Good turn (tr ∷ trs) ps keep h =
      each_transfer-Good turn trs (turn tr ps) keep (keep tr ps h)

pub reconcile-Moves :
    (s : ReconcileSettings) (b : Backend) (now : ℕ) (w : World) (ps : Pass)
    → reconcile s b now w ≡ some ps
    → Moves w.tables ps.world.tables
unfolding reconcile
reconcile-Moves s b now w ps h = elim (Option-cases (b.list_downloads w)) [
  | inl e ↦ cc (rw (e, reconcile) at h)
  | inr (live, e) ↦
      let overdue =
        each_transfer (reconcile_overdue s b now live) (transfers_past_deadline w.tables now)
          (start_pass w) in
      let first =
        each_transfer-Good w.tables s b now (reconcile_overdue s b now live)
          (transfers_past_deadline w.tables now) (start_pass w)
          (reconcile_overdue-Good w.tables s b now live) (Moves-refl w.tables) in
      let second =
        each_transfer-Good w.tables s b now (reconcile_active s b now live)
          (active_transfers overdue.world.tables) overdue
          (reconcile_active-Good w.tables s b now live) first in
      subst (λ (qs : Pass). Moves w.tables qs.world.tables) (some_eq (rw (e, reconcile) at h))
        second
]
