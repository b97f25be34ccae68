-- ===== src/Pipeline/Downloading/Pass.antt =====
-- internal/pipeline/downloading.go: the state of one reconcile pass, and the steps that its loops
-- share.
use slusk.Prelude.{
  ℕ, suc, Bool, true, false, Option, none, some, List, [], ◌∷◌, ◌++◌, ltb, if◌then◌else◌,
}
use slusk.Prelude.Int.{ℤ}
use slusk.Prelude.Text.{Text, text_eq, is_empty, codes}
use slusk.Core.State.{TransferState}
use slusk.Core.Models.{Transfer}
use slusk.Store.Db.{Db}
use slusk.Store.Transfers.{retry_transfer, update_transfer_progress}
use slusk.Store.Retry.{park_job_for_candidate}
use slusk.Pipeline.World.{World, RemoteTransfer, JobEventType, event, write, note, after_remove}

-- The settings of DownloadingParams that reconcile reads.
pub record ReconcileSettings : Type 0 where
  pub max_transfer_retries : ℕ
  pub transfer_deadline : ℕ
  pub stall_timeout : ℕ

-- ReconcileStats
pub record ReconcileStats : Type 0 where
  pub adopted : ℕ
  pub completed : ℕ
  pub cancelled : ℕ
  pub parked : ℕ
  pub retried : ℕ
  pub stalled : ℕ
  pub unknown : ℕ

abbrev pub no_stats : ReconcileStats
no_stats = record {
  adopted = 0;
  completed = 0;
  cancelled = 0;
  parked = 0;
  retried = 0;
  stalled = 0;
  unknown = 0;
}

-- The variables of reconcile's loops.
pub record Pass : Type 0 where
  pub world : World
  pub stats : ReconcileStats
  pub our_ids : List Text
  pub handled : List ℕ

-- An entry of a map that a loop fills: the last one with the key.
unfoldable pub last_with : (RemoteTransfer → Bool) → List RemoteTransfer → Option RemoteTransfer
last_with p [] = none
last_with p (t ∷ ts) = elim (last_with p ts) [
  | some u ↦ some u
  | none ↦ if p t then some t else none
]

-- username + "\x00" + filename
abbrev pub fallback_key : Text → Text → Text
fallback_key username filename = username ++ (0 ∷ filename)

-- matchLive
unfoldable pub match_live : List RemoteTransfer → Transfer → Option RemoteTransfer
unfolding last_with
match_live live tr =
    let by_fallback =
      last_with
        (λ t. text_eq (fallback_key t.username t.filename) (fallback_key tr.username tr.filename))
        live in
    if is_empty tr.slskd_id
    then by_fallback
    else elim (last_with (λ t. text_eq t.id tr.slskd_id) live) [
      | some t ↦ some t
      | none ↦ by_fallback
    ]

abbrev pub on_world : (World → World) → Pass → Pass
on_world f ps = record ps { world = f ps.world }

abbrev pub on_stats : (ReconcileStats → ReconcileStats) → Pass → Pass
on_stats f ps = record ps { stats = f ps.stats }

-- handled[tr.ID] = true
abbrev pub handle : Transfer → Pass → Pass
handle tr ps = record ps { handled = tr.id ∷ ps.handled }

-- The calls of the store on one transfer.
abbrev pub retry : Transfer → ℕ → World → World
retry tr now w = write (retry_transfer w.tables tr.id now) w

abbrev pub progress : Transfer → TransferState → ℤ → ℤ → ℕ → World → World
progress tr to bytes_done total now w =
    write (update_transfer_progress w.tables tr.id to bytes_done total now) w

abbrev pub retries_left : ReconcileSettings → Transfer → Bool
retries_left s tr = ltb tr.retries s.max_transfer_retries

-- finishStalled
unfoldable pub finish_stalled : ReconcileSettings → ℕ → Transfer → RemoteTransfer → Pass → Pass
unfolding retry_transfer update_transfer_progress
finish_stalled s now tr lt ps =
    on_stats (λ n. record n { stalled = suc n.stalled })
      (on_world
        (λ w.
          after_remove
            (if retries_left s tr
              then retry tr now w
              else progress tr TransferState.errored tr.bytes_done tr.bytes_total now w)
            tr.username lt.id)
        ps)

-- The answer of ParkJobForCandidate, with its event.
abbrev pub park_answer : Text → Pass → Db × ℕ × Bool → Pass
park_answer detail ps (db, job, true) =
    on_stats (λ n. record n { parked = suc n.parked })
      (on_world (λ w. note (event job JobEventType.job_parked detail) (write db w)) ps)
park_answer detail ps (db, job, false) = on_world (write db) ps

abbrev pub unconfirmed_detail : Text
unconfirmed_detail =
    codes "the backend would not confirm cancelling this transfer, so automation stopped"

abbrev pub vanishing_detail : Text
vanishing_detail =
    codes
      "the download kept vanishing from the backend and ran out of retries, so automation stopped"

unfoldable pub park : Text → ℕ → Transfer → Pass → Pass
unfolding park_job_for_candidate
park detail now tr ps = park_answer detail ps (
    park_job_for_candidate ps.world.tables tr.id tr.candidate_id TransferState.errored tr.bytes_done
      tr.bytes_total now)
