-- ===== src/Pipeline/TopUp/Bounds.antt =====
-- The limits of topUpCandidate, and its calls with those of the reservation before them:
-- internal/pipeline/selecting.go.
use slusk.Prelude.{
  ℕ, suc, ◌+◌, ◌-◌, ◌≤◌, refl, inl, inr, Bool, true, false, not, ◌&&◌, ◌||◌, ◌==◌, Option, none,
  some, List, [], ◌∷◌, ltb, leb, arith, Bool-cases, length, take,
}
use slusk.Prelude.Text.{Text, is_empty, text_eq}
use slusk.Core.Models.{Transfer}
use slusk.Store.Table.{count, exists}
use slusk.Store.Db.{Db}
use slusk.Store.Folders.{register_download_folder, defer_candidate}
use slusk.Pipeline.Paths.{common_leaf}
use slusk.Pipeline.World.{World, Backend, Fmt, Entry, write}
use slusk.Pipeline.TopUp.{
  TopUpSettings, send_file, send_files, Reservation, reserved, waiting, deferral_answer,
  defer_for_folder, reserve_leaves, reserve_download_folders, reserved_answer, top_up_candidate,
  transfers_for_candidate, pending_of, inflight_of,
}
use slusk.Pipeline.TopUp.Rule.{Send-cases}
use slusk.Pipeline.TopUp.Calls.{
  CallsKept, send_files-CallsKept, send_files-CallsKept_on, write_ahead, attached_rightly,
}
use slusk.Pipeline.TopUp.Moved.{reservation_world, Registration-cases}

-- The loop stops where the peer holds as many files as it may.
pub send_files-sent :
    (s : TopUpSettings) (b : Backend) (candidate now : ℕ) (ps : List Transfer) (inflight n : ℕ)
    (w : World)
    → (send_files s b candidate now ps inflight n w).sent ≤ n + (s.max_inflight_per_peer - inflight)
unfolding send_files
send_files-sent s b candidate now [] inflight n w = omega arith
send_files-sent s b candidate now (p ∷ ps) inflight n w =
    elim (Bool-cases (leb s.max_inflight_per_peer inflight)) [
      | inl e ↦ rw (e, send_files) (omega arith)
      | inr e ↦ elim (Send-cases (send_file s b candidate now p w)) [
        | inl (v, k) ↦
            rw (e, k, send_files)
              (let ih = send_files-sent s b candidate now ps (suc inflight) (suc n) v in
                ground arith)
        | inr (inl (v, k)) ↦
            rw (e, k, send_files) (send_files-sent s b candidate now ps inflight n v)
        | inr (inr (inl (v, k))) ↦ rw (e, k, send_files) (omega arith)
        | inr (inr (inr (v, k))) ↦ rw (e, k, send_files) (omega arith)
      ]
    ]

module _ (s : TopUpSettings) (f : Fmt) (job candidate now : ℕ) where
  deferral_answer-log :
      (leaf : Text) (owner : ℕ) (w : World) (r : Db × Option (ℕ × Bool))
      → CallsKept w.log
          (reservation_world (deferral_answer s f job candidate leaf owner now w r)).log
          0
  unfolding write_ahead attached_rightly count
  deferral_answer-log leaf owner w (db, none) = (λ username id. refl, omega arith, refl, refl)
  deferral_answer-log leaf owner w (db, some (since, true)) =
      (λ username id. refl, omega arith, refl, refl)
  deferral_answer-log leaf owner w (db, some (since, false)) =
      elim (Bool-cases (leb (now - since) s.transfer_deadline)) [
        | inl e ↦ rw (e, reservation_world) (λ username id. refl, omega arith, refl, refl)
        | inr e ↦ rw (e, reservation_world) (λ username id. refl, omega arith, refl, refl)
      ]

  reserve_leaves-log :
      (seen : List Text) (ts : List Transfer) (w : World)
      → CallsKept w.log (reservation_world (reserve_leaves s f job candidate now seen ts w)).log 0
  unfolding reserve_leaves defer_for_folder
  reserve_leaves-log seen [] w = (λ username id. refl, omega arith, refl, refl)
  reserve_leaves-log seen (t ∷ ts) w =
      let leaf = common_leaf (t.filename ∷ []) in
      let w2 = write (register_download_folder w.tables job leaf now).0 w in
      elim (Bool-cases (is_empty leaf || exists (text_eq leaf) seen)) [
        | inl e ↦ rw (e, reserve_leaves) (reserve_leaves-log seen ts w)
        | inr e ↦ elim (Registration-cases (register_download_folder w.tables job leaf now).1) [
          | inl (owner, k) ↦
              rw (e, k, reserve_leaves)
                (deferral_answer-log leaf owner w2 (defer_candidate w2.tables candidate now))
          | inr (inl k) ↦ rw (e, k, reserve_leaves) (reserve_leaves-log (leaf ∷ seen) ts w2)
          | inr (inr (inl k)) ↦ rw (e, k, reserve_leaves) (reserve_leaves-log (leaf ∷ seen) ts w2)
          | inr (inr (inr k)) ↦ rw (e, k, reserve_leaves) (reserve_leaves-log (leaf ∷ seen) ts w2)
        ]
      ]

module _ (s : TopUpSettings) (b : Backend) (candidate now : ℕ) (pending : List Transfer) where
  reserved_answer-log :
      (old : List Entry) (inflight : ℕ) (r : Reservation)
      → CallsKept old (reservation_world r).log 0
      → CallsKept old
          (reserved_answer s b candidate now pending inflight r).world.log
          (reserved_answer s b candidate now pending inflight r).sent
  reserved_answer-log old inflight (reserved w) h =
      send_files-CallsKept_on s b candidate now pending inflight old w h
  reserved_answer-log old inflight (waiting w) h = h

  reserved_answer-sent :
      (inflight : ℕ) (r : Reservation)
      → (reserved_answer s b candidate now pending inflight r).sent
        ≤ s.max_inflight_per_peer - inflight
  reserved_answer-sent inflight (reserved w) =
      let le = send_files-sent s b candidate now pending inflight 0 w in omega arith
  reserved_answer-sent inflight (waiting w) = omega arith

-- By the log of a top-up, every remote id that Enqueue handed out was attached or cancelled at
-- the peer, as often as it was handed out, and the number of files sent is the number of ids
-- attached. A log in which every Enqueue stands right behind the recorded intent for its file,
-- and every id was attached right after the Enqueue that handed it out and to the transfer of
-- that intent, stays such a log.
pub top_up_candidate-calls :
    (s : TopUpSettings) (f : Fmt) (b : Backend) (job candidate now : ℕ) (w : World)
    → CallsKept w.log
        (top_up_candidate s f b job candidate now w).world.log
        (top_up_candidate s f b job candidate now w).sent
unfolding top_up_candidate reserve_download_folders
top_up_candidate-calls s f b job candidate now w =
    let transfers = transfers_for_candidate w.tables candidate in
    let inflight = inflight_of transfers in
    let pending = pending_of transfers in
    elim (Bool-cases (ltb 0 (s.max_inflight_per_peer - inflight) && not (length pending == 0))) [
      | inl e ↦ rw e (
          reserved_answer-log s b candidate now pending w.log inflight
            (reserve_download_folders s f job candidate now
              (take (s.max_inflight_per_peer - inflight) pending) w)
            (reserve_leaves-log s f job candidate now []
              (take (s.max_inflight_per_peer - inflight) pending) w))
      | inr e ↦ rw e (send_files-CallsKept s b candidate now pending inflight w)
    ]

-- Where no more of the candidate's files are in flight than the limit per peer, those in flight
-- together with the files that a top-up sends do not exceed the limit.
pub top_up_candidate-max_inflight :
    (s : TopUpSettings) (f : Fmt) (b : Backend) (job candidate now : ℕ) (w : World)
    → inflight_of (transfers_for_candidate w.tables candidate) ≤ s.max_inflight_per_peer
    → inflight_of (transfers_for_candidate w.tables candidate)
        + (top_up_candidate s f b job candidate now w).sent
      ≤ s.max_inflight_per_peer
unfolding top_up_candidate
top_up_candidate-max_inflight s f b job candidate now w below =
    let transfers = transfers_for_candidate w.tables candidate in
    let inflight = inflight_of transfers in
    let pending = pending_of transfers in
    elim (Bool-cases (ltb 0 (s.max_inflight_per_peer - inflight) && not (length pending == 0))) [
      | inl e ↦ rw e (
          let le = reserved_answer-sent s b candidate now pending inflight (
            reserve_download_folders s f job candidate now
              (take (s.max_inflight_per_peer - inflight) pending) w) in
          omega arith)
      | inr e ↦
          rw e (let le = send_files-sent s b candidate now pending inflight 0 w in omega arith)
    ]
