-- ===== src/Pipeline/TopUp/Moved.antt =====
-- The jobs that topUpCandidate moves: internal/pipeline/selecting.go.
use slusk.Prelude.{
  ℕ, ◌+◌, ◌-◌, ◌≡◌, refl, sym, subst, ◌⊎◌, inl, inr, Bool, true, false, not, ◌&&◌, ◌||◌, ◌==◌,
  Option, none, some, List, [], ◌∷◌, ltb, leb, Bool-cases, length, take,
}
use slusk.Prelude.Int.{pos}
use slusk.Prelude.Text.{Text, is_empty, text_eq}
use slusk.Core.State.{AlbumJobState, TransferState}
use slusk.Core.Models.{Transfer}
use slusk.Store.Table.{exists}
use slusk.Store.Db.{Db}
use slusk.Store.Operation.{run}
use slusk.Pipeline.Moves.{
  Moves, Moves-refl, attach_transfer_id-Moves, clear_candidate_deferral-Moves,
  defer_candidate-Moves, fail_candidate_and_advance-Moves, record_enqueue_intent-Moves,
  register_download_folder-Moves, retry_transfer-Moves, update_transfer_progress-Moves,
}
use slusk.Store.Transfers.{
  Intent, recorded, refused, busy, record_enqueue_intent, attach_transfer_id,
}
use slusk.Store.Folders.{
  Registration, claimed, owned_by, invalid_leaf, no_job, register_download_folder, defer_candidate,
}
use slusk.Pipeline.Paths.{common_leaf}
use slusk.Pipeline.World.{World, Backend, Fmt, after_enqueue, write, note, intent}
use slusk.Pipeline.TopUp.{
  TopUpSettings, attach_answer, enqueue_answer, intent_answer, send_file, Reservation, reserved,
  waiting, deferral_answer, defer_for_folder, reserve_leaves, reserve_download_folders,
  reserved_answer, top_up_candidate, transfers_for_candidate, pending_of, inflight_of,
}
use slusk.Pipeline.TopUp.Rule.{SendHolds, send_files_rule}

-- Nothing else commits while a file is enqueued.
abbrev pub Quiet : Backend → Type 0
Quiet b = (v : World) → b.meanwhile v ≡ []

-- The world's jobs have moved on from these tables'.
abbrev pub From : Db → World → ℕ → Type 0
From a w n = Moves a w.tables

module _ (a : Db) (n : ℕ) where
  attach_answer-From :
      (w : World) (tid : ℕ) (username id : Text) (r : Db × Bool)
      → Moves a r.0
      → SendHolds (From a) n (attach_answer w tid username id r)
  attach_answer-From w tid username id (db, true) h = h
  attach_answer-From w tid username id (db, false) h = h

  enqueue_answer-From :
      (s : TopUpSettings) (p : Transfer) (tid now : ℕ) (w : World) (o : Option Text)
      → Moves a w.tables
      → SendHolds (From a) n (enqueue_answer s p tid now w o)
  enqueue_answer-From s p tid now w none h =
      elim (Bool-cases (ltb p.retries s.max_transfer_retries)) [
        | inl e ↦ rw (e, SendHolds) (retry_transfer-Moves a tid now w.tables h)
        | inr e ↦
            rw (e, SendHolds)
              (update_transfer_progress-Moves a tid TransferState.errored (pos 0) (pos 0) now
                w.tables h)
      ]
  enqueue_answer-From s p tid now w (some id) h =
      attach_answer-From w tid p.username id (attach_transfer_id w.tables tid id now)
        (attach_transfer_id-Moves a tid id now w.tables h)

  intent_answer-From :
      (s : TopUpSettings) (b : Backend) (p : Transfer) (now : ℕ) (w : World) (r : Db × Intent)
      → Quiet b
      → Moves a r.0
      → SendHolds (From a) n (intent_answer s b p now w r)
  unfolding after_enqueue run
  intent_answer-From s b p now w (db, busy) quiet h = h
  intent_answer-From s b p now w (db, refused) quiet h = h
  intent_answer-From s b p now w (db, recorded tid) quiet h =
      let before = note (intent tid p.username p.filename) (write db w) in
      enqueue_answer-From s p tid now (after_enqueue b before p.username p.filename p.bytes_total)
        (b.enqueue before p.username p.filename p.bytes_total)
        (subst (λ ops. Moves a (run ops db)) (sym (quiet before)) h)

send_file-From :
    (a : Db) (s : TopUpSettings) (b : Backend) (candidate now : ℕ) (p : Transfer) (w : World)
    (n : ℕ)
    → Quiet b
    → From a w n
    → SendHolds (From a) n (send_file s b candidate now p w)
unfolding send_file
send_file-From a s b candidate now p w n quiet h =
    intent_answer-From a n s b p now w
      (record_enqueue_intent w.tables candidate p.username p.filename (now + s.transfer_deadline)
        now)
      quiet
      (record_enqueue_intent-Moves a candidate p.username p.filename (now + s.transfer_deadline) now
        w.tables h)

pub Registration-cases :
    (r : Registration)
    → ((owner : ℕ) × (r ≡ owned_by owner)) ⊎ (r ≡ claimed) ⊎ (r ≡ invalid_leaf) ⊎ (r ≡ no_job)
Registration-cases (owned_by owner) = inl (owner, refl)
Registration-cases claimed = inr (inl refl)
Registration-cases invalid_leaf = inr (inr (inl refl))
Registration-cases no_job = inr (inr (inr refl))

abbrev pub reservation_world : Reservation → World
reservation_world (reserved w) = w
reservation_world (waiting w) = w

module _ (a : Db) (s : TopUpSettings) (f : Fmt) (job candidate now : ℕ) where
  deferral_answer-From :
      (leaf : Text) (owner : ℕ) (w : World) (r : Db × Option (ℕ × Bool))
      → Moves a r.0
      → Moves a (reservation_world (deferral_answer s f job candidate leaf owner now w r)).tables
  deferral_answer-From leaf owner w (db, none) h = h
  deferral_answer-From leaf owner w (db, some (since, true)) h = h
  deferral_answer-From leaf owner w (db, some (since, false)) h =
      elim (Bool-cases (leb (now - since) s.transfer_deadline)) [
        | inl e ↦ rw (e, reservation_world) h
        | inr e ↦
            rw (e, reservation_world)
              (fail_candidate_and_advance-Moves a candidate job _ AlbumJobState.selecting now db
                refl h)
      ]

  reserve_leaves-From :
      (seen : List Text) (ts : List Transfer) (w : World)
      → Moves a w.tables
      → Moves a (reservation_world (reserve_leaves s f job candidate now seen ts w)).tables
  unfolding reserve_leaves defer_for_folder
  reserve_leaves-From seen [] w h = clear_candidate_deferral-Moves a candidate w.tables h
  reserve_leaves-From seen (t ∷ ts) w h =
      let leaf = common_leaf (t.filename ∷ []) in
      let w2 = write (register_download_folder w.tables job leaf now).0 w in
      let h2 = register_download_folder-Moves a job leaf now w.tables h in
      elim (Bool-cases (is_empty leaf || exists (text_eq leaf) seen)) [
        | inl e ↦ rw (e, reserve_leaves) (reserve_leaves-From seen ts w h)
        | inr e ↦ elim (Registration-cases (register_download_folder w.tables job leaf now).1) [
          | inl (owner, k) ↦
              rw (e, k, reserve_leaves)
                (deferral_answer-From leaf owner w2 (defer_candidate w2.tables candidate now)
                  (defer_candidate-Moves a candidate now w2.tables h2))
          | inr (inl k) ↦ rw (e, k, reserve_leaves) (reserve_leaves-From (leaf ∷ seen) ts w2 h2)
          | inr (inr (inl k)) ↦
              rw (e, k, reserve_leaves) (reserve_leaves-From (leaf ∷ seen) ts w2 h2)
          | inr (inr (inr k)) ↦
              rw (e, k, reserve_leaves) (reserve_leaves-From (leaf ∷ seen) ts w2 h2)
        ]
      ]

reserved_answer-From :
    (a : Db) (s : TopUpSettings) (b : Backend) (candidate now : ℕ) (pending : List Transfer)
    (inflight : ℕ) (r : Reservation)
    → Quiet b
    → Moves a (reservation_world r).tables
    → Moves a (reserved_answer s b candidate now pending inflight r).world.tables
reserved_answer-From a s b candidate now pending inflight (reserved w) quiet h =
    send_files_rule (From a) s b candidate now
      (λ p v n. send_file-From a s b candidate now p v n quiet) pending inflight 0 w h
reserved_answer-From a s b candidate now pending inflight (waiting w) quiet h = h

pub top_up_candidate-Moves :
    (s : TopUpSettings) (f : Fmt) (b : Backend) (job candidate now : ℕ) (w : World)
    → Quiet b
    → Moves w.tables (top_up_candidate s f b job candidate now w).world.tables
unfolding top_up_candidate reserve_download_folders
top_up_candidate-Moves s f b job candidate now w quiet =
    let transfers = transfers_for_candidate w.tables candidate in
    let inflight = inflight_of transfers in
    let pending = pending_of transfers in
    elim (Bool-cases (ltb 0 (s.max_inflight_per_peer - inflight) && not (length pending == 0))) [
      | inl e ↦ rw e (
          reserved_answer-From w.tables s b candidate now pending inflight
            (reserve_download_folders s f job candidate now
              (take (s.max_inflight_per_peer - inflight) pending) w)
            quiet
            (reserve_leaves-From w.tables s f job candidate now []
              (take (s.max_inflight_per_peer - inflight) pending) w (Moves-refl w.tables)))
      | inr e ↦ rw e (
          send_files_rule (From w.tables) s b candidate now
            (λ p v n. send_file-From w.tables s b candidate now p v n quiet) pending inflight 0 w
            (Moves-refl w.tables))
    ]
