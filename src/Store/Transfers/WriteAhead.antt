-- ===== src/Store/Transfers/WriteAhead.antt =====
-- RecordEnqueueIntent of internal/store/jobs.go: the row that is there before the peer is asked.
use slusk.Prelude.{
  ℕ, ◌≡◌, refl, Bool, true, ◌&&◌, ◌==◌, some, [], ◌∷◌, arith, Bool-cases, Option-cases, inl, inr,
  subst,
}
use slusk.Prelude.Int.{pos}
use slusk.Prelude.Text.{Text, text_eq_refl}
use slusk.Core.State.{TransferState, transfer_state_eq, is_live}
use slusk.Core.Models.{Transfer}
use slusk.Store.Table.{exists, find_row, update, exists-append, count-exists, find_row-holds}
use slusk.Store.Table.Found.{find_row-update}
use slusk.Store.Table.Counts.{find_row-count}
use slusk.Store.Db.{Db, has_key, owns_live, update_transfers}
use slusk.Store.Transfers.{
  owner_state, barred, recorded, queued_transfer, live_key, upsert_intent, record_enqueue_intent,
}

-- A QUEUED row of the file with this id.
abbrev pub queued_row : ℕ → Text → Text → ℕ → Transfer → Bool
queued_row candidate username filename id t =
    has_key candidate username filename t
    && (t.id == id && transfer_state_eq t.state TransferState.queued)

pub recorded_eq : {a b : ℕ} → recorded a ≡ recorded b → a ≡ b
recorded_eq h = cc

abbrev requeue : ℕ → ℕ → Transfer → Transfer
requeue deadline now r = record r {
  state = TransferState.queued;
  deadline = deadline;
  slskd_id = [];
  bytes_done = pos 0;
  updated_at = now;
}

requeued :
    (db : Db) (candidate : ℕ) (username filename : Text) (deadline now : ℕ) (t : Transfer)
    → find_row (has_key candidate username filename) db.transfers ≡ some t
    → is_live t.state ≡ true
    → exists
        (queued_row candidate username filename t.id)
        (update (live_key candidate username filename) (requeue deadline now) db.transfers)
      ≡ true
requeued db candidate username filename deadline now t found live =
    let key = find_row-holds (has_key candidate username filename) db.transfers t found in
    let chosen : live_key candidate username filename t ≡ true = ground arith in
    let after =
      find_row-update (has_key candidate username filename) (live_key candidate username filename)
        (requeue deadline now) db.transfers t (λ r. refl) found in
    count-exists _ _ (
      find_row-count (has_key candidate username filename)
        (λ r. r.id == t.id && transfer_state_eq r.state TransferState.queued)
        (update (live_key candidate username filename) (requeue deadline now) db.transfers)
        (requeue deadline now t) (rw chosen at after) (ground arith))

upsert_intent-recorded :
    (db : Db) (candidate : ℕ) (username filename : Text) (deadline now id : ℕ)
    → (upsert_intent db candidate username filename deadline now).1 ≡ recorded id
    → exists
        (queued_row candidate username filename id)
        (upsert_intent db candidate username filename deadline now).0.transfers
      ≡ true
unfolding upsert_intent update_transfers
upsert_intent-recorded db candidate username filename deadline now id h =
    elim (Option-cases (find_row (has_key candidate username filename) db.transfers)) [
      | inl e ↦ elim (Bool-cases (exists (owns_live username filename) db.transfers)) [
        | inl f ↦ cc (rw (e, f, upsert_intent) at h)
        | inr f ↦
            let same = recorded_eq (rw (e, f, upsert_intent) at h) in
            rw (e, upsert_intent)
              (rw f (
                rw
                  (exists-append (queued_row candidate username filename id) db.transfers (
                    queued_transfer db.next_transfer candidate username filename deadline now ∷ []))
                  (unfold exists in
                    ground (arith, same, text_eq_refl username, text_eq_refl filename))))
      ]
      | inr (t, e) ↦ elim (Bool-cases (is_live t.state)) [
        | inl f ↦
            let same = recorded_eq (rw (e, f, upsert_intent) at h) in
            rw (e, upsert_intent)
              (rw (f, update_transfers)
                (subst
                  (λ n.
                    exists (queued_row candidate username filename n) (
                      update (live_key candidate username filename) (requeue deadline now)
                        db.transfers)
                    ≡ true)
                  same (requeued db candidate username filename deadline now t e f)))
        | inr f ↦ cc (rw (e, f, upsert_intent) at h)
      ]
    ]

-- Where RecordEnqueueIntent answers an id, the table holds a QUEUED transfer of the candidate's
-- file with that id.
pub record_enqueue_intent-recorded :
    (db : Db) (candidate : ℕ) (username filename : Text) (deadline now id : ℕ)
    → (record_enqueue_intent db candidate username filename deadline now).1 ≡ recorded id
    → exists
        (queued_row candidate username filename id)
        (record_enqueue_intent db candidate username filename deadline now).0.transfers
      ≡ true
unfolding record_enqueue_intent
record_enqueue_intent-recorded db candidate username filename deadline now id h =
    elim (Bool-cases (barred (owner_state db candidate))) [
      | inl e ↦ cc (rw e at h)
      | inr e ↦
          rw e (upsert_intent-recorded db candidate username filename deadline now id (rw e at h))
    ]
