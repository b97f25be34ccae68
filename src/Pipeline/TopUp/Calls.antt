-- ===== src/Pipeline/TopUp/Calls.antt =====
-- The remote calls of topUpCandidate, by its log: internal/pipeline/selecting.go.
use slusk.Prelude.{
  ℕ, suc, ◌+◌, ◌≡◌, refl, sym, subst, inl, inr, Bool, true, false, ◌&&◌, ◌==◌, Option, none, some,
  List, [], ◌∷◌, ltb, arith, Bool-cases,
}
use slusk.Prelude.Int.{ℤ}
use slusk.Prelude.Text.{Text, text_eq, text_eq_refl}
use slusk.Core.Models.{Transfer}
use slusk.Store.Table.{count}
use slusk.Store.Db.{Db}
use slusk.Store.Transfers.{
  Intent, recorded, refused, busy, record_enqueue_intent, attach_transfer_id,
}
use slusk.Pipeline.World.{
  World, Backend, Entry, intent, enqueued, attached, cancelled, after_enqueue, write, note,
}
use slusk.Pipeline.TopUp.{
  TopUpSettings, attach_answer, enqueue_answer, intent_answer, send_file, send_files,
}
use slusk.Pipeline.TopUp.Rule.{SendHolds, send_files_rule}

-- Enqueue handed out the user's remote id.
abbrev pub takes : Text → Text → Entry → Bool
takes username id (enqueued u f n (some k)) = text_eq u username && text_eq k id
takes username id e = false

-- The user's remote id was attached to a transfer.
abbrev pub attaches : Text → Text → Entry → Bool
attaches username id (attached t u k) = text_eq u username && text_eq k id
attaches username id e = false

-- The user's remote id was cancelled at the peer.
abbrev pub cancels_remote : Text → Text → Entry → Bool
cancels_remote username id (cancelled u k) = text_eq u username && text_eq k id
cancels_remote username id e = false

-- The entry is the recorded intent for the user's file.
abbrev pub announces : Text → Text → List Entry → Bool
announces username filename [] = false
announces username filename (intent t u f ∷ es) = text_eq u username && text_eq f filename
announces username filename (e ∷ es) = false

-- The entries are an Enqueue that handed out this remote id, behind the transfer's intent for that
-- file.
abbrev pub hands_out : ℕ → Text → Text → List Entry → Bool
hands_out transfer username id (enqueued u f n (some k) ∷ intent t v g ∷ es) =
    text_eq u username && text_eq k id && (t == transfer) && text_eq v username && text_eq g f
hands_out transfer username id es = false

-- Every remote id that was attached went to the transfer of the intent for which Enqueue had just
-- handed it out.
unfoldable pub attached_rightly : List Entry → Bool
attached_rightly [] = true
attached_rightly (attached t u k ∷ es) = hands_out t u k es && attached_rightly es
attached_rightly (e ∷ es) = attached_rightly es

-- Every Enqueue of the log comes right after the recorded intent for its file.
unfoldable pub write_ahead : List Entry → Bool
write_ahead [] = true
write_ahead (enqueued u f n a ∷ es) = announces u f es && write_ahead es
write_ahead (e ∷ es) = write_ahead es

abbrev pub is_attached : Entry → Bool
is_attached (attached t u k) = true
is_attached e = false

-- The remote ids that were handed out are accounted for as they were in the older log.
abbrev pub Settled : Text → Text → List Entry → List Entry → Type 0
Settled username id old log =
    count (takes username id) log
      + (count (attaches username id) old + count (cancels_remote username id) old)
    ≡ count (takes username id) old
      + (count (attaches username id) log + count (cancels_remote username id) log)

-- What the loop keeps of its log, with the number of files sent.
abbrev pub CallsKept : List Entry → List Entry → ℕ → Type 0
CallsKept old log n =
    ((username id : Text) → Settled username id old log)
    × (count is_attached log ≡ count is_attached old + n)
    × (write_ahead log ≡ write_ahead old)
    × (attached_rightly log ≡ attached_rightly old)

module _ (old log : List Entry) (n : ℕ) (t : ℕ) (u f : Text) (z : ℤ) (h : CallsKept old log n) where
  kept_failed : CallsKept old (enqueued u f z none ∷ intent t u f ∷ log) n
  unfolding write_ahead attached_rightly count
  kept_failed = (
    λ username id. let same = h.0 username id in ground arith,
    h.1,
    let us = text_eq_refl u in let fs = text_eq_refl f in let same = h.2 in ground arith,
    h.3,
  )

  kept_sent :
      (id : Text)
      → CallsKept old (attached t u id ∷ enqueued u f z (some id) ∷ intent t u f ∷ log) (suc n)
  unfolding write_ahead attached_rightly count
  kept_sent id = (
    λ username k. let same = h.0 username k in ground arith,
    let same = h.1 in ground arith,
    let us = text_eq_refl u in let fs = text_eq_refl f in let same = h.2 in ground arith,
    let us = text_eq_refl u in
        let ks = text_eq_refl id in let fs = text_eq_refl f in let same = h.3 in ground arith,
  )

  kept_cancelled :
      (id : Text) → CallsKept old (cancelled u id ∷ enqueued u f z (some id) ∷ intent t u f ∷ log) n
  unfolding write_ahead attached_rightly count
  kept_cancelled id = (
    λ username k. let same = h.0 username k in ground arith,
    h.1,
    let us = text_eq_refl u in let fs = text_eq_refl f in let same = h.2 in ground arith,
    h.3,
  )

abbrev pub LogKept : List Entry → World → ℕ → Type 0
LogKept old w n = CallsKept old w.log n

module _ (old log : List Entry) (n : ℕ) (p : Transfer) (tid now : ℕ) (h : CallsKept old log n) where
  attach_answer-kept :
      (w : World) (id : Text) (r : Db × Bool)
      → w.log
        ≡ enqueued p.username p.filename p.bytes_total (some id)
          ∷ intent tid p.username p.filename
          ∷ log
      → SendHolds (LogKept old) n (attach_answer w tid p.username id r)
  attach_answer-kept w id (db, true) e =
      subst (λ l. CallsKept old (attached tid p.username id ∷ l) (suc n)) (sym e)
        (kept_sent old log n tid p.username p.filename p.bytes_total h id)
  attach_answer-kept w id (db, false) e =
      subst (λ l. CallsKept old (cancelled p.username id ∷ l) n) (sym e)
        (kept_cancelled old log n tid p.username p.filename p.bytes_total h id)

  enqueue_answer-kept :
      (s : TopUpSettings) (w : World) (o : Option Text)
      → w.log
        ≡ enqueued p.username p.filename p.bytes_total o ∷ intent tid p.username p.filename ∷ log
      → SendHolds (LogKept old) n (enqueue_answer s p tid now w o)
  enqueue_answer-kept s w none e =
      let kept =
        subst (λ l. CallsKept old l n) (sym e)
          (kept_failed old log n tid p.username p.filename p.bytes_total h) in
      elim (Bool-cases (ltb p.retries s.max_transfer_retries)) [
        | inl k ↦ rw (k, SendHolds) kept
        | inr k ↦ rw (k, SendHolds) kept
      ]
  enqueue_answer-kept s w (some id) e =
      attach_answer-kept w id (attach_transfer_id w.tables tid id now) e

intent_answer-kept :
    (old : List Entry) (n : ℕ) (s : TopUpSettings) (b : Backend) (p : Transfer) (now : ℕ)
    (w : World) (r : Db × Intent)
    → CallsKept old w.log n
    → SendHolds (LogKept old) n (intent_answer s b p now w r)
unfolding after_enqueue
intent_answer-kept old n s b p now w (db, busy) h = h
intent_answer-kept old n s b p now w (db, refused) h = h
intent_answer-kept old n s b p now w (db, recorded tid) h =
    let before = note (intent tid p.username p.filename) (write db w) in
    enqueue_answer-kept old w.log n p tid now h s
      (after_enqueue b before p.username p.filename p.bytes_total)
      (b.enqueue before p.username p.filename p.bytes_total) refl

-- The loop settles every remote id that it is handed, counts the files that it attached, and calls
-- the peer behind the intent only.
pub send_files-CallsKept_on :
    (s : TopUpSettings) (b : Backend) (candidate now : ℕ) (ps : List Transfer) (inflight : ℕ)
    (old : List Entry) (w : World)
    → CallsKept old w.log 0
    → CallsKept old
        (send_files s b candidate now ps inflight 0 w).world.log
        (send_files s b candidate now ps inflight 0 w).sent
unfolding send_file
send_files-CallsKept_on s b candidate now ps inflight old w h =
    send_files_rule (LogKept old) s b candidate now
      (λ p v n kept.
        intent_answer-kept old n s b p now v
          (record_enqueue_intent v.tables candidate p.username p.filename
            (now + s.transfer_deadline) now)
          kept)
      ps inflight 0 w h

pub send_files-CallsKept :
    (s : TopUpSettings) (b : Backend) (candidate now : ℕ) (ps : List Transfer) (inflight : ℕ)
    (w : World)
    → CallsKept w.log
        (send_files s b candidate now ps inflight 0 w).world.log
        (send_files s b candidate now ps inflight 0 w).sent
send_files-CallsKept s b candidate now ps inflight w =
    send_files-CallsKept_on s b candidate now ps inflight w.log w
      (λ username id. refl, omega arith, refl, refl)
