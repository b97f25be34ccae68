-- ===== src/Soulseek/Uploads/Bounds.antt =====
-- The queue limits of the upload manager: maxWaitingUploads, and maxWaitingUploadsPerUser on the
-- counts of perUser.
use slusk.Prelude.{
  ℕ, ◌+◌, ◌-◌, ◌≤◌, ◌≡◌, ◌∙◌, false, ◌||◌, some, List, [], ◌∷◌, arith, Bool-cases, Option-cases,
  inl, inr, leb, List-cases, length, length-append, some_eq, ap, subst,
}
use slusk.Prelude.Text.{Text}
use slusk.Store.Table.{exists, find_row}
use slusk.Soulseek.Uploads.{
  UploadManager, UploadJob, UploadKey, max_waiting_uploads, max_waiting_uploads_per_user, key_is,
  id_is, put_count, enqueue_key, start, reset, take_slot, complete, release_key, release_slot,
  owns_key,
}
use slusk.Soulseek.Uploads.Interleaving.{
  UploadState, Step, Steps, enqueues, starts, refuses, completes, resets, done, step,
}

-- The queue is within its limit, and so is the count of every user.
abbrev pub Bounded : UploadManager → Type 0
Bounded m =
    (length m.waiting ≤ max_waiting_uploads)
    × ((user : Text) → m.per_user user ≤ max_waiting_uploads_per_user)

put_count-le :
    (user : Text) (n : ℕ) (counts : Text → ℕ) (u : Text)
    → n ≤ 64
    → ((v : Text) → counts v ≤ 64)
    → put_count user n counts u ≤ 64
put_count-le user n counts u small all = let here = all u in ground arith

enqueue_key-Bounded :
    (m : UploadManager) (key : UploadKey) → Bounded m → Bounded (enqueue_key m key).0
unfolding enqueue_key
enqueue_key-Bounded m key b = elim (Bool-cases (exists (key_is key) m.by_key)) [
  | inl e ↦ rw e b
  | inr e ↦
      rw e (elim (Bool-cases (leb 1024 (length m.waiting) || leb 64 (m.per_user key.username))) [
        | inl f ↦ rw f b
        | inr f ↦
            let grown = length-append m.waiting (m.next_id ∷ []) in
            rw f (
              ground (arith, f, grown),
              λ u.
                  put_count-le key.username (m.per_user key.username + 1) m.per_user u
                    (ground (arith, f)) b.1,
            )
      ])
]

-- What a start did: there was a free slot, and the head of the queue took it.
pub start-take_slot :
    (m next : UploadManager) (id : ℕ)
    → start m ≡ some (next, id)
    → (rest : List ℕ) × (m.waiting ≡ id ∷ rest)
      × (leb m.slots m.active ≡ false)
      × (take_slot m id rest ≡ next)
unfolding start
start-take_slot m next id h = elim (Bool-cases (leb m.slots m.active)) [
  | inl e ↦ cc (rw (e, start) at h)
  | inr e ↦ elim (List-cases m.waiting) [
    | inl none_there ↦ cc (rw (e, none_there, start) at h)
    | inr (i, rest, there) ↦
        let pair = some_eq (rw (e, there, start) at h) in
        (
          rest,
          there ∙ ap (λ k. k ∷ rest) (ap (λ x. x.1) pair),
          e,
          subst (λ k. take_slot m k rest ≡ next) (ap (λ x. x.1) pair) (ap (λ x. x.0) pair),
        )
  ]
]

start-Bounded :
    (m next : UploadManager) (id : ℕ) → start m ≡ some (next, id) → Bounded m → Bounded next
start-Bounded m next id h b =
    let (rest, there, _, same) = start-take_slot m next id h in
    let shorter = ap length there in subst Bounded same (omega (arith, b.0, shorter), b.1)

release_key-Bounded : (m : UploadManager) (j : UploadJob) → Bounded m → Bounded (release_key m j)
unfolding release_key
release_key-Bounded m j b = elim (Bool-cases (owns_key j.id (find_row (key_is j.key) m.by_key))) [
  | inl e ↦
      let here = b.1 j.key.username in
      rw e (
        b.0,
        λ u.
            put_count-le j.key.username (m.per_user j.key.username - 1) m.per_user u (omega arith)
              b.1,
      )
  | inr e ↦ rw e b
]

release_slot-Bounded : (m : UploadManager) (j : UploadJob) → Bounded m → Bounded (release_slot m j)
unfolding release_slot
release_slot-Bounded m j b = elim (Bool-cases j.active) [ inl e ↦ rw e b | inr e ↦ rw e b ]

complete-Bounded : (m : UploadManager) (id : ℕ) → Bounded m → Bounded (complete m id)
unfolding complete
complete-Bounded m id b = elim (Option-cases (find_row (id_is id) m.heap)) [
  | inl e ↦ rw (e, complete) b
  | inr (j, e) ↦ rw (e, complete) (release_slot-Bounded _ j (release_key-Bounded m j b))
]

reset-Bounded : (m : UploadManager) → Bounded (reset m)
unfolding reset
reset-Bounded m = (omega arith, λ u. omega arith)

Step-Bounded : (s t : UploadState) → Step s t → Bounded s.manager → Bounded t.manager
Step-Bounded s t (enqueues m started key) b = enqueue_key-Bounded m key b
Step-Bounded s t (starts m next started id h) b = start-Bounded m next id h b
Step-Bounded s t (refuses m next started id h) b = reset-Bounded (complete next id)
Step-Bounded s t (completes m started id h) b = complete-Bounded m id b
Step-Bounded s t (resets m started) b = reset-Bounded m

-- In every interleaving of enqueues, starts, refused starts, completions of started jobs and
-- resets, an upload manager whose queue is within its 1024 places, and whose counts are within 64
-- for every user, stays so.
pub Steps-Bounded : (s t : UploadState) → Steps s t → Bounded s.manager → Bounded t.manager
Steps-Bounded s t (done r) b = b
Steps-Bounded s t (step r q u before last) b = Step-Bounded q u last (Steps-Bounded r q before b)
