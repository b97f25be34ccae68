-- ===== src/Soulseek/Uploads/Slots/Steps.antt =====
-- The slot invariant over every interleaving of the upload manager's critical sections.
use slusk.Prelude.{
  ℕ, ◌≤◌, ◌≡◌, refl, subst, ◌||◌, some, List, [], ◌∷◌, arith, Bool-cases, inl, inr, All-mono, leb,
  length,
}
use slusk.Store.Table.{count, exists}
use slusk.Soulseek.Uploads.{
  UploadManager, UploadKey, key_is, enqueue_key, start, reset, complete, max_waiting_uploads,
  max_waiting_uploads_per_user, new_upload_manager,
}
use slusk.Soulseek.Uploads.Interleaving.{
  UploadState, Step, Steps, enqueues, starts, refuses, completes, resets, done, step, mem_id,
}
use slusk.Soulseek.Uploads.Bounds.{start-take_slot}
use slusk.Soulseek.Uploads.Slots.{runs, Queued, Slots}
use slusk.Soulseek.Uploads.Slots.Start.{reset-Slots, start-Slots}
use slusk.Soulseek.Uploads.Slots.Release.{complete-Slots}
use slusk.Soulseek.Uploads.Slots.Enqueue.{enqueue-Slots}

enqueue_key-Slots :
    (m : UploadManager) (started : List ℕ) (key : UploadKey)
    → Slots m started
    → Slots (enqueue_key m key).0 started
unfolding enqueue_key
enqueue_key-Slots m started key i = elim (Bool-cases (exists (key_is key) m.by_key)) [
  | inl e ↦ rw e i
  | inr e ↦
      rw e
        (elim (Bool-cases (
          leb max_waiting_uploads (length m.waiting)
          || leb max_waiting_uploads_per_user (m.per_user key.username))) [
            | inl f ↦ rw f i
            | inr f ↦ rw f (enqueue-Slots m started key e i)
          ])
]

started-Slots :
    (m next : UploadManager) (started : List ℕ) (id : ℕ)
    → start m ≡ some (next, id)
    → Slots m started
    → Slots next (id ∷ started)
started-Slots m next started id h i =
    let (rest, there, free, same) = start-take_slot m next id h in
    subst (λ n. Slots n (id ∷ started)) same (start-Slots m started id rest there free i)

-- Forgetting that a goroutine was started.
forget-Slots :
    (m : UploadManager) (started : List ℕ) (id : ℕ) → Slots m (id ∷ started) → Slots m started
unfolding mem_id
forget-Slots m started id i = record {
  counted = i.counted;
  within = i.within;
  ids_below = i.ids_below;
  started_below = i.started_below.1;
  unique_ids = i.unique_ids;
  unique_keys = i.unique_keys;
  queued =
      All-mono (Queued m (id ∷ started)) _ m.waiting
        (λ w q. record {
          allocated = q.allocated;
          idle = q.idle;
          below = q.below;
          in_map = q.in_map;
          not_started = let before = q.not_started in ground arith;
        })
        i.queued;
  each_once = i.each_once;
  mapped = i.mapped;
}

refused-Slots :
    (m next : UploadManager) (started : List ℕ) (id : ℕ)
    → start m ≡ some (next, id)
    → Slots m started
    → Slots (reset (complete next id)) started
unfolding mem_id
refused-Slots m next started id h i = forget-Slots _ started id (
    reset-Slots _ (id ∷ started)
      (complete-Slots next (id ∷ started) id (ground arith) (started-Slots m next started id h i)))

Step-Slots : (s t : UploadState) → Step s t → Slots s.manager s.started → Slots t.manager t.started
Step-Slots s t (enqueues m started key) i = enqueue_key-Slots m started key i
Step-Slots s t (starts m next started id h) i = started-Slots m next started id h i
Step-Slots s t (refuses m next started id h) i = refused-Slots m next started id h i
Step-Slots s t (completes m started id h) i = complete-Slots m started id h i
Step-Slots s t (resets m started) i = reset-Slots m started i

Steps-Slots :
    (s t : UploadState) → Steps s t → Slots s.manager s.started → Slots t.manager t.started
Steps-Slots s t (done r) i = i
Steps-Slots s t (step r q u before last) i = Step-Slots q u last (Steps-Slots r q before i)

new-Slots : (slots : ℕ) → Slots (new_upload_manager slots) []
unfolding count
new-Slots slots = record {
  counted = refl;
  within = omega arith;
  ids_below = tt;
  started_below = tt;
  unique_ids = λ id. omega arith;
  unique_keys = λ key. omega arith;
  queued = tt;
  each_once = λ w. omega arith;
  mapped = refl;
}

-- In every interleaving of enqueues, starts, refused starts, completions of started jobs and
-- resets from a fresh upload manager, its count of active uploads is the number of jobs that are
-- active, and does not pass its slots.
pub Steps-active :
    (slots : ℕ) (s : UploadState)
    → Steps (record { manager = new_upload_manager slots; started = [] }) s
    → (s.manager.active ≡ count runs s.manager.heap) × (s.manager.active ≤ s.manager.slots)
Steps-active slots s before =
    let i =
      Steps-Slots (record { manager = new_upload_manager slots; started = [] }) s before
        (new-Slots slots) in
    (i.counted, i.within)
