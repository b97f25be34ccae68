-- ===== src/Soulseek/Uploads/Slots/Release.antt =====
-- complete keeps the slot invariant.
use slusk.Prelude.{
  ℕ, ◌-◌, ◌<◌, ◌≡◌, ◌∙◌, refl, sym, subst, true, false, not, ◌&&◌, ◌==◌, ==_iff, some, List, [],
  ◌∷◌, arith, Bool-cases, Option-cases, inl, inr, All-mono,
}
use slusk.Prelude.Text.{Text}
use slusk.Store.Table.{
  update, delete, count, exists, find_row, count-update, count-update_le, All-update,
  find_row-holds, count-delete_le,
}
use slusk.Store.Table.Counts.{count_le_sum, exists-delete_within}
use slusk.Soulseek.Uploads.{
  UploadManager, UploadJob, UploadKey, key_is, id_is, has_id, set_active, owns_key, put_count,
  complete, release_key, release_slot,
}
use slusk.Soulseek.Uploads.Interleaving.{mem_id}
use slusk.Soulseek.Uploads.Slots.{
  runs_as, unmapped, Queued, Slots, active_once, inactive_none, own_entries, count-switch_off,
}

-- A started job is no waiting one.
started_apart :
    (started : List ℕ) (w id : ℕ)
    → mem_id w started ≡ false
    → mem_id id started ≡ true
    → (w == id) ≡ false
started_apart started w id fresh old = elim (Bool-cases (w == id)) [
  | inl e ↦ let clash = subst (λ k. mem_id k started ≡ false) ((==_iff w id).0 e) fresh in cc
  | inr e ↦ e
]

switch_off-Slots :
    (m : UploadManager) (started : List ℕ) (id : ℕ)
    → count (runs_as id) m.heap ≡ 1
    → Slots m started
    → Slots
        (record m { heap = update (id_is id) (set_active false) m.heap; active = m.active - 1 })
        started
switch_off-Slots m started id once i =
    let off = count-switch_off m.heap id in
    let fewer =
      count-update_le (unmapped m.by_key) (id_is id) (set_active false) m.heap (λ j h k. cc) in
    let counted = i.counted in
    let within = i.within in
    let mapped = i.mapped in
    record {
      counted = omega arith;
      within = omega arith;
      ids_below =
          All-update (λ j. j.id < m.next_id) _ (set_active false) m.heap (λ j _ h. h) i.ids_below;
      started_below = i.started_below;
      unique_ids = λ k.
          rw (count-update (id_is k) (id_is id) (set_active false) m.heap (λ j. refl))
            (i.unique_ids k);
      unique_keys = i.unique_keys;
      queued =
          All-mono (Queued m started) _ m.waiting
            (λ w q.
              let less =
                count-update_le (runs_as w) (id_is id) (set_active false) m.heap
                  (λ j h k. ground arith) in
              let idle = q.idle in
              record {
                allocated =
                    count-update (id_is w) (id_is id) (set_active false) m.heap (λ j. refl)
                    ∙ q.allocated;
                idle = omega arith;
                below = q.below;
                in_map = q.in_map;
                not_started = q.not_started;
              })
            i.queued;
      each_once = i.each_once;
      mapped = omega arith;
    }

idle_after :
    (heap : List UploadJob) (id : ℕ)
    → count (runs_as id) (update (id_is id) (set_active false) heap) ≡ 0
unfolding count update
idle_after [] id = refl
idle_after (j ∷ js) id = ground (arith, idle_after js id)

drop_key-Slots :
    (m : UploadManager) (started : List ℕ) (id : ℕ) (key : UploadKey) (counts : Text → ℕ)
    → count (runs_as id) m.heap ≡ 0
    → count (λ e. key_is key e && not (has_id id e)) m.by_key ≡ 0
    → mem_id id started ≡ true
    → Slots m started
    → Slots
        (record m { by_key = delete (key_is key) m.by_key; per_user = counts; wake = true })
        started
drop_key-Slots m started id key counts idle own old i =
    let kept : (w : ℕ)
        → (w == id) ≡ false
        → exists (has_id w) m.by_key ≡ true
        → exists (has_id w) (delete (key_is key) m.by_key) ≡ true =
      λ w other.
        exists-delete_within (has_id w) (key_is key) (has_id id) m.by_key own
          (λ e h. ground arith) in
    let more =
      count_le_sum (unmapped (delete (key_is key) m.by_key)) (unmapped m.by_key) (runs_as id) m.heap
        (λ j h. elim (Bool-cases (j.id == id)) [
          | inl e ↦ ground arith
          | inr e ↦ elim (Bool-cases (exists (has_id j.id) m.by_key)) [
            | inl f ↦ let still = kept j.id e f in ground arith
            | inr f ↦ ground arith
          ]
        ]) in
    let mapped = i.mapped in
    record {
      counted = i.counted;
      within = i.within;
      ids_below = i.ids_below;
      started_below = i.started_below;
      unique_ids = i.unique_ids;
      unique_keys = λ k.
          let less = count-delete_le (key_is k) (key_is key) m.by_key in
          let before = i.unique_keys k in omega arith;
      queued =
          All-mono (Queued m started) _ m.waiting
            (λ w q. record {
              allocated = q.allocated;
              idle = q.idle;
              below = q.below;
              in_map = kept w (started_apart started w id q.not_started old) q.in_map;
              not_started = q.not_started;
            })
            i.queued;
      each_once = i.each_once;
      mapped = omega arith;
    }

wake-Slots :
    (m : UploadManager) (started : List ℕ)
    → Slots m started
    → Slots (record m { wake = true }) started
wake-Slots m started i = record {
  counted = i.counted;
  within = i.within;
  ids_below = i.ids_below;
  started_below = i.started_below;
  unique_ids = i.unique_ids;
  unique_keys = i.unique_keys;
  queued =
      All-mono (Queued m started) _ m.waiting
        (λ w q. record {
          allocated = q.allocated;
          idle = q.idle;
          below = q.below;
          in_map = q.in_map;
          not_started = q.not_started;
        })
        i.queued;
  each_once = i.each_once;
  mapped = i.mapped;
}

-- complete, once the slot is given back.
release_key-Slots :
    (m : UploadManager) (started : List ℕ) (id : ℕ) (j : UploadJob)
    → j.id ≡ id
    → count (runs_as id) m.heap ≡ 0
    → mem_id id started ≡ true
    → Slots m started
    → Slots (record (release_key m j) { wake = true }) started
unfolding release_key
release_key-Slots m started id j same idle old i =
    elim (Bool-cases (owns_key j.id (find_row (key_is j.key) m.by_key))) [
      | inl e ↦ rw e (
          drop_key-Slots m started id j.key
            (put_count j.key.username (m.per_user j.key.username - 1) m.per_user) idle
            (own_entries m.by_key j.key id (i.unique_keys j.key)
              (subst (λ k. owns_key k (find_row (key_is j.key) m.by_key) ≡ true) same e))
            old i)
      | inr e ↦ rw e (wake-Slots m started i)
    ]

-- The two halves of complete do not meet.
release_comm :
    (m : UploadManager) (j : UploadJob)
    → release_slot (release_key m j) j ≡ release_key (release_slot m j) j
unfolding release_slot release_key
release_comm m j = elim (Bool-cases j.active) [
  | inl e ↦ rw e (elim (Bool-cases (owns_key j.id (find_row (key_is j.key) m.by_key))) [
    | inl f ↦ rw f refl
    | inr f ↦ rw f refl
  ])
  | inr e ↦ rw e refl
]

slot_given_back :
    (m : UploadManager) (j : UploadJob)
    → j.active ≡ true
    → record m { heap = update (id_is j.id) (set_active false) m.heap; active = m.active - 1 }
      ≡ release_slot m j
unfolding release_slot
slot_given_back m j f = rw f refl

slot_kept : (m : UploadManager) (j : UploadJob) → j.active ≡ false → m ≡ release_slot m j
unfolding release_slot
slot_kept m j f = rw f refl

released :
    (m : UploadManager) (started : List ℕ) (j : UploadJob)
    → mem_id j.id started ≡ true
    → find_row (id_is j.id) m.heap ≡ some j
    → Slots m started
    → Slots (record (release_key (release_slot m j) j) { wake = true }) started
released m started j old found i = elim (Bool-cases j.active) [
  | inl f ↦
      subst (λ k. Slots (record (release_key k j) { wake = true }) started) (slot_given_back m j f)
        (release_key-Slots
          (record m { heap = update (id_is j.id) (set_active false) m.heap; active = m.active - 1 })
          started j.id j refl (idle_after m.heap j.id) old
          (switch_off-Slots m started j.id (active_once m.heap j.id j (i.unique_ids j.id) found f)
            i))
  | inr f ↦
      subst (λ k. Slots (record (release_key k j) { wake = true }) started) (slot_kept m j f)
        (release_key-Slots m started j.id j refl
          (inactive_none m.heap j.id j (i.unique_ids j.id) found f) old i)
]

pub complete-Slots :
    (m : UploadManager) (started : List ℕ) (id : ℕ)
    → mem_id id started ≡ true
    → Slots m started
    → Slots (complete m id) started
unfolding complete
complete-Slots m started id old i = elim (Option-cases (find_row (id_is id) m.heap)) [
  | inl e ↦ rw (e, complete) i
  | inr (j, e) ↦
      rw (e, complete)
        (rw (release_comm m j) (
          released m started j (subst (λ k. mem_id k started ≡ true) (sym (found_id e)) old)
            (subst (λ k. find_row (id_is k) m.heap ≡ some j) (sym (found_id e)) e) i))
]
  where
    found_id : {j : UploadJob} → find_row (id_is id) m.heap ≡ some j → j.id ≡ id
    found_id {j} e = (==_iff j.id id).0 (find_row-holds (id_is id) m.heap j e)
