-- ===== src/Soulseek/Uploads/Slots.antt =====
-- The slots of the upload manager: `active` counts the jobs that are active, and never passes `slots`.
pub mod Start
pub mod Release
pub mod Enqueue
pub mod Steps
use slusk.Prelude.{
  ℕ, suc, ◌+◌, ◌-◌, ◌≤◌, ◌<◌, ◌≡◌, ◌∙◌, refl, ap, sym, subst, Bool, true, false, not, ◌&&◌, ◌||◌,
  ◌==◌, ==_iff, Option, none, some, List, [], ◌∷◌, ◌++◌, arith, if◌then◌else◌, Bool-cases,
  Option-cases, inl, inr, All, All-append, All-mono, leb,
}
use slusk.Store.Table.{
  update, delete, count, exists, find_row, count-update, count-update_le, count-append,
  exists-append, All-update, find_row-holds,
}
use slusk.Store.Table.Counts.{
  count_le_sum, count_split, find_row-count, count-update_off, count-update_on,
  exists-delete_within, count_same,
}
use slusk.Soulseek.Uploads.{
  UploadManager, UploadJob, UploadKey, key_is, id_is, has_id, set_active, owns_key,
  max_waiting_uploads,
}
use slusk.Soulseek.Uploads.Interleaving.{mem_id}

abbrev pub runs : UploadJob → Bool
runs j = j.active

abbrev pub runs_as : ℕ → UploadJob → Bool
runs_as id j = id_is id j && j.active

abbrev pub unmapped : List (UploadKey × ℕ) → UploadJob → Bool
unmapped by_key j = j.active && not (exists (has_id j.id) by_key)

-- A waiting job is allocated, inactive and in the map, and no goroutine was started for it.
pub record Queued (m : UploadManager) (started : List ℕ) (w : ℕ) : Type 0 where
  pub allocated : count (id_is w) m.heap ≡ 1
  pub idle : count (runs_as w) m.heap ≡ 0
  pub below : w < m.next_id
  pub in_map : exists (has_id w) m.by_key ≡ true
  pub not_started : mem_id w started ≡ false

pub record Slots (m : UploadManager) (started : List ℕ) : Type 0 where
  pub counted : m.active ≡ count runs m.heap
  pub within : m.active ≤ m.slots
  pub ids_below : All (λ j. j.id < m.next_id) m.heap
  pub started_below : All (λ i. i < m.next_id) started
  pub unique_ids : (id : ℕ) → count (id_is id) m.heap ≤ 1
  pub unique_keys : (key : UploadKey) → count (key_is key) m.by_key ≤ 1
  pub queued : All (Queued m started) m.waiting
  pub each_once : (w : ℕ) → count (λ i. i == w) m.waiting ≤ 1
  pub mapped : count (unmapped m.by_key) m.heap ≡ 0

-- A job that is found and active is the one active row with its id.
pub active_once :
    (heap : List UploadJob) (id : ℕ) (j : UploadJob)
    → count (id_is id) heap ≤ 1
    → find_row (id_is id) heap ≡ some j
    → j.active ≡ true
    → count (runs_as id) heap ≡ 1
active_once heap id j unique found active =
    let split = count_split (id_is id) runs heap in
    let there = find_row-count (id_is id) runs heap j found active in omega arith

pub inactive_none :
    (heap : List UploadJob) (id : ℕ) (j : UploadJob)
    → count (id_is id) heap ≤ 1
    → find_row (id_is id) heap ≡ some j
    → j.active ≡ false
    → count (runs_as id) heap ≡ 0
inactive_none heap id j unique found idle =
    let split = count_split (id_is id) runs heap in
    let there = find_row-count (id_is id) (λ k. not (runs k)) heap j found (rw idle refl) in
    omega arith

-- The entries with the key of a job that owns it are the job's own.
pub own_entries :
    (by_key : List (UploadKey × ℕ)) (key : UploadKey) (id : ℕ)
    → count (key_is key) by_key ≤ 1
    → owns_key id (find_row (key_is key) by_key) ≡ true
    → count (λ e. key_is key e && not (has_id id e)) by_key ≡ 0
own_entries by_key key id unique owns = elim (Option-cases (find_row (key_is key) by_key)) [
  | inl e ↦ cc (rw e at owns)
  | inr (entry, e) ↦
      let split = count_split (key_is key) (has_id id) by_key in
      let there = find_row-count (key_is key) (has_id id) by_key entry e (rw e at owns) in
      omega arith
]

-- Switching a job off takes it out of the count.
pub count-switch_off :
    (heap : List UploadJob) (id : ℕ)
    → count runs (update (id_is id) (set_active false) heap) + count (runs_as id) heap
      ≡ count runs heap
count-switch_off heap id =
    let off = count-update_off runs (id_is id) (set_active false) heap (λ j h. refl) in
    let split = count_split runs (id_is id) heap in
    let swap = count_same (runs_as id) (λ j. runs j && id_is id j) heap (λ j. ground arith) in
    omega arith

pub All-count_zero {ℓ} :
    {A : Type ℓ} (q : A → Bool) (xs : List A) → count q xs ≡ 0 → All (λ x. q x ≡ false) xs
unfolding count
All-count_zero q [] h = tt
All-count_zero q (x ∷ xs) h = (ground arith, All-count_zero q xs (ground arith))
