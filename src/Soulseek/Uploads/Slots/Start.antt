-- ===== src/Soulseek/Uploads/Slots/Start.antt =====
-- start and reset keep the slot invariant.
use slusk.Prelude.{
  ℕ, ◌≤◌, ◌<◌, ◌≡◌, ◌∙◌, refl, sym, subst, true, false, ◌==◌, ==_iff, List, [], ◌∷◌, arith, All,
  leb,
}
use slusk.Store.Table.{count, exists, count-update, count-update_le, All-update, All-and}
use slusk.Store.Table.Counts.{count_split, count-update_off, count-update_on, count_same}
use slusk.Soulseek.Uploads.{UploadManager, id_is, has_id, set_active, take_slot, reset}
use slusk.Soulseek.Uploads.Interleaving.{mem_id}
use slusk.Soulseek.Uploads.Slots.{runs, runs_as, unmapped, Queued, Slots, All-count_zero}

pub reset-Slots : (m : UploadManager) (started : List ℕ) → Slots m started → Slots (reset m) started
unfolding reset
reset-Slots m started i =
    let off =
      count-update_off runs (λ j. exists (has_id j.id) m.by_key) (set_active false) m.heap
        (λ j h. refl) in
    record {
      counted = sym (off ∙ i.mapped);
      within = omega arith;
      ids_below =
          All-update (λ j. j.id < m.next_id) _ (set_active false) m.heap (λ j _ h. h) i.ids_below;
      started_below = i.started_below;
      unique_ids = λ id.
          rw
            (count-update (id_is id) (λ j. exists (has_id j.id) m.by_key) (set_active false) m.heap
              (λ j. refl))
            (i.unique_ids id);
      unique_keys = λ key. unfold count in omega arith;
      queued = tt;
      each_once = λ w. unfold count in omega arith;
      mapped =
          count_same (unmapped []) runs _ (λ j. unfold exists in ground arith) ∙ off ∙ i.mapped;
    }

-- Another waiting job is still queued after a start.
start-Queued :
    (m : UploadManager) (started : List ℕ) (id : ℕ) (rest : List ℕ) (w : ℕ)
    → Queued m started w
    → (w == id) ≡ false
    → Queued (take_slot m id rest) (id ∷ started) w
unfolding mem_id
start-Queued m started id rest w q other =
    let fewer =
      count-update_le (runs_as w) (id_is id) (set_active true) m.heap (λ j h k. ground arith) in
    let none_before = q.idle in
    record {
      allocated =
          count-update (id_is w) (id_is id) (set_active true) m.heap (λ j. refl) ∙ q.allocated;
      idle = omega arith;
      below = q.below;
      in_map = q.in_map;
      not_started = let before = q.not_started in ground arith;
    }

pub start-Slots :
    (m : UploadManager) (started : List ℕ) (id : ℕ) (rest : List ℕ)
    → m.waiting ≡ id ∷ rest
    → leb m.slots m.active ≡ false
    → Slots m started
    → Slots (take_slot m id rest) (id ∷ started)
start-Slots m started id rest there free i =
    let (head, tail) = subst (All (Queued m started)) there i.queued in
    let once = subst (λ ws. (w : ℕ) → count (λ k. k == w) ws ≤ 1) there i.each_once in
    let others =
      All-count_zero (λ k. k == id) rest (let o = once id in unfold count in ground arith) in
    let on = count-update_on runs (id_is id) (set_active true) m.heap (λ j h. refl) in
    let split = count_split (id_is id) runs m.heap in
    let fewer = count-update_le (unmapped m.by_key) (id_is id) (set_active true) m.heap (λ j h k.
      let same =
        subst (λ n. exists (has_id n) m.by_key ≡ true) (sym ((==_iff j.id id).0 h)) head.in_map in
      ground arith) in
    let one = head.allocated in
    let idle = head.idle in
    let counted = i.counted in
    let mapped = i.mapped in
    record {
      counted = omega arith;
      within = ground arith;
      ids_below =
          All-update (λ j. j.id < m.next_id) _ (set_active true) m.heap (λ j _ h. h) i.ids_below;
      started_below = (head.below, i.started_below);
      unique_ids = λ k.
          rw (count-update (id_is k) (id_is id) (set_active true) m.heap (λ j. refl))
            (i.unique_ids k);
      unique_keys = i.unique_keys;
      queued =
          All-and (Queued m started) (λ w. (w == id) ≡ false)
            (Queued (take_slot m id rest) (id ∷ started)) rest
            (λ w q other. start-Queued m started id rest w q other) tail others;
      each_once = λ w. let o = once w in unfold count in ground arith;
      mapped = omega arith;
    }
