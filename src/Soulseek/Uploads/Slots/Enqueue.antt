-- ===== src/Soulseek/Uploads/Slots/Enqueue.antt =====
-- enqueue keeps the slot invariant.
use slusk.Prelude.{
  ℕ, ◌<◌, ◌≡◌, ◌∙◌, refl, sym, subst, true, false, ◌==◌, ==_iff, List, [], ◌∷◌, ◌++◌, arith,
  Bool-cases, inl, inr, All, All-append, All-mono, All-All, &&-parts,
}
use slusk.Prelude.Text.{text_eq, text_eq→≡}
use slusk.Store.Table.{count, exists, count-append, exists-append, count_none, count_zero}
use slusk.Store.Table.Counts.{count_le_sum, count_split}
use slusk.Soulseek.Uploads.{
  UploadManager, UploadKey, key_is, key_eq, id_is, has_id, new_job, add_job,
}
use slusk.Soulseek.Uploads.Interleaving.{mem_id}
use slusk.Soulseek.Uploads.Slots.{runs, runs_as, unmapped, Queued, Slots}

-- No allocated job has the next id.
next_fresh :
    (m : UploadManager) (started : List ℕ) → Slots m started → count (id_is m.next_id) m.heap ≡ 0
next_fresh m started i =
    count_none (id_is m.next_id) m.heap
      (All-mono (λ j. j.id < m.next_id) _ m.heap (λ j h. ground (arith, h)) i.ids_below)

not_started_yet : (started : List ℕ) (n : ℕ) → All (λ i. i < n) started → mem_id n started ≡ false
unfolding mem_id
not_started_yet [] n h = refl
not_started_yet (i ∷ is) n h = ground (arith, h.0, not_started_yet is n h.1)

-- A waiting job is still queued when another joins.
enqueue-Queued :
    (m : UploadManager) (started : List ℕ) (key : UploadKey) (w : ℕ)
    → Queued m started w
    → Queued (add_job m key) started w
enqueue-Queued m started key w q =
    let below = q.below in
    let one = count-append (id_is w) m.heap (new_job m key ∷ []) in
    let idle = count-append (runs_as w) m.heap (new_job m key ∷ []) in
    let had = q.allocated in
    let was = q.idle in
    let map = exists-append (has_id w) m.by_key ((key, m.next_id) ∷ []) in
    let inside = q.in_map in
    record {
      allocated = one ∙ (unfold count in ground arith);
      idle = idle ∙ (unfold count in ground arith);
      below = omega arith;
      in_map = map ∙ (ground arith);
      not_started = q.not_started;
    }

new-Queued :
    (m : UploadManager) (started : List ℕ) (key : UploadKey)
    → Slots m started
    → Queued (add_job m key) started m.next_id
new-Queued m started key i =
    let fresh = next_fresh m started i in
    let split = count_split (id_is m.next_id) runs m.heap in
    let one = count-append (id_is m.next_id) m.heap (new_job m key ∷ []) in
    let idle = count-append (runs_as m.next_id) m.heap (new_job m key ∷ []) in
    let map = exists-append (has_id m.next_id) m.by_key ((key, m.next_id) ∷ []) in
    record {
      allocated = one ∙ (unfold count in ground arith);
      idle = idle ∙ (unfold count in ground arith);
      below = omega arith;
      in_map = map ∙ (unfold exists in ground arith);
      not_started = not_started_yet started m.next_id i.started_below;
    }

key_eq→≡ : (a b : UploadKey) → key_eq a b ≡ true → a ≡ b
key_eq→≡ a b h =
    let both = &&-parts (text_eq a.username b.username) _ h in
    let users = text_eq→≡ a.username b.username both.0 in
    let files = text_eq→≡ a.filename b.filename both.1 in cc

pub enqueue-Slots :
    (m : UploadManager) (started : List ℕ) (key : UploadKey)
    → exists (key_is key) m.by_key ≡ false
    → Slots m started
    → Slots (add_job m key) started
enqueue-Slots m started key free i =
    let fresh = next_fresh m started i in
    let running = count-append runs m.heap (new_job m key ∷ []) in
    let counted = i.counted in
    let lost =
      count_le_sum (unmapped (m.by_key ++ (key, m.next_id) ∷ [])) (unmapped m.by_key) (λ j. false)
        m.heap
        (λ j h.
          let more = exists-append (has_id j.id) m.by_key ((key, m.next_id) ∷ []) in
          ground arith) in
    let never = count_none (λ j. false) m.heap (All-All _ m.heap (λ j. refl)) in
    let mapped = i.mapped in
    let mapped_new =
      count-append (unmapped (m.by_key ++ (key, m.next_id) ∷ [])) m.heap (new_job m key ∷ []) in
    record {
      counted = counted ∙ sym (running ∙ (unfold count in ground arith));
      within = i.within;
      ids_below =
          All-append _ m.heap _
            (All-mono (λ j. j.id < m.next_id) _ m.heap (λ j h. omega (arith, h)) i.ids_below)
            (omega arith, tt);
      started_below =
          All-mono (λ k. k < m.next_id) _ started (λ k h. omega (arith, h)) i.started_below;
      unique_ids = λ k.
          let one = count-append (id_is k) m.heap (new_job m key ∷ []) in
          let before = i.unique_ids k in
          elim (Bool-cases (m.next_id == k)) [
            | inl e ↦
                let none_yet =
                  subst (λ n. count (id_is n) m.heap ≡ 0) ((==_iff m.next_id k).0 e) fresh in
                rw one (unfold count in ground arith)
            | inr e ↦ rw one (unfold count in ground arith)
          ];
      unique_keys = λ k.
          let one = count-append (key_is k) m.by_key ((key, m.next_id) ∷ []) in
          let before = i.unique_keys k in
          elim (Bool-cases (key_eq key k)) [
            | inl e ↦
                let none_yet =
                  subst (λ n. count (key_is n) m.by_key ≡ 0) (key_eq→≡ key k e)
                    (count_zero (key_is key) m.by_key free) in
                rw one (unfold count in ground arith)
            | inr e ↦ rw one (unfold count in ground arith)
          ];
      queued =
          All-append _ m.waiting _
            (All-mono (Queued m started) _ m.waiting (λ w q. enqueue-Queued m started key w q)
              i.queued)
            (new-Queued m started key i, tt);
      each_once = λ w.
          let one = count-append (λ k. k == w) m.waiting (m.next_id ∷ []) in
          let before = i.each_once w in
          elim (Bool-cases (m.next_id == w)) [
            | inl e ↦
                let none_yet =
                  count_none (λ k. k == w) m.waiting
                    (All-mono (Queued m started) _ m.waiting
                      (λ k q. let b = q.below in ground arith) i.queued) in
                rw one (unfold count in ground arith)
            | inr e ↦ rw one (unfold count in ground arith)
          ];
      mapped = mapped_new ∙ (unfold count in ground arith);
    }
