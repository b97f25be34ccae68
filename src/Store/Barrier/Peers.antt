-- ===== src/Store/Barrier/Peers.antt =====
-- What the peer client and the transfer poller can do behind the cancellation barrier: the
-- operations of internal/store on transfers, in any order.
use slusk.Prelude.{
  ℕ, ◌≡◌, ◌∙◌, refl, Bool, true, false, not, ◌&&◌, ◌==◌, ==_iff, some, List, [], ◌∷◌, arith,
  Bool-cases, Option-cases, inl, inr, subst, sym, &&-parts, some_eq,
}
use slusk.Prelude.Int.{ℤ}
use slusk.Prelude.Text.{Text}
use slusk.Core.State.{AlbumJobState, TransferState, state_eq, is_live}
use slusk.Core.Models.{AlbumJob, Candidate, Transfer}
use slusk.Store.Table.{update, exists, count, find_row, exists-append, count-exists}
use slusk.Store.Table.Counts.{find_row-count}
use slusk.Store.Db.{
  Db, job_is, job_in, candidate_is, transfer_of, has_key, owns_live, update_jobs, update_transfers,
}
use slusk.Store.Retry.{only, park_job_for_candidate, park_locked, live_transfer}
use slusk.Store.Transfers.{
  owner_state, barred, record_enqueue_intent, upsert_intent, queued_transfer, live_key,
  attach_transfer_id, update_transfer_progress, retry_transfer, live_of,
}
use slusk.Store.Integrity.{UniqueIds}

-- The writes on transfers outside a job's own transitions.
pub data PeerOperation : Type 0 where
  intends : ℕ → Text → Text → ℕ → ℕ → PeerOperation
  attaches : ℕ → Text → ℕ → PeerOperation
  progresses : ℕ → TransferState → ℤ → ℤ → ℕ → PeerOperation
  retries : ℕ → ℕ → PeerOperation
  parks : ℕ → ℕ → TransferState → ℤ → ℤ → ℕ → PeerOperation

unfoldable pub peer_apply : PeerOperation → Db → Db
peer_apply (intends c u f deadline now) db = (record_enqueue_intent db c u f deadline now).0
peer_apply (attaches t remote now) db = (attach_transfer_id db t remote now).0
peer_apply (progresses t to n total now) db = update_transfer_progress db t to n total now
peer_apply (retries t now) db = retry_transfer db t now
peer_apply (parks t c to n total now) db = (park_job_for_candidate db t c to n total now).0

unfoldable pub peer_run : List PeerOperation → Db → Db
unfolding peer_apply
peer_run [] db = db
peer_run (op ∷ ops) db = peer_run ops (peer_apply op db)

abbrev pub uncancelled_job : ℕ → AlbumJob → Bool
uncancelled_job job j = job_is job j && not (state_eq j.state AlbumJobState.cancelled)

-- All rows of the job are CANCELLED, and its candidates have no live transfer.
abbrev pub Closed : List Candidate → ℕ → Db → Type 0
Closed candidates job db =
    (db.candidates ≡ candidates)
    × (exists (uncancelled_job job) db.jobs ≡ false)
    × (exists (live_of db job) db.transfers ≡ false)

exists-update_sub {ℓ} :
    {A : Type ℓ} (q p : A → Bool) (f : A → A) (xs : List A)
    → ((x : A) → p x ≡ true → q (f x) ≡ true → q x ≡ true)
    → exists q xs ≡ false
    → exists q (update p f xs) ≡ false
unfolding exists update
exists-update_sub q p f [] sub h = refl
exists-update_sub q p f (x ∷ xs) sub h = ground (arith, sub x, exists-update_sub q p f xs sub)

-- An update of live transfers that keeps their candidate.
pub update-Closed :
    (candidates : List Candidate) (job : ℕ) (p : Transfer → Bool) (f : Transfer → Transfer)
    (db : Db)
    → ((t : Transfer) → p t ≡ true → is_live t.state ≡ true)
    → ((t : Transfer) → (f t).candidate_id ≡ t.candidate_id)
    → Closed candidates job db
    → Closed candidates job (update_transfers p f db)
unfolding update_transfers transfer_of
update-Closed candidates job p f db live same c = (
  c.0,
  c.1,
  exists-update_sub (live_of db job) p f db.transfers
      (λ t h k.
        let alive = live t h in
        let owned = &&-parts (transfer_of (only job) db.candidates (f t)) (is_live (f t).state) k in
        let before =
          subst (λ n. exists (λ c. c.id == n && only job c.album_job_id) db.candidates ≡ true)
            (same t) owned.0 in
        ground arith)
      c.2,
)

exists_sub {ℓ} :
    {A : Type ℓ} (q r : A → Bool) (xs : List A)
    → ((x : A) → q x ≡ true → r x ≡ true)
    → exists r xs ≡ false
    → exists q xs ≡ false
unfolding exists
exists_sub q r [] sub h = refl
exists_sub q r (x ∷ xs) sub h = ground (arith, sub x, exists_sub q r xs sub)

-- A candidate of another job is no candidate of this one.
other_owner :
    (candidates : List Candidate) (k job : ℕ) (c : Candidate)
    → UniqueIds candidates
    → find_row (candidate_is k) candidates ≡ some c
    → (c.album_job_id == job) ≡ false
    → exists (λ x. x.id == k && only job x.album_job_id) candidates ≡ false
unfolding find_row exists
other_owner [] k job c unique found other = refl
other_owner (x ∷ xs) k job c unique found other = elim (Bool-cases (x.id == k)) [
  | inl e ↦
      let same = some_eq (rw (e, find_row) at found) in
      let album = subst (λ y. (y.album_job_id == job) ≡ false) (sym same) other in
      let key = subst (λ n. exists (candidate_is n) xs ≡ false) ((==_iff x.id k).0 e) unique.0 in
      let rest =
        exists_sub (λ y. y.id == k && only job y.album_job_id) (candidate_is k) xs
          (λ y h. (&&-parts (y.id == k) _ h).0) key in
      rw (album, rest) (ground arith)
  | inr e ↦ ground (arith, e, other_owner xs k job c unique.1)
]

-- The owner of a candidate that is not behind the barrier.
pub open_owner :
    (candidates : List Candidate) (job candidate : ℕ) (db : Db)
    → UniqueIds candidates
    → Closed candidates job db
    → barred (owner_state db candidate) ≡ false
    → exists (λ c. c.id == candidate && only job c.album_job_id) db.candidates ≡ false
unfolding owner_state
open_owner candidates job candidate db unique c through =
    elim (Option-cases (find_row (candidate_is candidate) db.candidates)) [
      | inl e ↦ cc (rw (e, owner_state) at through)
      | inr (k, e) ↦ elim (Option-cases (find_row (job_is k.album_job_id) db.jobs)) [
        | inl f ↦ cc (rw (e, f, owner_state) at through)
        | inr (j, f) ↦
            let running = rw (e, f, owner_state) at through in
            other_owner db.candidates candidate job k (subst UniqueIds (sym c.0) unique) e
              (elim (Bool-cases (k.album_job_id == job)) [
                | inl g ↦
                    let found =
                      subst (λ n. find_row (job_is n) db.jobs ≡ some j)
                        ((==_iff k.album_job_id job).0 g) f in
                    let there = count-exists (uncancelled_job job) db.jobs (
                      find_row-count (job_is job)
                        (λ r. not (state_eq r.state AlbumJobState.cancelled)) db.jobs j found
                        (ground (arith, running))) in
                    let closed = c.1 in cc
                | inr g ↦ g
              ])
      ]
    ]

pub upsert_intent-Closed :
    (candidates : List Candidate) (job candidate : ℕ) (username filename : Text) (deadline now : ℕ)
    (db : Db)
    → exists (λ c. c.id == candidate && only job c.album_job_id) db.candidates ≡ false
    → Closed candidates job db
    → Closed candidates job (upsert_intent db candidate username filename deadline now).0
unfolding upsert_intent transfer_of
upsert_intent-Closed candidates job candidate username filename deadline now db other c =
    elim (Option-cases (find_row (has_key candidate username filename) db.transfers)) [
      | inl e ↦
          rw (e, upsert_intent)
            (elim (Bool-cases (exists (owns_live username filename) db.transfers)) [
              | inl f ↦ rw f c
              | inr f ↦ rw f (
                c.0,
                c.1,
                exists-append (live_of db job) db.transfers (
                      queued_transfer db.next_transfer candidate username filename deadline now
                      ∷ [])
                    ∙ (let closed = c.2 in unfold exists in ground (arith, other)),
              )
            ])
      | inr (t, e) ↦
          rw (e, upsert_intent)
            (elim (Bool-cases (is_live t.state)) [
              | inl f ↦ rw f (
                  update-Closed candidates job (live_key candidate username filename) _ db
                    (λ r h. (&&-parts (has_key candidate username filename r) _ h).1) (λ r. refl) c)
              | inr f ↦ rw f c
            ])
    ]

park_jobs-Closed :
    (candidates : List Candidate) (job other now : ℕ) (db : Db)
    → Closed candidates job db
    → Closed candidates job (
        update_jobs
          (job_in other AlbumJobState.downloading)
          (λ j. record j { state = AlbumJobState.parked; updated_at = now })
          db)
unfolding update_jobs transfer_of
park_jobs-Closed candidates job other now db c = (
  c.0,
  exists-update_sub (uncancelled_job job) (job_in other AlbumJobState.downloading)
      (λ j. record j { state = AlbumJobState.parked; updated_at = now }) db.jobs
      (λ j h k. ground arith) c.1,
  c.2,
)

pub park_locked-Closed :
    (candidates : List Candidate) (job : ℕ) (j : AlbumJob) (t c : ℕ) (to : TransferState)
    (bytes total : ℤ) (now : ℕ) (db : Db)
    → Closed candidates job db
    → Closed candidates job (park_locked db j t c to bytes total now).0
unfolding park_locked
park_locked-Closed candidates job j t c to bytes total now db closed =
    let written =
      update-Closed candidates job (live_transfer t c) _ db
        (λ r h. (&&-parts (r.candidate_id == c) _ (&&-parts (r.id == t) _ h).1).1) (λ r. refl)
        closed in
    elim (Bool-cases (count (live_transfer t c) db.transfers == 0)) [
      | inl e ↦ rw (e, park_locked) closed
      | inr e ↦
          rw (e, park_locked)
            (elim (Bool-cases (state_eq j.state AlbumJobState.downloading)) [
              | inl f ↦ rw f (park_jobs-Closed candidates job j.id now _ written)
              | inr f ↦ rw f written
            ])
    ]
