-- ===== src/Soulseek/Uploads/Interleaving.antt =====
-- internal/soulseek/uploads.go: the interleavings of the critical sections under the manager's mutex.
use slusk.Prelude.{ℕ, ◌≡◌, Bool, true, false, ◌||◌, ◌==◌, some, List, [], ◌∷◌}
use slusk.Soulseek.Uploads.{UploadManager, UploadKey, enqueue_key, start, complete, reset}

-- The manager, and the jobs whose goroutine was started: only those are ever completed.
pub record UploadState : Type 0 where
  pub manager : UploadManager
  pub started : List ℕ

unfoldable pub mem_id : ℕ → List ℕ → Bool
mem_id id [] = false
mem_id id (i ∷ is) = i == id || mem_id id is

-- One critical section of any goroutine: a peer enqueues, the dispatcher starts a job, or gives up on
-- one whose goroutine cannot start and resets, a goroutine completes its job, or the dispatcher ends.
pub data Step : UploadState → UploadState → Type 0 where
  enqueues :
      (m : UploadManager) (started : List ℕ) (key : UploadKey)
      → Step
          (record { manager = m; started = started })
          (record { manager = (enqueue_key m key).0; started = started })
  starts :
      (m next : UploadManager) (started : List ℕ) (id : ℕ)
      → start m ≡ some (next, id)
      → Step
          (record { manager = m; started = started })
          (record { manager = next; started = id ∷ started })
  refuses :
      (m next : UploadManager) (started : List ℕ) (id : ℕ)
      → start m ≡ some (next, id)
      → Step
          (record { manager = m; started = started })
          (record { manager = reset (complete next id); started = started })
  completes :
      (m : UploadManager) (started : List ℕ) (id : ℕ)
      → mem_id id started ≡ true
      → Step
          (record { manager = m; started = started })
          (record { manager = complete m id; started = started })
  resets :
      (m : UploadManager) (started : List ℕ)
      → Step
          (record { manager = m; started = started })
          (record { manager = reset m; started = started })

pub data Steps : UploadState → UploadState → Type 0 where
  done : (s : UploadState) → Steps s s
  step : (s t u : UploadState) → Steps s t → Step t u → Steps s u
