-- ===== src/Pipeline/World.antt =====
-- What a module of internal/pipeline acts on: the store's tables, and a log of what it asked of the
-- peer backend, the disk and the event table, the newest entry first. The backend, the disk and the
-- other goroutines are parameters: what they answer, and what the others commit while a remote call
-- is under way, may depend on all that has happened so far.
use slusk.Prelude.{ℕ, Bool, Option, List, ◌∷◌, if◌then◌else◌}
use slusk.Prelude.Int.{ℤ}
use slusk.Prelude.Text.{Text, is_empty}
use slusk.Core.State.{TransferState}
use slusk.Store.Db.{Db}
use slusk.Store.Operation.{Operation, run}

-- JobEventType
pub data JobEventType : Type 0 where
  search search_fallback search_excluded : JobEventType
  candidate_selected candidate_rejected candidate_deferred : JobEventType
  attempt_failed attempt_succeeded transfer_stalled : JobEventType
  import_ok import_rejected dedup job_failed quarantined : JobEventType
  not_imported job_parked import_refused : JobEventType

pub data Entry : Type 0 where
  -- RecordEnqueueIntent answered with this transfer, for the user and the file.
  intent : ℕ → Text → Text → Entry
  -- Enqueue of the user's file, and its answer.
  enqueued : Text → Text → ℤ → Option Text → Entry
  -- AttachTransferID answered true for this transfer and the user's remote id.
  attached : ℕ → Text → Text → Entry
  -- Cancel and Remove of the user's remote id.
  cancelled : Text → Text → Entry
  removed : Text → Text → Entry
  folder_deleted : Text → Entry
  renamed : Text → Text → Entry
  event : ℕ → JobEventType → Text → Entry
  -- RecordAttemptOutcome of the artist's album at the user, and whether it was a success.
  outcome : ℕ → Text → Bool → Entry

pub record World : Type 0 where
  pub tables : Db
  pub log : List Entry

-- The error results of Cancel and DeleteDownloadFolder that the callers tell apart.
pub data RemoteAnswer : Type 0 where
  done : RemoteAnswer
  not_found : RemoteAnswer
  failed : RemoteAnswer

-- The fields of core.RemoteTransfer that reconcile reads.
pub record RemoteTransfer : Type 0 where
  pub id : Text
  pub username : Text
  pub filename : Text
  pub state : TransferState
  pub size : ℤ
  pub bytes_done : ℤ
  pub retryable : Bool

-- The peer backend (core's interfaces), with the transactions that others commit during an Enqueue.
pub record Backend : Type 0 where
  pub enqueue : World → Text → Text → ℤ → Option Text
  pub meanwhile : World → List Operation
  pub cancel : World → Text → Text → RemoteAnswer
  pub delete_folder : World → Text → RemoteAnswer
  pub list_downloads : World → Option (List RemoteTransfer)

-- Package fmt: %q of a text and %s of a time.Duration.
pub record Fmt : Type 0 where
  pub quote : Text → Text
  pub duration : ℕ → Text

abbrev pub write : Db → World → World
write db w = record w { tables = db }

abbrev pub note : Entry → World → World
note e w = record w { log = e ∷ w.log }

-- The world after a call of Enqueue.
unfoldable pub after_enqueue : Backend → World → Text → Text → ℤ → World
after_enqueue b w username filename size = record {
  tables = run (b.meanwhile w) w.tables;
  log = enqueued username filename size (b.enqueue w username filename size) ∷ w.log;
}

-- The world after a call of Cancel.
abbrev pub after_cancel : World → Text → Text → World
after_cancel w username id = note (cancelled username id) w

-- The world after removeFromSlskd, which asks for no id that is empty.
abbrev pub after_remove : World → Text → Text → World
after_remove w username id = if is_empty id then w else note (removed username id) w
