-- ===== src/Soulseek/Uploads.antt =====
-- internal/soulseek/uploads.go: the upload manager. A
-- *uploadJob is its index in the order of allocation, and `heap` holds the jobs that were allocated,
-- so that a job that `reset` dropped from the maps can still be completed by its goroutine.
pub mod Path
pub mod Report
pub mod Interleaving
pub mod Slots
pub mod Bounds
use slusk.Prelude.{
  ℕ, suc, ◌+◌, ◌-◌, ◌%◌, ◌^◌, ◌≡◌, Bool, true, false, not, ◌&&◌, ◌||◌, ◌==◌, Option, none, some,
  List, [], ◌∷◌, ◌++◌, if◌then◌else◌, leb, ltb, length, take, map,
}
use slusk.Prelude.Text.{Text, text_eq, is_empty}
use slusk.Soulseek.Uploads.Path.{normalize_virtual_path}
use slusk.Matcher.Path.{slash, backslash, dot, dot_dot}
use slusk.Store.Table.{update, delete, select, exists, find_row}
use slusk.Store.Jobs.{sort_by}

-- maxWaitingUploads, maxWaitingUploadsPerUser
abbrev pub max_waiting_uploads : ℕ
max_waiting_uploads = 1024

abbrev pub max_waiting_uploads_per_user : ℕ
max_waiting_uploads_per_user = 64

pub record UploadKey : Type 0 where
  pub username : Text
  pub filename : Text

abbrev pub key_eq : UploadKey → UploadKey → Bool
key_eq a b = text_eq a.username b.username && text_eq a.filename b.filename

pub record UploadJob : Type 0 where
  pub id : ℕ
  pub key : UploadKey
  pub active : Bool
  pub seq : ℕ
  pub size : ℕ
  pub sent : ℕ

-- uploadResponseWaiter; a channel is its identity.
pub record ResponseWaiter : Type 0 where
  pub username : Text
  pub responses : ℕ

pub record UploadManager : Type 0 where
  pub slots : ℕ
  pub active : ℕ
  pub waiting : List ℕ
  pub by_key : List (UploadKey × ℕ)
  pub by_token : List (ℕ × ResponseWaiter)
  pub per_user : Text → ℕ
  pub wake : Bool
  pub seq : ℕ
  pub total_written : ℕ
  pub heap : List UploadJob
  pub next_id : ℕ

-- newUploadManager
abbrev pub new_upload_manager : ℕ → UploadManager
new_upload_manager slots = record {
  slots = slots;
  active = 0;
  waiting = [];
  by_key = [];
  by_token = [];
  per_user = λ u. 0;
  wake = false;
  seq = 0;
  total_written = 0;
  heap = [];
  next_id = 0;
}

pub data Refusal : Type 0 where
  file_not_shared too_many_files : Refusal

-- An entry of byKey with this key.
abbrev pub key_is : UploadKey → UploadKey × ℕ → Bool
key_is key e = key_eq e.0 key

abbrev pub id_is : ℕ → UploadJob → Bool
id_is id j = j.id == id

abbrev pub put_count : Text → ℕ → (Text → ℕ) → Text → ℕ
put_count user n counts u = if text_eq u user then n else counts u

-- &uploadJob{key: key, seq: m.seq} after m.seq++
abbrev pub new_job : UploadManager → UploadKey → UploadJob
new_job m key = record {
  id = m.next_id;
  key = key;
  active = false;
  seq = (m.seq + 1) % 2 ^ 64;
  size = 0;
  sent = 0;
}

-- A key that is not in the map yet: its new job joins the queue.
abbrev pub add_job : UploadManager → UploadKey → UploadManager
add_job m key = record m {
  seq = (m.seq + 1) % 2 ^ 64;
  heap = m.heap ++ new_job m key ∷ [];
  next_id = suc m.next_id;
  by_key = m.by_key ++ (key, m.next_id) ∷ [];
  waiting = m.waiting ++ m.next_id ∷ [];
  per_user = put_count key.username (m.per_user key.username + 1) m.per_user;
  wake = true;
}

-- The critical section of enqueue, and notify.
unfoldable pub enqueue_key : UploadManager → UploadKey → UploadManager × Option Refusal
enqueue_key m key =
    if exists (key_is key) m.by_key
    then (m, none)
    else if leb max_waiting_uploads (length m.waiting)
        || leb max_waiting_uploads_per_user (m.per_user key.username)
    then (m, some too_many_files)
    else (add_job m key, none)

-- enqueue; `shared` tells the files of the share snapshot.
unfoldable pub enqueue :
    (Text → Bool) → UploadManager → Text → Text → UploadManager × Option Refusal
unfolding enqueue_key normalize_virtual_path
enqueue shared m username filename = elim (normalize_virtual_path filename) [
  | none ↦ (m, some file_not_shared)
  | some normalized ↦
      if shared normalized
      then enqueue_key m (record { username = username; filename = normalized })
      else (m, some file_not_shared)
]

-- availability
unfoldable pub availability : UploadManager → Bool × ℕ
availability m = (ltb m.active m.slots && length m.waiting == 0, length m.waiting)

-- throughputSnapshot
unfoldable pub throughput_snapshot : UploadManager → ℕ × ℕ
throughput_snapshot m = (m.total_written, m.active)

-- The loop of position over the queue; a place is a uint32.
unfoldable pub place_of : ℕ → ℕ → List ℕ → Option ℕ
place_of i id [] = none
place_of i id (w ∷ ws) =
    let rest = place_of (suc i) id ws in if w == id then some ((i + 1) % 2 ^ 32) else rest

-- position: none for a file that is neither active nor waiting
unfoldable pub position : UploadManager → UploadKey → Option ℕ
unfolding place_of
position m key = elim (find_row (key_is key) m.by_key) [
  | none ↦ none
  | some e ↦ elim (find_row (id_is e.1) m.heap) [
    | none ↦ none
    | some j ↦ if j.active then some 0 else place_of 0 j.id m.waiting
  ]
]

abbrev pub set_active : Bool → UploadJob → UploadJob
set_active b j = record j { active = b }

abbrev pub take_slot : UploadManager → ℕ → List ℕ → UploadManager
take_slot m id rest = record m {
  waiting = rest;
  heap = update (id_is id) (set_active true) m.heap;
  active = m.active + 1;
}

-- dispatch, up to the start of the job's goroutine: the job at the head of the queue takes a slot.
unfoldable pub start : UploadManager → Option (UploadManager × ℕ)
start m =
    if leb m.slots m.active
    then none
    else elim m.waiting [ [] ↦ none | id ∷ rest ↦ some (take_slot m id rest, id) ]

abbrev pub has_id : ℕ → UploadKey × ℕ → Bool
has_id id e = e.1 == id

-- reset
unfoldable pub reset : UploadManager → UploadManager
reset m = record m {
  heap = update (λ j. exists (has_id j.id) m.by_key) (set_active false) m.heap;
  active = 0;
  waiting = [];
  by_key = [];
  by_token = [];
  per_user = λ u. 0;
}

abbrev pub owns_key : ℕ → Option (UploadKey × ℕ) → Bool
owns_key id none = false
owns_key id (some e) = e.1 == id

-- complete, the entry of byKey. The source deletes a count of zero, which reads as zero.
unfoldable pub release_key : UploadManager → UploadJob → UploadManager
release_key m job =
    if owns_key job.id (find_row (key_is job.key) m.by_key)
    then record m {
      by_key = delete (key_is job.key) m.by_key;
      per_user = put_count job.key.username (m.per_user job.key.username - 1) m.per_user;
    }
    else m

-- complete, the slot
unfoldable pub release_slot : UploadManager → UploadJob → UploadManager
release_slot m job =
    if job.active
    then record m { heap = update (id_is job.id) (set_active false) m.heap; active = m.active - 1 }
    else m

-- complete, and notify
unfoldable pub complete : UploadManager → ℕ → UploadManager
unfolding release_key release_slot
complete m id = elim (find_row (id_is id) m.heap) [
  | none ↦ m
  | some job ↦ record (release_slot (release_key m job) job) { wake = true }
]

-- registerToken
unfoldable pub register_token : UploadManager → ℕ → Text → ℕ → UploadManager
register_token m token username responses = record m {
  by_token =
      (token, record { username = username; responses = responses })
      ∷ delete (λ e. e.0 == token) m.by_token;
}

-- unregisterToken
unfoldable pub unregister_token : UploadManager → ℕ → ℕ → UploadManager
unregister_token m token responses = elim (find_row (λ e. e.0 == token) m.by_token) [
  | none ↦ m
  | some e ↦
      if e.1.responses == responses
      then record m { by_token = delete (λ x. x.0 == token) m.by_token }
      else m
]

-- deliver: the channel that takes the response, if it has room
unfoldable pub deliver : UploadManager → Text → ℕ → Option ℕ
deliver m username token = elim (find_row (λ e. e.0 == token) m.by_token) [
  | none ↦ none
  | some e ↦ if text_eq e.1.username username then some e.1.responses else none
]
