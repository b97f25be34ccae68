-- ===== src/Soulseek/Tests.antt =====
-- The upload manager at concrete keys.
use slusk.Prelude.{◌≡◌, ◌≤◌, refl, some, none, [], ◌∷◌, arith}
use slusk.Prelude.Text.{codes, text_eq}
use slusk.Store.Table.{count, exists, find_row, update}
use slusk.Soulseek.Uploads.{UploadKey, enqueue_key, start, take_slot, new_upload_manager, position}
use slusk.Soulseek.Uploads.Interleaving.{UploadState, Steps, enqueues, starts, done, step}
use slusk.Soulseek.Uploads.Path.{normalize_virtual_path}
use slusk.Soulseek.Uploads.Bounds.{Bounded, Steps-Bounded}
use slusk.Soulseek.Uploads.Slots.{runs}
use slusk.Soulseek.Uploads.Slots.Steps.{Steps-active}

abbrev song : UploadKey
song = record { username = codes "peer"; filename = codes "Music\\01.flac" }

abbrev fresh : UploadState
fresh = record { manager = new_upload_manager 1; started = [] }

abbrev queued : UploadState
queued = record { manager = (enqueue_key (new_upload_manager 1) song).0; started = [] }

abbrev running : UploadState
running = record {
  manager = take_slot (enqueue_key (new_upload_manager 1) song).0 0 [];
  started = 0 ∷ [];
}

starts_song :
    start (enqueue_key (new_upload_manager 1) song).0
    ≡ some (take_slot (enqueue_key (new_upload_manager 1) song).0 0 [], 0)
unfolding start enqueue_key exists
starts_song = refl

song-Steps : Steps fresh running
song-Steps =
    step fresh queued running
      (step fresh fresh queued (done fresh) (enqueues fresh.manager [] song))
      (starts queued.manager running.manager [] 0 starts_song)

Steps-active_example :
    (running.manager.active ≡ count runs running.manager.heap)
    × (running.manager.active ≤ running.manager.slots)
Steps-active_example = Steps-active 1 running song-Steps

fresh_Bounded : Bounded fresh.manager
fresh_Bounded = (omega arith, λ user. omega arith)

Steps-Bounded_example : Bounded running.manager
Steps-Bounded_example = Steps-Bounded fresh running song-Steps fresh_Bounded

-- A path with a traversal part is refused, and slashes become backslashes.
normalize_traversal : normalize_virtual_path (codes "Music/../x") ≡ none
unfolding normalize_virtual_path exists text_eq
normalize_traversal = refl

normalize_slash : normalize_virtual_path (codes "Music/x") ≡ some (codes "Music\\x")
unfolding normalize_virtual_path exists text_eq
normalize_slash = refl

-- The head of the queue has place 1, and an active upload place 0.
position_queued : position (enqueue_key (new_upload_manager 1) song).0 song ≡ some 1
unfolding position enqueue_key exists text_eq find_row
position_queued = refl

position_running : position running.manager song ≡ some 0
unfolding position enqueue_key exists text_eq find_row update
position_running = refl
