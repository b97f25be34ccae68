-- ===== src/Pipeline/TickTests.antt =====
-- The theorems on the ticks of the modules, at concrete worlds.
use slusk.Prelude.{ℕ, ◌+◌, ◌≤◌, ◌≡◌, refl, true, false, none, some, List, [], ◌∷◌, ◌++◌, arith}
use slusk.Prelude.Int.{pos}
use slusk.Prelude.Text.{codes, text_eq}
use slusk.Core.State.{AlbumJobState, CandidateState, JobSource, TransferState}
use slusk.Core.Models.{AlbumJob, Candidate, CandidateFile, Transfer}
use slusk.Store.Table.{count, exists, find_row, select, best, update}
use slusk.Store.Db.{Db, update_candidates, update_transfers, candidate_is, job_is}
use slusk.Store.Jobs.{sort_by, text_lt}
use slusk.Store.Operation.{empty_db, run}
use slusk.Store.Activation.{manual_job, manual_candidate}
use slusk.Store.Candidates.{active_candidate, next_new_candidate}
use slusk.Store.Transfers.{
  queued_transfer, record_enqueue_intent, recorded, barred, transfer_owner_state,
}
use slusk.Pipeline.World.{World, Backend, Fmt, done, after_enqueue}
use slusk.Pipeline.Quarantine.{Disk}
use slusk.Pipeline.TopUp.{
  TopUpSettings, top_up_candidate, transfers_for_candidate, inflight_of, defer_for_folder,
  send_file,
}
use slusk.Pipeline.TopUp.Moved.{reservation_world}
use slusk.Pipeline.TopUp.Deferral.{waiting_state, defer_for_folder-waiting_state}
use slusk.Pipeline.Downloading.Verdicts.{ActiveIn, JobIn}
use slusk.Pipeline.TopUp.Calls.{CallsKept}
use slusk.Pipeline.TopUp.Bounds.{top_up_candidate-calls, top_up_candidate-max_inflight}
use slusk.Pipeline.Selecting.{SelectingSettings, Outside, select_job}
use slusk.Pipeline.Selecting.Expired.{Fresh, select_job-Fresh}
use slusk.Pipeline.Selecting.Tables.{verdict_world}
use slusk.Pipeline.Selecting.Branches.{exhausted_state, select_job-exhausted_state}
use slusk.Pipeline.Downloading.Resolve.{
  DownloadingSettings, downloading_tick, resolve_downloading_job,
}
use slusk.Pipeline.Downloading.Moved.{downloading_tick-Moves}
use slusk.Pipeline.Moves.{Passes}
use slusk.Pipeline.TopUp.Outcome.{
  send_file-Answered, Answered, recorded_intent, after_send, peer_answer, send_world, id_is,
}
use slusk.Pipeline.Downloading.Verdicts.Resolved.{verdict, resolve_downloading_job-verdict}

-- A backend that takes every file under one id, and confirms every other call.
abbrev willing : Backend
willing = record {
  enqueue = λ w u f n. some (codes "id");
  meanwhile = λ w. [];
  cancel = λ w u id. done;
  delete_folder = λ w leaf. done;
  list_downloads = λ w. some [];
}

abbrev plain : Fmt
plain = record { quote = λ s. s; duration = λ n. [] }

abbrev empty_disk : Disk
empty_disk = record {
  rel = λ root path. none;
  is_there = λ w path. false;
  is_free = λ w path. true;
  mkdir_all = λ w path. true;
  rename = λ w src dst. true;
  unix_now = λ w. 0;
}

abbrev two_at_once : TopUpSettings
two_at_once = record {
  max_inflight_per_peer = 2;
  max_transfer_retries = 3;
  transfer_deadline = 600;
}

abbrev selecting : SelectingSettings
selecting = record {
  max_active = 5;
  policy = record { max_retries = 3; base = 60; cap = 86400 };
  candidate_ttl = 86400;
  top_up = two_at_once;
  complete_dir = codes "/music";
}

abbrev downloading : DownloadingSettings
downloading = record {
  max_active = 5;
  reconciling = record { max_transfer_retries = 3; transfer_deadline = 600; stall_timeout = 300 };
  top_up = two_at_once;
}

abbrev outside : Outside
outside = record { fmt = plain; backend = willing; disk = empty_disk }

abbrev track : ℕ → CandidateFile
track n = record { filename = codes "Music\\Album\\" ++ (n ∷ codes ".flac"); size = pos 1000 }

abbrev job : AlbumJob
job = manual_job 1 (codes "Album") (codes "Artist") [] 10

abbrev candidate : Candidate
candidate = manual_candidate 1 1 (codes "peer") (track 49 ∷ track 50 ∷ track 51 ∷ []) 10

abbrev transfer : ℕ → TransferState → Transfer
transfer n state = record (queued_transfer n 1 (codes "peer") (track (48 + n)).filename 500 10) {
  state = state;
}

abbrev db_with : List Transfer → Db
db_with transfers = record empty_db {
  jobs = job ∷ [];
  candidates = candidate ∷ [];
  transfers = transfers;
  next_job = 2;
  next_candidate = 2;
  next_transfer = 4;
}

-- One file in flight, and two that wait.
abbrev waiting_world : World
waiting_world = record {
  tables = db_with (
      transfer 1 TransferState.queued
      ∷ transfer 2 TransferState.pending
      ∷ transfer 3 TransferState.pending
      ∷ []);
  log = [];
}

-- The whole candidate is there.
abbrev complete_world : World
complete_world = record {
  tables = db_with (transfer 1 TransferState.completed ∷ transfer 2 TransferState.completed ∷ []);
  log = [];
}

top_up_candidate_calls_example :
    CallsKept []
      (top_up_candidate two_at_once plain willing 1 1 20 waiting_world).world.log
      (top_up_candidate two_at_once plain willing 1 1 20 waiting_world).sent
top_up_candidate_calls_example =
    top_up_candidate-calls two_at_once plain willing 1 1 20 waiting_world

one_in_flight : inflight_of (transfers_for_candidate waiting_world.tables 1) ≤ 2
unfolding transfers_for_candidate count select
one_in_flight = omega arith

top_up_candidate_max_inflight_example :
    inflight_of (transfers_for_candidate waiting_world.tables 1)
      + (top_up_candidate two_at_once plain willing 1 1 20 waiting_world).sent
    ≤ 2
top_up_candidate_max_inflight_example =
    top_up_candidate-max_inflight two_at_once plain willing 1 1 20 waiting_world one_in_flight

-- One more file is sent, behind its intent.
top_up_run : (top_up_candidate two_at_once plain willing 1 1 20 waiting_world).sent ≡ 1
unfolding top_up_candidate count select sort_by text_lt exists best find_row update_candidates
    update run update_transfers
top_up_run = refl

quiet : (v : World) → willing.meanwhile v ≡ []
quiet v = refl

found_job : find_row (job_is 1) waiting_world.tables.jobs ≡ some job
unfolding find_row
found_job = refl

downloading_tick_example :
    (k : AlbumJob) × (find_row
        (job_is 1)
        (downloading_tick downloading plain willing 20 waiting_world).0.tables.jobs
      ≡ some k)
    × Passes job k
downloading_tick_example =
    downloading_tick-Moves downloading plain willing 20 waiting_world quiet 1 job found_job

-- The second file of the candidate, whose retries are used up, and a peer that refuses it.
abbrev last_try : Transfer
last_try = record (transfer 2 TransferState.pending) { retries = 3 }

abbrev last_world : World
last_world = record { tables = db_with (last_try ∷ []); log = [] }

abbrev unwilling : Backend
unwilling = record willing { enqueue = λ w u f n. none }

abbrev enqueued_row : Transfer
enqueued_row = record last_try { state = TransferState.queued; deadline = 620; updated_at = 20 }

last_recorded : (recorded_intent two_at_once 1 20 last_try last_world).1 ≡ recorded 2
unfolding record_enqueue_intent text_eq find_row
last_recorded = refl

last_found :
    find_row
      (id_is 2)
      (after_send unwilling last_try 2 last_world
        (recorded_intent two_at_once 1 20 last_try last_world).0).tables.transfers
    ≡ some enqueued_row
unfolding record_enqueue_intent text_eq find_row after_enqueue run update_transfers update
last_found = refl

last_unbarred :
    barred (
      transfer_owner_state
        (after_send unwilling last_try 2 last_world
          (recorded_intent two_at_once 1 20 last_try last_world).0).tables
        2)
    ≡ false
unfolding record_enqueue_intent text_eq find_row after_enqueue run update_transfers update
    transfer_owner_state
last_unbarred = refl

send_file_example :
    Answered two_at_once last_try 2 enqueued_row
      (peer_answer unwilling last_try 2 last_world
        (recorded_intent two_at_once 1 20 last_try last_world).0)
      (send_world (send_file two_at_once unwilling 1 20 last_try last_world)).tables
send_file_example =
    send_file-Answered two_at_once unwilling 1 20 last_try last_world 2 enqueued_row last_recorded
      last_found refl last_unbarred

found_candidate : active_candidate complete_world.tables 1 ≡ some candidate
unfolding active_candidate find_row
found_candidate = refl

job_downloading : JobIn complete_world.tables 1 AlbumJobState.downloading
unfolding find_row
job_downloading = (job, refl, refl)

resolve_downloading_job_example :
    JobIn
      (resolve_downloading_job willing job 20 complete_world).0.tables
      1
      (verdict job (transfers_for_candidate complete_world.tables 1))
resolve_downloading_job_example =
    resolve_downloading_job-verdict willing job candidate 20 complete_world found_candidate
      job_downloading

-- Without an album to import into, the files stay where they are.
verdict_run :
    verdict job (transfers_for_candidate complete_world.tables 1) ≡ AlbumJobState.not_imported
unfolding verdict transfers_for_candidate count select
verdict_run = refl

abbrev selecting_job : AlbumJob
selecting_job = record job { state = AlbumJobState.selecting }

abbrev exhausted_world : World
exhausted_world = record {
  tables = record empty_db { jobs = selecting_job ∷ []; next_job = 2 };
  log = [];
}

job_selecting : JobIn exhausted_world.tables 1 AlbumJobState.selecting
unfolding find_row
job_selecting = (selecting_job, refl, refl)

no_candidate : next_new_candidate exhausted_world.tables 1 ≡ none
unfolding next_new_candidate best select
no_candidate = refl

select_job_example :
    JobIn
      (verdict_world (select_job selecting outside selecting_job 20 exhausted_world)).tables
      1
      (exhausted_state selecting.policy selecting_job)
select_job_example =
    select_job-exhausted_state selecting outside selecting_job 20 exhausted_world no_candidate
      job_selecting

-- A Lidarr job in its second cycle, whose candidate is older than the time to live.
abbrev lidarr_job : AlbumJob
lidarr_job = record selecting_job { source = JobSource.lidarr; retries = 1 }

abbrev old_candidate : Candidate
old_candidate = record candidate { state = CandidateState.new }

abbrev old_world : World
old_world = record {
  tables = record (db_with []) { jobs = lidarr_job ∷ []; candidates = old_candidate ∷ [] };
  log = [];
}

found_old : next_new_candidate old_world.tables 1 ≡ some old_candidate
unfolding next_new_candidate best select
found_old = refl

found_lidarr : find_row (job_is 1) old_world.tables.jobs ≡ some lidarr_job
unfolding find_row
found_lidarr = refl

select_job-Fresh_example :
    Fresh old_world.tables
      (verdict_world (select_job selecting outside lidarr_job 100000 old_world)).tables
      1
      1
select_job-Fresh_example =
    select_job-Fresh selecting outside lidarr_job old_candidate lidarr_job 100000 old_world
      found_old refl (omega arith) found_lidarr refl

-- A candidate that has waited for a folder since 10.
abbrev deferred : Candidate
deferred = record candidate { deferred_since = some 10 }

abbrev deferred_world : World
deferred_world = record {
  tables = record (db_with (transfer 1 TransferState.pending ∷ [])) { candidates = deferred ∷ [] };
  log = [];
}

found_deferred : find_row (candidate_is 1) deferred_world.tables.candidates ≡ some deferred
unfolding find_row
found_deferred = refl

deferred_active : ActiveIn deferred_world.tables 1
unfolding exists
deferred_active = refl

deferred_downloading : JobIn deferred_world.tables 1 AlbumJobState.downloading
unfolding find_row
deferred_downloading = (job, refl, refl)

defer_for_folder_example :
    JobIn
      (reservation_world
        (defer_for_folder two_at_once plain 1 1 (codes "Album") 2 700 deferred_world)).tables
      1
      (waiting_state 600 700 (some 10))
defer_for_folder_example =
    defer_for_folder-waiting_state two_at_once plain 1 1 deferred (codes "Album") 2 700
      deferred_world found_deferred deferred_active deferred_downloading

waiting_run : waiting_state 600 700 (some 10) ≡ AlbumJobState.selecting
unfolding waiting_state
waiting_run = refl
