-- ===== src/Store/Tests.antt =====
-- The store's theorems at concrete tables.
use slusk.Prelude.{
  true, ◌≡◌, refl, false, not, ◌&&◌, some, List, [], ◌∷◌, arith, ltb, if◌then◌else◌, ◌*◌, ◌^◌,
}
use slusk.Prelude.Int.{pos}
use slusk.Prelude.Text.{codes, text_eq}
use slusk.Core.State.{TransferState, AlbumJobState, JobSource, state_eq, CandidateState}
use slusk.Core.Models.{AlbumJob, Candidate, CandidateFile, Transfer, WantedRelease}
use slusk.Matcher.Path.{release_dir}
use slusk.Store.Table.{find_row, exists, select, count}
use slusk.Store.Db.{Db, job_is, candidate_is}
use slusk.Store.Rejections.{CooldownPolicy, record_rejection_row, cooldown_for}
use slusk.Store.Rejections.Bars.{
  barred_at, still_barred, recorded_attempts, record_rejection_row_lem, cooldown_for_exact,
}
use slusk.Store.Activation.{
  manual_job, manual_candidate, activate_candidate_with_transfers, activated,
}
use slusk.Store.Transfers.{
  queued_transfer, cancel_job, live_of, cancels, record_enqueue_intent, refused, recorded,
}
use slusk.Store.Retry.{delete_job, deleted}
use slusk.Store.Operation.{Operation, run, empty_db}
use slusk.Store.Integrity.{Integrity}
use slusk.Store.Integrity.History.{run-Integrity}
use slusk.Store.LiveOwner.{LiveUnique}
use slusk.Store.LiveOwner.History.{run-LiveUnique}
use slusk.Store.Barrier.Peers.{
  PeerOperation, intends, progresses, retries, peer_run, uncancelled_job,
}
use slusk.Store.Barrier.Sequences.{peer_run-cancel_job}
use slusk.Store.Barrier.{cancel_job_lem, record_enqueue_intent-cancel_job}
use slusk.Store.Erasure.{NoTrace, delete_job_lem}
use slusk.Store.Activation.Cap.{Settled, activate_candidate_with_transfers-Settled}
use slusk.Store.Jobs.{count_jobs_in_states}
use slusk.Store.Transfers.WriteAhead.{queued_row, record_enqueue_intent-recorded}
use slusk.Store.Wanted.{any_id, ids_of, unwanted, has_album, sync_wanted_jobs}
use slusk.Store.Wanted.Snapshot.{sync_wanted_jobs_lem, sync_wanted_jobs-has_album}
use slusk.Store.Wanted.Manual.{is_manual, sync_wanted_jobs-is_manual}

abbrev track : CandidateFile
track = record { filename = codes "Music\\Album\\01.flac"; size = pos 1000 }

abbrev album : WantedRelease
album = record {
  id = 7;
  title = codes "Album";
  artist_name = codes "Artist";
  release_date = codes "2001-01-01";
  artist_id = 3;
}

-- A manual job with one candidate that downloads one file.
abbrev job : AlbumJob
job = manual_job 1 (codes "Album") (codes "Artist") [] 10

abbrev candidate : Candidate
candidate = manual_candidate 1 1 (codes "peer") (track ∷ []) 10

abbrev transfer : Transfer
transfer = queued_transfer 1 1 (codes "peer") track.filename 500 10

abbrev downloading_db : Db
downloading_db = record {
  jobs = job ∷ [];
  candidates = candidate ∷ [];
  transfers = transfer ∷ [];
  rejections = [];
  folders = [];
  next_job = 2;
  next_candidate = 2;
  next_transfer = 2;
  next_folder = 1;
}

-- A wanted album, a manual download that is cancelled, and a second sync.
abbrev history : List Operation
history =
    Operation.sync_wanted (album ∷ []) 0 5
    ∷ Operation.create_manual (codes "Other") (codes "Artist") (codes "peer") [] (track ∷ []) 900 6
    ∷ Operation.cancel_job 2 7
    ∷ Operation.delete_job 2
    ∷ Operation.sync_wanted (album ∷ []) 0 8
    ∷ []

empty_Integrity : Integrity empty_db
empty_Integrity = record {
  candidates_owned = tt;
  transfers_owned = tt;
  rejections_owned = tt;
  folders_owned = tt;
  jobs_below = tt;
  candidates_below = tt;
  unique_candidates = tt;
}

empty_LiveUnique : LiveUnique empty_db.transfers
unfolding count
empty_LiveUnique username filename = omega arith

run-Integrity_example : Integrity (run history empty_db)
run-Integrity_example = run-Integrity history empty_db empty_Integrity

run-LiveUnique_example : LiveUnique (run history empty_db).transfers
run-LiveUnique_example = run-LiveUnique history empty_db empty_LiveUnique

found_job : find_row (job_is 1) downloading_db.jobs ≡ some job
unfolding find_row
found_job = refl

found_candidate : find_row (candidate_is 1) downloading_db.candidates ≡ some candidate
unfolding find_row
found_candidate = refl

cancel_job_example :
    (exists
        (λ k. job_is 1 k && not (state_eq k.state AlbumJobState.cancelled))
        (cancel_job downloading_db 1 20).0.jobs
      ≡ false)
    × (exists
          (live_of (cancel_job downloading_db 1 20).0 1)
          (cancel_job downloading_db 1 20).0.transfers
        ≡ false)
    × ((cancel_job downloading_db 1 20).1
        ≡ cancels (select (live_of downloading_db 1) downloading_db.transfers))
cancel_job_example = cancel_job_lem downloading_db 1 20 job found_job

record_enqueue_intent_example :
    record_enqueue_intent (cancel_job downloading_db 1 20).0 1 (codes "peer") track.filename 900 21
    ≡ ((cancel_job downloading_db 1 20).0, refused)
record_enqueue_intent_example =
    record_enqueue_intent-cancel_job downloading_db 1 20 candidate job (codes "peer") track.filename
      900 21 found_candidate found_job

delete_job_example :
    ((delete_job downloading_db 1).1 ≡ deleted)
    × NoTrace downloading_db (delete_job downloading_db 1).0 1
delete_job_example = delete_job_lem downloading_db 1 job found_job refl

abbrev hourly : CooldownPolicy
hourly = record { base = 3600; cap = 86400 }

record_rejection_row_example :
    barred_at
      (record_rejection_row downloading_db 1
        (codes "peer")
        track.filename
        (codes "stalled")
        (some hourly)
        100)
      1
      (codes "peer")
      (release_dir track.filename)
      50
    ≡ still_barred
        (some hourly)
        (recorded_attempts downloading_db 1 (codes "peer") (release_dir track.filename))
        100
        50
record_rejection_row_example =
    record_rejection_row_lem downloading_db 1 (codes "peer") track.filename (codes "stalled")
      (some hourly) 100 50 refl

cooldown_for_exact_example :
    cooldown_for 3 3600 86400 ≡ (if ltb 86400 (3600 * 2 ^ 2) then 86400 else 3600 * 2 ^ 2)
cooldown_for_exact_example = cooldown_for_exact 3 3600 86400 (omega arith) (omega arith)

-- The snapshot of one album, against tables with a Lidarr job of another album and a manual job.
abbrev other_job : AlbumJob
other_job = record job {
  id = 2;
  source = JobSource.lidarr;
  lidarr_album_id = some 9;
  state = AlbumJobState.wanted;
}

abbrev mixed_db : Db
mixed_db = record downloading_db { jobs = job ∷ other_job ∷ []; next_job = 3 }

sync_wanted_jobs_example :
    exists (unwanted (ids_of (album ∷ []))) (sync_wanted_jobs mixed_db (album ∷ []) 0 30).0.jobs
    ≡ false
sync_wanted_jobs_example = sync_wanted_jobs_lem mixed_db album [] 0 30

album_listed : any_id (ids_of (album ∷ [])) 7 ≡ true
unfolding any_id
album_listed = refl

sync_has_album_example :
    exists (has_album 7) (sync_wanted_jobs mixed_db (album ∷ []) 0 30).0.jobs ≡ true
sync_has_album_example = sync_wanted_jobs-has_album mixed_db (album ∷ []) 0 30 7 album_listed

sync_manual_example :
    select is_manual (sync_wanted_jobs mixed_db (album ∷ []) 0 30).0.jobs
    ≡ select is_manual mixed_db.jobs
sync_manual_example = sync_wanted_jobs-is_manual mixed_db (album ∷ []) 0 30

-- A job in SELECTING with one cached candidate.
abbrev selecting_db : Db
selecting_db = record downloading_db {
  jobs = record job { state = AlbumJobState.selecting } ∷ [];
  candidates = record candidate { state = CandidateState.new } ∷ [];
  transfers = [];
}

activate_example :
    Settled selecting_db 1 (activate_candidate_with_transfers selecting_db 1 1 1 900 20)
activate_example = activate_candidate_with_transfers-Settled selecting_db 1 1 1 900 20

-- The job is activated, and a second one would find the cap full.
activate_run : (activate_candidate_with_transfers selecting_db 1 1 1 900 20).1 ≡ activated
unfolding activate_candidate_with_transfers find_row exists count count_jobs_in_states
activate_run = refl

second_file_recorded :
    (record_enqueue_intent downloading_db 1 (codes "peer") (codes "02.flac") 900 20).1 ≡ recorded 2
unfolding record_enqueue_intent find_row exists text_eq
second_file_recorded = refl

record_enqueue_intent_recorded_example :
    exists
      (queued_row 1 (codes "peer") (codes "02.flac") 2)
      (record_enqueue_intent downloading_db 1 (codes "peer") (codes "02.flac") 900 20).0.transfers
    ≡ true
record_enqueue_intent_recorded_example =
    record_enqueue_intent-recorded downloading_db 1 (codes "peer") (codes "02.flac") 900 20 2
      second_file_recorded

-- After the cancellation, the peer client asks again, the poller reports, and a retry comes.
abbrev late_operations : List PeerOperation
late_operations =
    intends 1 (codes "peer") track.filename 900 21
    ∷ progresses 1 TransferState.in_progress (pos 5) (pos 1000) 22
    ∷ retries 1 23
    ∷ []

peer_run_example :
    (exists (uncancelled_job 1) (peer_run late_operations (cancel_job downloading_db 1 20).0).jobs
      ≡ false)
    × (exists
          (live_of (peer_run late_operations (cancel_job downloading_db 1 20).0) 1)
          (peer_run late_operations (cancel_job downloading_db 1 20).0).transfers
        ≡ false)
peer_run_example =
    peer_run-cancel_job downloading_db 1 20 job late_operations (one_candidate, tt) found_job
  where
    one_candidate : exists (candidate_is 1) [] ≡ false
    one_candidate = unfold exists in refl
