-- ===== src/Pipeline/ImportTests.antt =====
-- The theorems on the ends of an import, at a concrete job.
use slusk.Prelude.{◌≡◌, refl, none, some, List, [], ◌∷◌, ltb, true, false}
use slusk.Prelude.Text.{codes}
use slusk.Core.State.{AlbumJobState}
use slusk.Core.Models.{AlbumJob, Candidate}
use slusk.Store.Table.{find_row, exists}
use slusk.Store.Operation.{empty_db}
use slusk.Store.Activation.{manual_job, manual_candidate}
use slusk.Store.Candidates.{active_candidate}
use slusk.Store.Rejections.{count_rejections_by_reason}
use slusk.Pipeline.World.{World, Backend, done}
use slusk.Pipeline.Downloading.Verdicts.{JobIn}
use slusk.Pipeline.Importing.{
  ImportingSettings, Folders, Music, ImportItem, entries, confirm, fail_import_candidate, coverage,
  ImportRejection,
}
use slusk.Pipeline.Quarantine.{Disk}
use slusk.Pipeline.Importing.Refused.{refuse_import, refuse_import-JobIn}
use slusk.Pipeline.Importing.Confirmed.{confirmed_state, confirm-confirmed_state}
use slusk.Pipeline.Importing.Failed.{failed_import_state, fail_import_candidate-failed_import_state}
use slusk.Pipeline.Importing.Coverage.{different, all_ids, coverage-different}

abbrev backend : Backend
backend = record {
  enqueue = λ w u f n. none;
  meanwhile = λ w. [];
  cancel = λ w u id. done;
  delete_folder = λ w leaf. done;
  list_downloads = λ w. none;
}

abbrev emptied : Folders
emptied = record { list = λ w path. entries 0; remove = λ w path. true }

-- Ten of ten tracks are there.
abbrev lidarr : Music
lidarr = record {
  album_status = λ w album. some (10, 10);
  album_by_foreign_id = λ w mbid. some none;
}

abbrev settings : ImportingSettings
settings = record {
  complete_dir = codes "/music";
  max_candidates = 2;
  stuck_after = 3600;
  import_confirm_timeout = 600;
  retry_cooldown = 60;
}

abbrev job : AlbumJob
job = record (manual_job 1 (codes "Album") (codes "Artist") [] 10) {
  state = AlbumJobState.importing;
}

abbrev candidate : Candidate
candidate = manual_candidate 1 1 (codes "peer") [] 10

abbrev importing_world : World
importing_world = record {
  tables = record empty_db {
    jobs = job ∷ [];
    candidates = candidate ∷ [];
    next_job = 2;
    next_candidate = 2;
  };
  log = [];
}

found_candidate : active_candidate importing_world.tables 1 ≡ some candidate
unfolding active_candidate find_row
found_candidate = refl

job_importing : JobIn importing_world.tables 1 AlbumJobState.importing
unfolding find_row
job_importing = (job, refl, refl)

confirm_example :
    JobIn
      (confirm settings emptied lidarr job candidate 7 20 30 importing_world).tables
      1
      (confirmed_state (some (10, 10)) (ltb 600 10))
confirm_example =
    confirm-confirmed_state settings emptied lidarr job candidate 7 20 30 importing_world
      found_candidate job_importing

confirm_run : confirmed_state (some (10, 10)) (ltb 600 10) ≡ AlbumJobState.done
unfolding confirmed_state
confirm_run = refl

fail_import_candidate_example :
    JobIn
      (fail_import_candidate settings backend job candidate
        (codes "incomplete")
        true
        30
        importing_world).tables
      1
      (failed_import_state 2 true
        (count_rejections_by_reason importing_world.tables 1 (codes "incomplete")))
fail_import_candidate_example =
    fail_import_candidate-failed_import_state settings backend job candidate (codes "incomplete")
      true 30 importing_world found_candidate job_importing

-- Two files of one track cover it once.
abbrev items : List ImportItem
items =
    record { track_ids = 4 ∷ 5 ∷ []; rejections = [] }
    ∷ record { track_ids = 5 ∷ []; rejections = [] }
    ∷ []

coverage_run : coverage items ≡ 2
unfolding coverage exists
coverage_run = refl

coverage-different_example : coverage items ≡ different [] (all_ids items)
coverage-different_example = coverage-different items

abbrev full_disk : Disk
full_disk = record {
  rel = λ root path. some (codes "Album");
  is_there = λ w path. true;
  is_free = λ w path. true;
  mkdir_all = λ w path. true;
  rename = λ w src dst. false;
  unix_now = λ w. 0;
}

abbrev refusal : List ImportRejection
refusal = record { reason = codes "not an upgrade"; permanent = true } ∷ []

refuse_import_example :
    JobIn
      (refuse_import full_disk
        (codes "/music")
        job
        candidate
        (codes "/music/Album")
        refusal
        30
        importing_world).tables
      1
      AlbumJobState.import_refused
refuse_import_example =
    refuse_import-JobIn full_disk (codes "/music") job candidate (codes "/music/Album") refusal 30
      importing_world found_candidate job_importing
