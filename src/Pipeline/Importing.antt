-- ===== src/Pipeline/Importing.antt =====
-- internal/pipeline/importing.go: the ends of an import. The phase verify, which scans the folder
-- and submits the import, is not modelled; every function it ends a candidate with is.
pub mod Confirmed
pub mod Failed
pub mod Refused
pub mod Coverage
use slusk.Prelude.{
  ℕ, suc, ◌+◌, ◌-◌, Bool, true, false, not, ◌&&◌, ◌||◌, ◌==◌, Option, none, some, List, [], ◌∷◌,
  ◌++◌, ltb, leb, if◌then◌else◌, length,
}
use slusk.Prelude.Text.{Text, text_eq, is_empty, codes}
use slusk.Core.State.{AlbumJobState, JobSource, source_eq}
use slusk.Core.Models.{AlbumJob, Candidate}
use slusk.Store.Table.{exists}
use slusk.Store.Db.{Db}
use slusk.Store.Jobs.{set_job_not_before}
use slusk.Store.Candidates.{
  fail_candidate_and_advance, reject_candidate_and_advance, succeed_candidate_and_advance,
}
use slusk.Store.Rejections.{count_rejections_by_reason}
use slusk.Store.Folders.{download_folders_for_job, mark_download_folder_cleaned}
use slusk.Pipeline.Backoff.{decimal}
use slusk.Pipeline.Paths.{quarantine_dir_name, join_path}
use slusk.Pipeline.World.{World, Backend, JobEventType, event, outcome, write, note}
use slusk.Pipeline.Quarantine.{cleanup_folder, mark_cleaned}

-- The fields of core.ImportRejection.
pub record ImportRejection : Type 0 where
  pub reason : Text
  pub permanent : Bool

-- The fields of core.ImportItem that the module reads.
pub record ImportItem : Type 0 where
  pub track_ids : List ℕ
  pub rejections : List ImportRejection

-- The calls of Lidarr: the tracks present and in total, and the album of a release group. The outer
-- option is the error.
pub record Music : Type 0 where
  pub album_status : World → ℕ → Option (ℕ × ℕ)
  pub album_by_foreign_id : World → Text → Option (Option ℕ)

-- What os finds at a folder that an import has emptied.
pub data Listing : Type 0 where
  entries : ℕ → Listing
  missing : Listing
  unreadable : Listing

pub record Folders : Type 0 where
  pub list : World → Text → Listing
  pub remove : World → Text → Bool

-- The settings of ImportingParams.
pub record ImportingSettings : Type 0 where
  pub complete_dir : Text
  pub max_candidates : ℕ
  pub stuck_after : ℕ
  pub import_confirm_timeout : ℕ
  pub retry_cooldown : ℕ

-- One folder in cleanupCompletedFolder.
abbrev pub completed_answer : Folders → ℕ → Text → Text → ℕ → World → Listing → World
completed_answer d job leaf folder now w (entries n) =
    if ltb 0 n
    then mark_cleaned job leaf now w
    else if d.remove w folder
    then mark_cleaned job leaf now w
    else w
completed_answer d job leaf folder now w missing = mark_cleaned job leaf now w
completed_answer d job leaf folder now w unreadable = w

unfoldable pub cleanup_completed : Folders → ℕ → Text → ℕ → List Text → World → World
unfolding mark_download_folder_cleaned join_path
cleanup_completed d job root now [] w = w
cleanup_completed d job root now (leaf ∷ leaves) w =
    let folder = join_path root leaf in
    cleanup_completed d job root now leaves (
      if text_eq leaf quarantine_dir_name
      then w
      else completed_answer d job leaf folder now w (d.list w folder))

-- cleanupCompletedFolder
unfoldable pub cleanup_completed_folder : Folders → ℕ → Text → ℕ → World → World
unfolding cleanup_completed download_folders_for_job
cleanup_completed_folder d job root now w =
    cleanup_completed d job root now (download_folders_for_job w.tables job) w

-- repeatedRejectionCap
unfoldable pub repeated_rejection_cap : ImportingSettings → AlbumJob → Text → World → Bool
unfolding count_rejections_by_reason
repeated_rejection_cap s j reason w =
    if s.max_candidates == 0
    then false
    else leb (s.max_candidates + 1) (count_rejections_by_reason w.tables j.id reason + 1)

abbrev pub park_detail : ℕ → Text → Text
park_detail n reason =
    codes "no candidate could satisfy this album: " ++ decimal n ++ codes " rejected for " ++ reason

-- recordPark
unfoldable pub record_park : AlbumJob → Text → World → World
unfolding count_rejections_by_reason
record_park j reason w =
    note
      (event j.id JobEventType.job_parked
        (park_detail (count_rejections_by_reason w.tables j.id reason) reason))
      w

abbrev pub advanced_answer : AlbumJob → Text → Bool → World → Db × Bool → World
advanced_answer j reason parks w (db, advanced) =
    if advanced && parks then record_park j reason (write db w) else write db w

-- failCandidate
unfoldable pub fail_import_candidate :
    ImportingSettings → Backend → AlbumJob → Candidate → Text → Bool → ℕ → World → World
unfolding cleanup_folder repeated_rejection_cap record_park reject_candidate_and_advance
    fail_candidate_and_advance
fail_import_candidate s b j c reason content_fault now w =
    let cleaned =
      (if source_eq j.source JobSource.manual then w else cleanup_folder b j.id now w) in
    let told = note (outcome j.artist_id c.username false) cleaned in
    let parks = content_fault && repeated_rejection_cap s j reason told in
    let to = (if parks then AlbumJobState.parked else AlbumJobState.selecting) in
    advanced_answer j reason parks told (
      if content_fault
      then reject_candidate_and_advance told.tables c.id j.id reason AlbumJobState.importing to now
      else fail_candidate_and_advance told.tables c.id j.id reason AlbumJobState.importing to now)

-- escalateIfStuck
unfoldable pub escalate_if_stuck :
    ImportingSettings → Backend → AlbumJob → Candidate → Text → ℕ → World → World
unfolding fail_import_candidate set_job_not_before
escalate_if_stuck s b j c reason now w =
    let detail = codes "importing stuck past timeout (" ++ reason ++ codes ")" in
    if leb (now - j.updated_at) s.stuck_after
    then (if ltb 0 s.retry_cooldown
        then write (set_job_not_before w.tables j.id (now + s.retry_cooldown)) w
        else w)
    else fail_import_candidate s b j c reason false now
        (note (event j.id JobEventType.attempt_failed detail) w)

-- routeNotImported
unfoldable pub route_not_imported : AlbumJob → Candidate → Text → ℕ → World → World
unfolding succeed_candidate_and_advance
route_not_imported j c detail now w =
    write
      (succeed_candidate_and_advance w.tables c.id j.id AlbumJobState.importing
        AlbumJobState.not_imported now).0
      (note (outcome j.artist_id c.username true)
        (note (event j.id JobEventType.not_imported detail) w))

abbrev not_in_library : Text → Text
not_in_library mbid =
    codes "identified release group " ++ mbid ++ codes " is not in Lidarr's library"

-- After AlbumByForeignID.
abbrev pub foreign_answer :
    ImportingSettings
    → Backend
    → AlbumJob
    → Candidate
    → ℕ
    → World
    → Option (Option ℕ)
    → World × Option ℕ
foreign_answer s b j c now w none =
    (escalate_if_stuck s b j c (codes "resolve album failed") now w, none)
foreign_answer s b j c now w (some none) =
    (route_not_imported j c (not_in_library j.album_mbid) now w, none)
foreign_answer s b j c now w (some (some album)) = (w, some album)

-- resolveAlbumID; no id ends the job's turn. A column without an album is the id 0 of the source.
unfoldable pub resolve_album_id :
    ImportingSettings → Backend → Music → AlbumJob → Candidate → ℕ → World → World × Option ℕ
unfolding escalate_if_stuck route_not_imported
resolve_album_id s b m j c now w = elim j.lidarr_album_id [
  | some album ↦ (w, some album)
  | none ↦
      if is_empty j.album_mbid
      then (route_not_imported j c (codes "no album identified for import") now w, none)
      else foreign_answer s b j c now w (m.album_by_foreign_id w j.album_mbid)
]

-- albumAlreadyComplete
abbrev pub album_complete : ℕ → ℕ → Bool
album_complete present total = ltb 0 total && leb total present

-- failUnconfirmed
unfoldable pub fail_unconfirmed : AlbumJob → Candidate → Text → ℕ → World → World
unfolding reject_candidate_and_advance
fail_unconfirmed j c detail now w =
    write
      (reject_candidate_and_advance w.tables c.id j.id (codes "import not confirmed")
        AlbumJobState.importing AlbumJobState.selecting now).0
      (note (outcome j.artist_id c.username false)
        (note (event j.id JobEventType.attempt_failed detail) w))

abbrev confirmed_detail : ℕ → ℕ → Text
confirmed_detail present total =
    codes "import confirmed, completed ("
    ++ decimal present
    ++ codes "/"
    ++ decimal total
    ++ codes " present)"

abbrev unconfirmed_detail : ℕ → ℕ → Text
unconfirmed_detail present total =
    codes "import not confirmed in time ("
    ++ decimal present
    ++ codes "/"
    ++ decimal total
    ++ codes " present), cooling down"

abbrev status_failing_detail : Text
status_failing_detail =
    codes "import not confirmed in time (album status check failing), cooling down"

-- The import is confirmed.
abbrev pub complete_import : Folders → Text → AlbumJob → Candidate → Text → ℕ → World → World
complete_import d root j c detail now w = cleanup_completed_folder d j.id root now (
    write
      (succeed_candidate_and_advance w.tables c.id j.id AlbumJobState.importing AlbumJobState.done
        now).0
      (note (outcome j.artist_id c.username true)
        (note (event j.id JobEventType.attempt_succeeded detail) w)))

-- After AlbumStatus.
abbrev pub status_answer :
    ImportingSettings → Folders → AlbumJob → Candidate → Bool → ℕ → World → Option (ℕ × ℕ) → World
status_answer s d j c late now w none =
    if late then fail_unconfirmed j c status_failing_detail now w else w
status_answer s d j c late now w (some (present, total)) =
    if album_complete present total
    then complete_import d s.complete_dir j c (confirmed_detail present total) now w
    else if late
    then fail_unconfirmed j c (unconfirmed_detail present total) now w
    else w

-- confirm, of a candidate whose import was submitted at that time, for the album that was resolved
unfoldable pub confirm :
    ImportingSettings → Folders → Music → AlbumJob → Candidate → ℕ → ℕ → ℕ → World → World
unfolding fail_unconfirmed succeed_candidate_and_advance cleanup_completed_folder
confirm s d m j c album submitted now w =
    status_answer s d j c (ltb s.import_confirm_timeout (now - submitted)) now w
      (m.album_status w album)

-- AnyPermanent
unfoldable pub any_permanent : List ImportRejection → Bool
any_permanent rejections = exists (λ r. r.permanent) rejections

-- The map that coverage fills, as the list of its keys.
unfoldable pub add_ids : List ℕ → List ℕ → List ℕ
add_ids [] seen = seen
add_ids (id ∷ ids) seen = add_ids ids (if exists (λ k. k == id) seen then seen else id ∷ seen)

unfoldable pub covered : List ImportItem → List ℕ → List ℕ
unfolding add_ids
covered [] seen = seen
covered (it ∷ items) seen = covered items (add_ids it.track_ids seen)

-- coverage
unfoldable pub coverage : List ImportItem → ℕ
unfolding covered
coverage items = length (covered items [])
