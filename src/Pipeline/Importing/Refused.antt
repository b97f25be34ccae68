-- ===== src/Pipeline/Importing/Refused.antt =====
-- internal/pipeline/importing.go: the end of a job whose files Lidarr refuses for good.
use slusk.Prelude.{
  ℕ, ◌≡◌, refl, sym, subst, inl, inr, true, false, not, ◌&&◌, Option, none, some, List, [], ◌∷◌,
  ◌++◌, Bool-cases, if◌then◌else◌,
}
use slusk.Prelude.Text.{Text, text_eq, is_empty, codes}
use slusk.Core.State.{AlbumJobState}
use slusk.Core.Models.{AlbumJob, Candidate}
use slusk.Matcher.Path.{clean, path_base}
use slusk.Store.Db.{Db}
use slusk.Store.Candidates.{active_candidate, set_failed, reject_candidate_and_advance}
use slusk.Pipeline.Paths.{refused_dir_name}
use slusk.Pipeline.World.{World, JobEventType, event, outcome, write, note}
use slusk.Pipeline.Quarantine.{Disk, quarantine_folder}
use slusk.Pipeline.Selecting.Tables.{quarantine_folder-tables}
use slusk.Pipeline.Downloading.Verdicts.{JobIn, ActiveIn, terminal-JobIn}
use slusk.Pipeline.Downloading.Verdicts.Resolved.{active_candidate-ActiveIn}
use slusk.Pipeline.Importing.{ImportRejection}

-- strings.Join(core.Reasons(rejections), "; ")
unfoldable pub joined_reasons : List ImportRejection → Text
joined_reasons [] = []
joined_reasons (r ∷ []) = r.reason
joined_reasons (r ∷ q ∷ rs) = r.reason ++ codes "; " ++ joined_reasons (q ∷ rs)

abbrev refused_detail : Text → Text → Option Text → Text
refused_detail folder reason none =
    codes "import refused by Lidarr (folder " ++ folder ++ codes "): " ++ reason
refused_detail folder reason (some dst) =
    codes "import refused by Lidarr (folder "
    ++ folder
    ++ codes "): "
    ++ reason
    ++ codes "; files kept in "
    ++ dst

-- The folder goes to the second quarantine, unless it is the download root.
unfoldable pub keep_refused : Disk → Text → ℕ → Text → World → World × Option Text
unfolding clean path_base quarantine_folder
keep_refused d root job folder w =
    if not (is_empty root) && not (text_eq (clean folder) (clean root))
    then quarantine_folder d job root (path_base folder) refused_dir_name w
    else (w, none)

-- refuseImport
unfoldable pub refuse_import :
    Disk → Text → AlbumJob → Candidate → Text → List ImportRejection → ℕ → World → World
unfolding joined_reasons keep_refused reject_candidate_and_advance
refuse_import d root j c folder rejections now w =
    let reason = joined_reasons rejections in
    let kept = keep_refused d root j.id folder w in
    note (event j.id JobEventType.import_refused (refused_detail folder reason kept.1)) (
      write
        (reject_candidate_and_advance kept.0.tables c.id j.id reason AlbumJobState.importing
          AlbumJobState.import_refused now).0
        (note (outcome j.artist_id c.username false) kept.0))

keep_refused-tables :
    (d : Disk) (root : Text) (job : ℕ) (folder : Text) (w : World)
    → (keep_refused d root job folder w).0.tables ≡ w.tables
unfolding keep_refused
keep_refused-tables d root job folder w =
    elim (Bool-cases (not (is_empty root) && not (text_eq (clean folder) (clean root)))) [
      | inl e ↦ rw e (quarantine_folder-tables d job root (path_base folder) refused_dir_name w)
      | inr e ↦ rw e refl
    ]

-- For an IMPORTING job with an ACTIVE candidate, refuseImport leaves the job IMPORT_REFUSED,
-- whether or not its folder could be kept in quarantine.
pub refuse_import-JobIn :
    (d : Disk) (root : Text) (j : AlbumJob) (c : Candidate) (folder : Text)
    (rejections : List ImportRejection) (now : ℕ) (w : World)
    → active_candidate w.tables j.id ≡ some c
    → JobIn w.tables j.id AlbumJobState.importing
    → JobIn
        (refuse_import d root j c folder rejections now w).tables
        j.id
        AlbumJobState.import_refused
unfolding refuse_import reject_candidate_and_advance
refuse_import-JobIn d root j c folder rejections now w found h =
    let kept = (keep_refused d root j.id folder w).0 in
    let same = sym (keep_refused-tables d root j.id folder w) in
    terminal-JobIn kept.tables c.id j.id (set_failed (joined_reasons rejections) now)
      AlbumJobState.importing AlbumJobState.import_refused (joined_reasons rejections)
      (record { records = true; cooldown = none }) now (λ r. refl)
      (subst (λ (db : Db). ActiveIn db c.id) same (active_candidate-ActiveIn w.tables j.id c found))
      (subst (λ (db : Db). JobIn db j.id AlbumJobState.importing) same h)
