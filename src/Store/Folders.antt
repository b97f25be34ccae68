-- ===== src/Store/Folders.antt =====
-- internal/store/download_folders.go: which job owns which folder below the download root, and
-- the deferral of a candidate that waits for one.
use slusk.Prelude.{
  ℕ, suc, ◌+◌, Bool, true, false, not, ◌&&◌, ◌||◌, ◌==◌, Option, none, some, List, [], ◌∷◌, ◌++◌,
  ltb, leb, if◌then◌else◌, map,
}
use slusk.Prelude.Text.{Text, text_eq, is_empty}
use slusk.Core.State.{state_in}
use slusk.Core.Models.{DownloadFolder}
use slusk.Matcher.Path.{slash, backslash, dot, dot_dot}
use slusk.Store.Table.{update, exists, find_row, select, best}
use slusk.Store.Db.{Db, job_is, candidate_is, update_candidates}
use slusk.Store.Jobs.{sort_by}
use slusk.Store.Activation.{active_states}

-- strings.ContainsAny(leaf, `/\`)
unfoldable pub contains_slash : Text → Bool
contains_slash [] = false
contains_slash (c ∷ cs) = c == slash || c == backslash || contains_slash cs

-- validDownloadLeaf
unfoldable pub valid_download_leaf : Text → Bool
unfolding contains_slash text_eq
valid_download_leaf leaf =
    not (is_empty leaf || text_eq leaf (dot ∷ []) || text_eq leaf dot_dot || contains_slash leaf)

-- SQL's lower() on ASCII letters.
unfoldable pub lower : Text → Text
lower [] = []
lower (c ∷ cs) = (if leb b'A' c && leb c b'Z' then c + 32 else c) ∷ lower cs

abbrev pub same_leaf : Text → Text → Bool
same_leaf a b = text_eq (lower a) (lower b)

abbrev pub is_uncleaned : Option ℕ → Bool
is_uncleaned none = true
is_uncleaned (some t) = false

-- A job in DOWNLOADING or IMPORTING.
unfoldable pub job_is_active : Db → ℕ → Bool
job_is_active db job = exists (λ j. j.id == job && state_in j.state active_states) db.jobs

-- The rows that make another job the owner of the folder.
unfoldable pub owned_by_other : Db → ℕ → Text → DownloadFolder → Bool
unfolding job_is_active
owned_by_other db job leaf f =
    same_leaf f.leaf leaf
    && (is_uncleaned f.cleaned_at
        && (not (f.album_job_id == job) && job_is_active db f.album_job_id))

pub data Registration : Type 0 where
  claimed : Registration
  owned_by : ℕ → Registration
  invalid_leaf : Registration
  no_job : Registration

abbrev pub folder_is : ℕ → Text → DownloadFolder → Bool
folder_is job leaf f = f.album_job_id == job && same_leaf f.leaf leaf

-- INSERT … ON CONFLICT (album_job_id, lower(leaf)) DO UPDATE … WHERE cleaned_at IS NOT NULL
unfoldable pub upsert_folder : Db → ℕ → Text → ℕ → Db
upsert_folder db job leaf now =
    if exists (folder_is job leaf) db.folders
    then record db {
      folders =
          update (λ f. folder_is job leaf f && not (is_uncleaned f.cleaned_at))
            (λ f. record f { cleaned_at = none; created_at = now }) db.folders;
    }
    else record db {
      folders =
          db.folders
          ++ record {
            id = db.next_folder;
            album_job_id = job;
            leaf = leaf;
            created_at = now;
            cleaned_at = none;
          }
            ∷ [];
      next_folder = suc db.next_folder;
    }

-- RegisterDownloadFolder; `no_job` is the error of the foreign key.
unfoldable pub register_download_folder : Db → ℕ → Text → ℕ → Db × Registration
unfolding upsert_folder owned_by_other valid_download_leaf
register_download_folder db job leaf now =
    if not (valid_download_leaf leaf)
    then (db, invalid_leaf)
    else elim (best (λ a b. ltb a.album_job_id b.album_job_id)
        (select (owned_by_other db job leaf) db.folders)) [
          | some owner ↦ (db, owned_by owner.album_job_id)
          | none ↦
              if exists (job_is job) db.jobs
              then (upsert_folder db job leaf now, claimed)
              else (db, no_job)
        ]

-- ORDER BY created_at, id
abbrev older : DownloadFolder → DownloadFolder → Bool
older a b =
    if ltb a.created_at b.created_at
    then true
    else if ltb b.created_at a.created_at
    then false
    else leb a.id b.id

-- DownloadFoldersForJob
unfoldable pub download_folders_for_job : Db → ℕ → List Text
download_folders_for_job db job =
    map (λ f. f.leaf)
      (sort_by older (select (λ f. f.album_job_id == job && is_uncleaned f.cleaned_at) db.folders))

-- MarkDownloadFolderCleaned
unfoldable pub mark_download_folder_cleaned : Db → ℕ → Text → ℕ → Db
mark_download_folder_cleaned db job leaf now = record db {
  folders =
      update (λ f. folder_is job leaf f && is_uncleaned f.cleaned_at)
        (λ f. record f { cleaned_at = some now }) db.folders;
}

abbrev pub or_now : Option ℕ → ℕ → ℕ
or_now none now = now
or_now (some t) now = t

-- DeferCandidate: the time the wait began, and whether this call began it; none for no candidate.
unfoldable pub defer_candidate : Db → ℕ → ℕ → Db × Option (ℕ × Bool)
defer_candidate db candidate now = elim (find_row (candidate_is candidate) db.candidates) [
  | none ↦ (db, none)
  | some c ↦ (
    update_candidates (candidate_is candidate)
        (λ r. record r { deferred_since = some (or_now r.deferred_since now); updated_at = now })
        db,
    some (or_now c.deferred_since now, is_uncleaned c.deferred_since),
  )
]

-- ClearCandidateDeferral
unfoldable pub clear_candidate_deferral : Db → ℕ → Db
clear_candidate_deferral db candidate =
    update_candidates (λ c. c.id == candidate && not (is_uncleaned c.deferred_since))
      (λ c. record c { deferred_since = none }) db
