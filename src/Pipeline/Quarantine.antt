-- ===== src/Pipeline/Quarantine.antt =====
-- internal/pipeline/paths.go: the removal and the quarantine of the folders that a job registered.
use slusk.Prelude.{
  ℕ, Bool, true, not, ◌||◌, ◌==◌, Option, none, some, List, [], ◌∷◌, ◌++◌, if◌then◌else◌,
}
use slusk.Prelude.Text.{Text, text_eq, is_empty, codes}
use slusk.Matcher.Path.{slash, dot, dot_dot, clean}
use slusk.Store.Table.{exists}
use slusk.Store.Folders.{download_folders_for_job, mark_download_folder_cleaned}
use slusk.Pipeline.Backoff.{decimal}
use slusk.Pipeline.Paths.{is_quarantine_dir, join_path}
use slusk.Pipeline.World.{
  World, Backend, RemoteAnswer, done, not_found, failed, folder_deleted, renamed, write, note,
}

-- Packages os, path/filepath and time: whether a path is there (Stat), whether a name is free
-- (Lstat), whether MkdirAll and Rename succeed, filepath.Rel, and the clock in seconds.
pub record Disk : Type 0 where
  pub rel : Text → Text → Option Text
  pub is_there : World → Text → Bool
  pub is_free : World → Text → Bool
  pub mkdir_all : World → Text → Bool
  pub rename : World → Text → Text → Bool
  pub unix_now : World → ℕ

-- The refused relative paths: the prefix "../" is one with a separator.
abbrev pub escapes : Option Text → Bool
escapes none = true
escapes (some rel) = text_eq rel (dot ∷ []) || text_eq rel dot_dot || exists (λ c. c == slash) rel

-- The names that freeQuarantinePath tries.
abbrev quarantine_names : Text → ℕ → ℕ → List Text
quarantine_names leaf job seconds =
    leaf
    ∷ (leaf ++ codes ".job" ++ decimal job)
    ∷ (leaf ++ codes ".job" ++ decimal job ++ codes "." ++ decimal seconds)
    ∷ []

unfoldable pub first_free : Disk → World → Text → List Text → Option Text
unfolding join_path
first_free d w root [] = none
first_free d w root (n ∷ ns) =
    if d.is_free w (join_path root n) then some (join_path root n) else first_free d w root ns

-- freeQuarantinePath
unfoldable pub free_quarantine_path : Disk → World → Text → Text → ℕ → Option Text
unfolding first_free
free_quarantine_path d w root leaf job =
    first_free d w root (quarantine_names leaf job (d.unix_now w))

-- quarantineFolder from MkdirAll on.
abbrev move_to : Disk → World → Text → Option Text → World × Option Text
move_to d w src none = (w, none)
move_to d w src (some dst) =
    if d.rename w src dst then (note (renamed src dst) w, some dst) else (w, none)

-- quarantineFolder
unfoldable pub quarantine_folder : Disk → ℕ → Text → Text → Text → World → World × Option Text
unfolding free_quarantine_path is_quarantine_dir join_path clean
quarantine_folder d job complete_dir leaf dir_name w =
    let src = join_path complete_dir leaf in
    let root = join_path complete_dir dir_name in
    if is_empty complete_dir || is_empty leaf
    then (w, none)
    else if is_quarantine_dir leaf
    then (w, none)
    else if escapes (d.rel complete_dir src)
    then (w, none)
    else if text_eq (clean src) (clean complete_dir)
    then (w, none)
    else if not (d.is_there w src)
    then (w, none)
    else if not (d.mkdir_all w root)
    then (w, none)
    else move_to d w src (free_quarantine_path d w root leaf job)

-- markCleaned
abbrev pub mark_cleaned : ℕ → Text → ℕ → World → World
mark_cleaned job leaf now w = write (mark_download_folder_cleaned w.tables job leaf now) w

abbrev pub after_delete : ℕ → Text → ℕ → World → RemoteAnswer → World
after_delete job leaf now w done = mark_cleaned job leaf now (note (folder_deleted leaf) w)
after_delete job leaf now w not_found = w
after_delete job leaf now w failed = w

-- The loop of cleanupFolder.
unfoldable pub cleanup_leaves : Backend → ℕ → ℕ → List Text → World → World
unfolding is_quarantine_dir mark_download_folder_cleaned
cleanup_leaves b job now [] w = w
cleanup_leaves b job now (leaf ∷ leaves) w =
    cleanup_leaves b job now leaves
      (if is_quarantine_dir leaf then w else after_delete job leaf now w (b.delete_folder w leaf))

-- cleanupFolder
unfoldable pub cleanup_folder : Backend → ℕ → ℕ → World → World
unfolding cleanup_leaves download_folders_for_job
cleanup_folder b job now w = cleanup_leaves b job now (download_folders_for_job w.tables job) w
