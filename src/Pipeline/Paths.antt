-- ===== src/Pipeline/Paths.antt =====
-- internal/pipeline/paths.go: the one folder that an album's files share, by the peer's file names.
pub mod Leaf
use slusk.Prelude.{Bool, true, not, ◌&&◌, ◌||◌, List, [], ◌∷◌, ◌++◌, if◌then◌else◌}
use slusk.Prelude.Text.{Text, text_eq, is_empty, codes}
use slusk.Matcher.Path.{slash, dot, dot_dot, path_base, release_dir, clean}

-- Every name has the directory `common`.
unfoldable pub all_in_dir : Text → List Text → Bool
unfolding release_dir
all_in_dir common [] = true
all_in_dir common (f ∷ fs) = text_eq (release_dir f) common && all_in_dir common fs

abbrev pub is_top_dir : Text → Bool
is_top_dir common = text_eq common (dot ∷ []) || (text_eq common (slash ∷ []) || is_empty common)

-- The last lines of commonLeaf.
abbrev pub safe_leaf : Text → Text
safe_leaf leaf = if text_eq leaf dot_dot || text_eq leaf (dot ∷ []) then [] else leaf

-- commonLeaf; its closure `dir` is the function ReleaseDir of internal/matcher.
unfoldable pub common_leaf : List Text → Text
unfolding all_in_dir release_dir path_base
common_leaf [] = []
common_leaf (f ∷ fs) =
    let common = release_dir f in
    if not (all_in_dir common fs)
    then []
    else if is_top_dir common
    then []
    else safe_leaf (path_base common)

-- quarantineDirName
abbrev pub quarantine_dir_name : Text
quarantine_dir_name = codes ".failed"

-- refusedDirName
abbrev pub refused_dir_name : Text
refused_dir_name = codes "_import_rejected"

-- isQuarantineDir
unfoldable pub is_quarantine_dir : Text → Bool
is_quarantine_dir leaf = text_eq leaf quarantine_dir_name || text_eq leaf refused_dir_name

-- path.Join of two elements, of which it leaves out an empty one.
unfoldable pub join_path : Text → Text → Text
unfolding clean
join_path a b =
    if is_empty a
    then (if is_empty b then [] else clean b)
    else if is_empty b
    then clean a
    else clean (a ++ (slash ∷ b))

-- AlbumFolder
unfoldable pub album_folder : Text → List Text → Text
unfolding common_leaf join_path
album_folder complete_dir filenames =
    let leaf = common_leaf filenames in
    if is_empty leaf then complete_dir else join_path complete_dir leaf
