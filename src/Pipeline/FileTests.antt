-- ===== src/Pipeline/FileTests.antt =====
-- The theorems on the files of a folder and on their names, at concrete inputs.
use slusk.Prelude.{◌≡◌, refl, ap, true, false, List, [], ◌∷◌, All}
use slusk.Prelude.Int.{pos}
use slusk.Prelude.Text.{Text, codes, text_eq, is_empty}
use slusk.Store.Table.{exists, select}
use slusk.Pipeline.Backoff.{digits}
use slusk.Pipeline.Paths.{common_leaf}
use slusk.Pipeline.Paths.Leaf.{common_leaf-valid_download_leaf}
use slusk.Store.Folders.{valid_download_leaf}
use slusk.Pipeline.Dedup.{DedupFile, dedup_files, track_groups, winner_from, beats}
use slusk.Pipeline.Dedup.Winner.{winner_from-All}
use slusk.Pipeline.Dedup.Distinct.{distinct_paths}
use slusk.Pipeline.Dedup.Survivors.{
  GroupStays, dedup_files_stays, is_unidentified, dedup_files-is_unidentified,
}

-- A track in two formats, and a file that has no tags.
abbrev flac_file : DedupFile
flac_file = record {
  path = codes "a/01.flac";
  size = pos 900;
  album_key = codes "album";
  disc = pos 1;
  track = pos 1;
  title_key = codes "song";
  lossless = true;
}

abbrev mp3_file : DedupFile
mp3_file = record flac_file { path = codes "a/01.mp3"; size = pos 9000; lossless = false }

abbrev untagged_file : DedupFile
untagged_file = record flac_file {
  path = codes "a/x.mp3";
  album_key = [];
  disc = pos 0;
  track = pos 0;
  title_key = [];
}

abbrev folder : List DedupFile
folder = mp3_file ∷ flac_file ∷ untagged_file ∷ []

folder_distinct : distinct_paths folder ≡ true
unfolding distinct_paths exists text_eq
folder_distinct = refl

dedup_files_stays_example : All (λ g. GroupStays (dedup_files folder) g) (track_groups folder)
dedup_files_stays_example = dedup_files_stays folder folder_distinct

dedup_files-is_unidentified_example : exists (is_unidentified folder) (dedup_files folder) ≡ false
dedup_files-is_unidentified_example = dedup_files-is_unidentified folder

-- The lossy file goes.
dedup_run : dedup_files folder ≡ mp3_file ∷ []
unfolding dedup_files text_eq digits select
dedup_run = refl

winner_from_All_example :
    All (λ f. beats f (winner_from mp3_file (flac_file ∷ [])) ≡ false) (mp3_file ∷ flac_file ∷ [])
winner_from_All_example = winner_from-All mp3_file (flac_file ∷ [])

-- Two files of a hostile peer, of one folder below the parent of the share.
abbrev two_names : List Text
two_names = codes "..\\Album\\1.mp3" ∷ codes "..\\Album\\2.mp3" ∷ []

leaf_is_album : common_leaf two_names ≡ codes "Album"
unfolding common_leaf text_eq
leaf_is_album = refl

leaf_full : is_empty (common_leaf two_names) ≡ false
leaf_full = ap is_empty leaf_is_album

common_leaf_example : valid_download_leaf (common_leaf two_names) ≡ true
common_leaf_example = common_leaf-valid_download_leaf two_names leaf_full
