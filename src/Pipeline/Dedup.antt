-- ===== src/Pipeline/Dedup.antt =====
-- internal/pipeline/dedup.go: which of an album folder's files are duplicates of one track. The
-- folder's listing, the tags of a file and its removal are outside; the decision is all of it.
pub mod Winner
pub mod Groups
pub mod Distinct
pub mod Survivors
use Prim.Native.Nat.{◌/◌}
use slusk.Prelude.{
  ℕ, zero, suc, ◌+◌, Bool, true, false, not, ◌&&◌, ◌||◌, Option, none, some, List, [], ◌∷◌, ◌++◌,
  ltb, if◌then◌else◌, length,
}
use slusk.Prelude.Int.{ℤ, pos, negsuc, ltb_ℤ}
use slusk.Prelude.Text.{Text, text_eq, is_empty, codes}
use slusk.Store.Table.{select}
use slusk.Store.Jobs.{text_lt}
use slusk.Matcher.Path.{slash}
use slusk.Pipeline.Backoff.{decimal}

-- dedupFile
pub record DedupFile : Type 0 where
  pub path : Text
  pub size : ℤ
  pub album_key : Text
  pub disc : ℤ
  pub track : ℤ
  pub title_key : Text
  pub lossless : Bool

-- The walk of multiAlbum, with the first album named so far.
unfoldable pub other_album : Text → List DedupFile → Bool
other_album first [] = false
other_album first (f ∷ fs) =
    let seen = other_album first fs in
    let start = other_album f.album_key fs in
    if is_empty f.album_key
    then seen
    else if is_empty first
    then start
    else if not (text_eq f.album_key first)
    then true
    else seen

-- multiAlbum
unfoldable pub multi_album : List DedupFile → Bool
unfolding other_album
multi_album files = other_album [] files

-- The closure albumOf.
abbrev pub album_of : Bool → DedupFile → Text
album_of scoped f = if scoped then f.album_key else []

-- fmt's %d of a signed number
abbrev pub decimal_ℤ : ℤ → Text
decimal_ℤ (pos n) = decimal n
decimal_ℤ (negsuc n) = b'-' ∷ decimal (suc n)

-- "album/disc/track"
unfoldable pub number_key : Bool → DedupFile → Text
number_key scoped f = album_of scoped f ++ (slash ∷ decimal_ℤ f.disc ++ (slash ∷ decimal_ℤ f.track))

-- "album/titleKey"
unfoldable pub title_key_of : Bool → DedupFile → Text
title_key_of scoped f = album_of scoped f ++ (slash ∷ f.title_key)

-- The maps from a key to the index of a group.
unfoldable pub lookup : Text → List (Text × ℕ) → Option ℕ
lookup k [] = none
lookup k (e ∷ es) = if text_eq e.0 k then some e.1 else lookup k es

-- groups[idx] = append(groups[idx], f)
unfoldable pub append_at : ℕ → DedupFile → List (List DedupFile) → List (List DedupFile)
append_at n f [] = []
append_at zero f (g ∷ gs) = (g ++ f ∷ []) ∷ gs
append_at (suc n) f (g ∷ gs) = g ∷ append_at n f gs

pub record Grouping : Type 0 where
  pub groups : List (List DedupFile)
  pub by_num : List (Text × ℕ)
  pub by_title : List (Text × ℕ)

-- A file of the first pass: not the ones that it skips.
abbrev pub is_numbered : Bool → DedupFile → Bool
is_numbered scoped f = ltb_ℤ (pos 0) f.track && not (scoped && is_empty f.album_key)

-- The group of the file's number claims the title, unless a group has it.
abbrev pub claim_title : Bool → DedupFile → ℕ → List (Text × ℕ) → List (Text × ℕ)
claim_title scoped f idx titles =
    if is_empty f.title_key then titles else elim (lookup (title_key_of scoped f) titles) [
      | none ↦ (title_key_of scoped f, idx) ∷ titles
      | some taken ↦ titles
    ]

-- One file in the first pass.
unfoldable pub join_number : Bool → DedupFile → Grouping → Grouping
unfolding lookup number_key title_key_of append_at
join_number scoped f s = elim (lookup (number_key scoped f) s.by_num) [
  | none ↦ record {
    groups = s.groups ++ (f ∷ []) ∷ [];
    by_num = (number_key scoped f, length s.groups) ∷ s.by_num;
    by_title = claim_title scoped f (length s.groups) s.by_title;
  }
  | some idx ↦ record s {
    groups = append_at idx f s.groups;
    by_title = claim_title scoped f idx s.by_title;
  }
]

-- One file in the second pass.
unfoldable pub join_title : Bool → DedupFile → Grouping → Grouping
unfolding lookup title_key_of append_at
join_title scoped f s = elim (lookup (title_key_of scoped f) s.by_title) [
  | none ↦ record s {
    groups = s.groups ++ (f ∷ []) ∷ [];
    by_title = (title_key_of scoped f, length s.groups) ∷ s.by_title;
  }
  | some idx ↦ record s { groups = append_at idx f s.groups }
]

-- The first pass.
unfoldable pub by_numbers : Bool → List DedupFile → Grouping → Grouping
unfolding join_number
by_numbers scoped [] s = s
by_numbers scoped (f ∷ fs) s =
    by_numbers scoped fs (if is_numbered scoped f then join_number scoped f s else s)

-- The second pass.
unfoldable pub by_titles : Bool → List DedupFile → Grouping → Grouping
unfolding join_title
by_titles scoped [] s = s
by_titles scoped (f ∷ fs) s =
    by_titles scoped fs
      (if is_numbered scoped f || is_empty f.title_key then s else join_title scoped f s)

abbrev pub no_groups : Grouping
no_groups = record { groups = []; by_num = []; by_title = [] }

unfoldable pub track_groups : List DedupFile → List (List DedupFile)
unfolding by_numbers by_titles multi_album
track_groups files =
    let scoped = multi_album files in
    (by_titles scoped files (by_numbers scoped files no_groups)).groups

-- The file displaces the best one so far.
unfoldable pub beats : DedupFile → DedupFile → Bool
beats f best =
    if f.lossless && not best.lossless
    then true
    else if not f.lossless && best.lossless
    then false
    else if ltb_ℤ best.size f.size
    then true
    else if ltb_ℤ f.size best.size
    then false
    else text_lt f.path best.path

-- The loop of winner.
unfoldable pub winner_from : DedupFile → List DedupFile → DedupFile
unfolding beats
winner_from best [] = best
winner_from best (f ∷ fs) = winner_from (if beats f best then f else best) fs

abbrev pub path_is : Text → DedupFile → Bool
path_is p f = text_eq f.path p

-- The losers of one group: none of a group of less than two.
unfoldable pub group_losers : List DedupFile → List DedupFile
unfolding winner_from
group_losers [] = []
group_losers (f ∷ []) = []
group_losers (f ∷ g ∷ fs) = select (λ x. not (path_is (winner_from f (g ∷ fs)).path x)) (f ∷ g ∷ fs)

unfoldable pub all_losers : List (List DedupFile) → List DedupFile
unfolding group_losers
all_losers [] = []
all_losers (g ∷ gs) = group_losers g ++ all_losers gs

-- dedupFiles
unfoldable pub dedup_files : List DedupFile → List DedupFile
unfolding track_groups all_losers
dedup_files files = all_losers (track_groups files)
