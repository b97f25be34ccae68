-- ===== src/Store/Format.antt =====
-- internal/store/candidates.go: the display metadata that an activation derives from the file names
-- and the release date.
use mathlib.Core.Bool.{not}
use slusk.Prelude.{
  ℕ, ◌+◌, ◌-◌, ◌*◌, Bool, false, ◌&&◌, ◌||◌, ◌==◌, Option, none, some, List, [], ◌∷◌, ltb, leb,
  if◌then◌else◌, length, take,
}
use slusk.Prelude.Text.{Text, text_eq, is_empty}
use slusk.Core.Models.{CandidateFile}
use slusk.Matcher.Path.{slash, dot}
use slusk.Store.Jobs.{text_lt}

abbrev mem : ℕ → Text → Bool
mem c [] = false
mem c (x ∷ xs) = x == c || mem c xs

-- filepath.Ext without its dot: what follows the last dot of the last element, or ''.
unfoldable pub extension : Text → Text
extension [] = []
extension (c ∷ cs) =
    let rest = extension cs in if c == dot && not (mem dot cs || mem slash cs) then cs else rest

-- strings.ToUpper on ASCII letters.
unfoldable pub to_upper : Text → Text
to_upper [] = []
to_upper (c ∷ cs) = (if leb b'a' c && leb c b'z' then c - 32 else c) ∷ to_upper cs

-- counts[ext]++
unfoldable pub bump : Text → List (Text × ℕ) → List (Text × ℕ)
bump ext [] = (ext, 1) ∷ []
bump ext ((e, n) ∷ counts) =
    let rest = bump ext counts in if text_eq e ext then (e, n + 1) ∷ counts else (e, n) ∷ rest

unfoldable pub count_formats : List CandidateFile → List (Text × ℕ)
unfolding bump to_upper extension
count_formats [] = []
count_formats (f ∷ fs) =
    let counts = count_formats fs in
    let ext = extension f.filename in if is_empty ext then counts else bump (to_upper ext) counts

-- One turn of the loop over `counts`: the better of the best so far and the next entry.
unfoldable pub better_format : Text × ℕ → Text × ℕ → Text × ℕ
better_format (best, n) (ext, count) =
    if ltb n count
    then (ext, count)
    else if count == n && text_lt ext best
    then (ext, count)
    else (best, n)

unfoldable pub pick_from : Text × ℕ → List (Text × ℕ) → Text × ℕ
pick_from best [] = best
pick_from best (entry ∷ counts) = pick_from (better_format best entry) counts

-- The loop over the map, whose order Go leaves open: the list is that order. The keys are not '',
-- so the source's `best == ""` is its first turn.
unfoldable pub pick_format : List (Text × ℕ) → Option Text
unfolding pick_from better_format
pick_format [] = none
pick_format (entry ∷ counts) = some (pick_from entry counts).0

-- dominantFormat
unfoldable pub dominant_format : List CandidateFile → Option Text
unfolding count_formats pick_format
dominant_format files = pick_format (count_formats files)

-- strconv.Atoi on four bytes; a sign leaves a value below 1000, which is refused below.
unfoldable pub digits_value : ℕ → Text → Option ℕ
digits_value acc [] = some acc
digits_value acc (c ∷ cs) =
    let rest = digits_value (acc * 10 + (c - b'0')) cs in
    if leb b'0' c && leb c b'9' then rest else none

abbrev is_sign : ℕ → Bool
is_sign c = c == b'+' || c == b'-'

unfoldable pub atoi : Text → Option ℕ
atoi [] = none
atoi (c ∷ cs) = if is_sign c then none else digits_value 0 (c ∷ cs)

abbrev year_in_range : Option ℕ → Option ℕ
year_in_range none = none
year_in_range (some year) = if ltb year 1000 || ltb 9999 year then none else some year

-- deriveYear
unfoldable pub derive_year : Text → Option ℕ
unfolding atoi digits_value
derive_year release_date =
    if ltb (length release_date) 4 then none else year_in_range (atoi (take 4 release_date))
