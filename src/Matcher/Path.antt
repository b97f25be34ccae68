-- ===== src/Matcher/Path.antt =====
-- Go's lexical paths (package path) over bytes, and what internal/matcher and internal/pipeline
-- derive from a peer's file names with them.
use mathlib.Core.List.{reverse}
use slusk.Prelude.{ℕ, Bool, false, ◌==◌, List, [], ◌∷◌, ◌++◌, if◌then◌else◌}
use slusk.Prelude.Text.{Text, text_eq, is_empty}

abbrev pub slash : ℕ
slash = b'/'

abbrev pub backslash : ℕ
backslash = 92

abbrev pub dot : ℕ
dot = b'.'

abbrev pub dot_dot : Text
dot_dot = dot ∷ dot ∷ []

-- strings.ReplaceAll(s, `\`, "/")
unfoldable pub replace_backslashes : Text → Text
replace_backslashes [] = []
replace_backslashes (c ∷ cs) = (if c == backslash then slash else c) ∷ replace_backslashes cs

-- strings.Split(s, "/"): never the empty list
abbrev pub cons_segment : ℕ → List Text → List Text
cons_segment c [] = (c ∷ []) ∷ []
cons_segment c (s ∷ ss) = (c ∷ s) ∷ ss

unfoldable pub split_slashes : Text → List Text
split_slashes [] = [] ∷ []
split_slashes (c ∷ cs) =
    let rest = split_slashes cs in if c == slash then [] ∷ rest else cons_segment c rest

-- strings.Join(segments, "/")
unfoldable pub join_slashes : List Text → Text
join_slashes [] = []
join_slashes (s ∷ []) = s
join_slashes (s ∷ t ∷ ss) = s ++ (slash ∷ join_slashes (t ∷ ss))

-- One path element in path.Clean, onto the elements kept so far, the last one first.
unfoldable pub push_segment : Bool → Text → List Text → List Text
push_segment rooted s [] =
    if is_empty s
    then []
    else if text_eq s (dot ∷ [])
    then []
    else if text_eq s dot_dot
    then (if rooted then [] else dot_dot ∷ [])
    else s ∷ []
push_segment rooted s (top ∷ kept) =
    if is_empty s
    then top ∷ kept
    else if text_eq s (dot ∷ [])
    then top ∷ kept
    else if text_eq s dot_dot
    then (if text_eq top dot_dot then dot_dot ∷ top ∷ kept else kept)
    else s ∷ top ∷ kept

unfoldable pub clean_segments : Bool → List Text → List Text → List Text
clean_segments rooted kept [] = kept
clean_segments rooted kept (s ∷ ss) = clean_segments rooted (push_segment rooted s kept) ss

abbrev pub is_rooted : Text → Bool
is_rooted [] = false
is_rooted (c ∷ cs) = c == slash

abbrev pub or_dot : List Text → Text
or_dot [] = dot ∷ []
or_dot (s ∷ ss) = join_slashes (s ∷ ss)

-- path.Clean
unfoldable pub clean : Text → Text
unfolding clean_segments push_segment split_slashes join_slashes text_eq
clean p =
    let kept = reverse (clean_segments (is_rooted p) [] (split_slashes p)) in
    if is_rooted p then slash ∷ join_slashes kept else or_dot kept

-- The text before the last slash, that slash included (the first result of path.Split).
unfoldable pub split_dir : Text → Text
split_dir [] = []
split_dir (c ∷ cs) = elim (split_dir cs) [
  | [] ↦ if c == slash then c ∷ [] else []
  | d ∷ ds ↦ c ∷ d ∷ ds
]

-- path.Dir
unfoldable pub path_dir : Text → Text
unfolding clean split_dir
path_dir p = clean (split_dir p)

-- What follows the last slash.
unfoldable pub after_slash : List Text → Text
after_slash [] = []
after_slash (s ∷ []) = s
after_slash (s ∷ t ∷ ss) = after_slash (t ∷ ss)

-- path without its trailing slashes
unfoldable pub strip_slashes : Text → Text
strip_slashes [] = []
strip_slashes (c ∷ cs) = elim (strip_slashes cs) [
  | [] ↦ if c == slash then [] else c ∷ []
  | d ∷ ds ↦ c ∷ d ∷ ds
]

abbrev pub or_root : Text → Text
or_root [] = slash ∷ []
or_root (c ∷ cs) = c ∷ cs

-- path.Base
unfoldable pub path_base : Text → Text
unfolding after_slash split_slashes strip_slashes
path_base [] = dot ∷ []
path_base (c ∷ cs) = or_root (after_slash (split_slashes (strip_slashes (c ∷ cs))))

-- ReleaseDir
unfoldable pub release_dir : Text → Text
unfolding path_dir replace_backslashes
release_dir filename = path_dir (replace_backslashes filename)
