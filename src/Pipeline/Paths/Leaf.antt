-- ===== src/Pipeline/Paths/Leaf.antt =====
-- What commonLeaf can answer: internal/pipeline/paths.go.
use mathlib.Core.List.{reverse}
use slusk.Prelude.{
  ℕ, ◌≡◌, refl, inl, inr, Bool, true, false, not, ◌||◌, ◌==◌, List, [], ◌∷◌, arith, Bool-cases,
  List-cases,
}
use slusk.Prelude.Text.{Text, text_eq, is_empty}
use slusk.Store.Table.{exists, exists-append}
use slusk.Store.Folders.{contains_slash, valid_download_leaf}
use slusk.Matcher.Path.{
  slash, backslash, dot, dot_dot, split_slashes, cons_segment, join_slashes, push_segment,
  clean_segments, is_rooted, or_dot, clean, split_dir, path_dir, after_slash, strip_slashes,
  or_root, path_base, release_dir, replace_backslashes,
}
use slusk.Matcher.Bytes.{
  has, any_has, any_has-split_slashes, any_has-split_slashes-slash, exists-reverse_aux,
  has-release_dir, has-strip_slashes, has-after_slash,
}
use slusk.Pipeline.Paths.{all_in_dir, is_top_dir, safe_leaf, common_leaf}

-- The text has a byte that is not a slash.
abbrev solid : Text → Bool
solid s = exists (λ x. not (x == slash)) s

abbrev any_hollow : List Text → Bool
any_hollow ss = exists (λ s. not (solid s)) ss

solid_segment : (s : Text) → is_empty s ≡ false → has slash s ≡ false → solid s ≡ true
unfolding exists
solid_segment [] e h = cc
solid_segment (x ∷ xs) e h = ground (arith, h)

push_solid :
    (rooted : Bool) (s : Text) (kept : List Text)
    → has slash s ≡ false
    → any_hollow kept ≡ false
    → any_hollow (push_segment rooted s kept) ≡ false
unfolding exists push_segment
push_solid rooted s [] h k = let own = solid_segment s in ground (arith, own, h)
push_solid rooted s (top ∷ kept) h k = let own = solid_segment s in ground (arith, own, h, k)

kept_solid :
    (rooted : Bool) (kept ss : List Text)
    → any_has slash ss ≡ false
    → any_hollow kept ≡ false
    → any_hollow (clean_segments rooted kept ss) ≡ false
unfolding clean_segments exists
kept_solid rooted kept [] h k = k
kept_solid rooted kept (s ∷ ss) h k =
    kept_solid rooted (push_segment rooted s kept) ss (ground (arith, h))
      (push_solid rooted s kept (ground (arith, h)) k)

turned_solid :
    (rooted : Bool) (p : Text)
    → any_hollow (reverse (clean_segments rooted [] (split_slashes p))) ≡ false
unfolding exists
turned_solid rooted p =
    let kept = clean_segments rooted [] (split_slashes p) in
    let all = kept_solid rooted [] (split_slashes p) (any_has-split_slashes-slash p) refl in
    let turned = exists-reverse_aux (λ s. not (solid s)) kept [] in ground (arith, all, turned)

join_solid : (s : Text) (ss : List Text) → solid s ≡ true → solid (join_slashes (s ∷ ss)) ≡ true
unfolding join_slashes
join_solid s [] h = h
join_solid s (t ∷ ss) h =
    let parts = exists-append (λ x. not (x == slash)) s (slash ∷ join_slashes (t ∷ ss)) in
    ground (arith, parts, h)

rooted_solid :
    (ss : List Text)
    → any_hollow ss ≡ false
    → text_eq (slash ∷ join_slashes ss) (slash ∷ []) ≡ false
    → solid (slash ∷ join_slashes ss) ≡ true
unfolding exists text_eq join_slashes
rooted_solid [] h e = cc
rooted_solid (s ∷ ss) h e = let own = join_solid s ss in ground (arith, own, h)

unrooted_solid : (ss : List Text) → any_hollow ss ≡ false → solid (or_dot ss) ≡ true
unfolding exists
unrooted_solid [] h = refl
unrooted_solid (s ∷ ss) h = join_solid s ss (ground (arith, h))

clean-solid : (p : Text) → text_eq (clean p) (slash ∷ []) ≡ false → solid (clean p) ≡ true
unfolding clean
clean-solid p h = elim (Bool-cases (is_rooted p)) [
  | inl e ↦ rw e (
      rooted_solid (reverse (clean_segments true [] (split_slashes p))) (turned_solid true p)
        (rw e at h))
  | inr e ↦
      rw e (
        unrooted_solid (reverse (clean_segments false [] (split_slashes p))) (turned_solid false p))
]

strip_full : (s : Text) → solid s ≡ true → is_empty (strip_slashes s) ≡ false
unfolding exists strip_slashes
strip_full [] h = cc
strip_full (x ∷ xs) h =
    let ih = strip_full xs in
    elim (List-cases (strip_slashes xs)) [
      | inl e ↦ rw (e, strip_slashes) (ground (arith, h, ih, e))
      | inr (d, ds, e) ↦ rw (e, strip_slashes) refl
    ]

one_byte : (x : ℕ) → (x == slash) ≡ false → is_empty (after_slash (split_slashes (x ∷ []))) ≡ false
unfolding split_slashes after_slash
one_byte x k = rw (k, split_slashes) refl

-- The last segment of a path without trailing slashes is not empty.
last_of_cons :
    (x : ℕ) (ss : List Text)
    → is_empty (after_slash ss) ≡ false
    → is_empty (after_slash (cons_segment x ss)) ≡ false
unfolding after_slash
last_of_cons x [] h = refl
last_of_cons x (s ∷ []) h = refl
last_of_cons x (s ∷ t ∷ ss) h = h

last_of_empty :
    (ss : List Text) → is_empty (after_slash ss) ≡ false → is_empty (after_slash ([] ∷ ss)) ≡ false
unfolding after_slash
last_of_empty [] h = h
last_of_empty (s ∷ ss) h = h

last_step :
    (x : ℕ) (s : Text)
    → is_empty (after_slash (split_slashes s)) ≡ false
    → is_empty (after_slash (split_slashes (x ∷ s))) ≡ false
unfolding split_slashes
last_step x s h = elim (Bool-cases (x == slash)) [
  | inl e ↦ rw (e, split_slashes) (last_of_empty (split_slashes s) h)
  | inr e ↦ rw (e, split_slashes) (last_of_cons x (split_slashes s) h)
]

last_full :
    (s : Text)
    → is_empty (strip_slashes s) ≡ false
    → is_empty (after_slash (split_slashes (strip_slashes s))) ≡ false
unfolding strip_slashes
last_full [] h = cc
last_full (x ∷ xs) h =
    let ih = last_full xs in
    elim (List-cases (strip_slashes xs)) [
      | inl e ↦ elim (Bool-cases (x == slash)) [
        | inl k ↦ cc (rw (e, k, strip_slashes) at h)
        | inr k ↦ rw (e, k, strip_slashes) (one_byte x k)
      ]
      | inr (d, ds, e) ↦ rw (e, strip_slashes) (last_step x (d ∷ ds) (rw e at (ih (rw e refl))))
    ]

or_root_full : (s : Text) → is_empty s ≡ false → or_root s ≡ s
or_root_full [] h = cc
or_root_full (x ∷ xs) h = refl

base_no_slash : (s : Text) → solid s ≡ true → has slash (path_base s) ≡ false
unfolding path_base exists
base_no_slash [] h = cc
base_no_slash (x ∷ xs) h =
    let last = after_slash (split_slashes (strip_slashes (x ∷ xs))) in
    let full = last_full (x ∷ xs) (strip_full (x ∷ xs) h) in
    rw (or_root_full last full) (
      has-after_slash slash (split_slashes (strip_slashes (x ∷ xs)))
        (any_has-split_slashes-slash (strip_slashes (x ∷ xs))))

base_no_backslash :
    (s : Text) → solid s ≡ true → has backslash s ≡ false → has backslash (path_base s) ≡ false
unfolding path_base exists
base_no_backslash [] h free = cc
base_no_backslash (x ∷ xs) h free =
    let last = after_slash (split_slashes (strip_slashes (x ∷ xs))) in
    let full = last_full (x ∷ xs) (strip_full (x ∷ xs) h) in
    rw (or_root_full last full) (
      has-after_slash backslash (split_slashes (strip_slashes (x ∷ xs))) (
        any_has-split_slashes backslash (strip_slashes (x ∷ xs))
          (has-strip_slashes backslash (x ∷ xs) free)))

contains_slash-has : (s : Text) → contains_slash s ≡ (has slash s || has backslash s)
unfolding contains_slash exists
contains_slash-has [] = refl
contains_slash-has (x ∷ xs) = ground (arith, contains_slash-has xs)

-- A leaf that the last lines of commonLeaf let through is one that may be registered.
safe_leaf_valid :
    (leaf : Text)
    → has slash leaf ≡ false
    → has backslash leaf ≡ false
    → is_empty (safe_leaf leaf) ≡ false
    → valid_download_leaf (safe_leaf leaf) ≡ true
unfolding valid_download_leaf
safe_leaf_valid leaf h k full =
    let slashes = contains_slash-has leaf in
    elim (Bool-cases (text_eq leaf dot_dot || text_eq leaf (dot ∷ []))) [
      | inl e ↦ cc (rw e at full)
      | inr e ↦ rw e (
          let kept : is_empty leaf ≡ false = rw e at full in ground (arith, slashes, e, h, k, kept))
    ]

-- Whatever file names a peer gives, the folder that commonLeaf answers, when it answers one, is
-- one path element other than . and .., so that the register of download folders accepts it and
-- nothing outside the download root is named.
pub common_leaf-valid_download_leaf :
    (filenames : List Text)
    → is_empty (common_leaf filenames) ≡ false
    → valid_download_leaf (common_leaf filenames) ≡ true
unfolding common_leaf release_dir path_dir
common_leaf-valid_download_leaf [] h = cc
common_leaf-valid_download_leaf (f ∷ fs) h =
    let common = release_dir f in
    elim (Bool-cases (all_in_dir common fs)) [
      | inr e ↦ cc (rw e at h)
      | inl e ↦ elim (Bool-cases (is_top_dir common)) [
        | inl k ↦ cc (rw (e, k) at h)
        | inr k ↦
            let not_root : text_eq common (slash ∷ []) ≡ false = ground (arith, k) in
            let full = clean-solid (split_dir (replace_backslashes f)) not_root in
            rw (e, k)
              (safe_leaf_valid (path_base common) (base_no_slash common full)
                (base_no_backslash common full (has-release_dir f)) (rw (e, k) at h))
      ]
    ]
