-- ===== src/Matcher/Bytes.antt =====
-- The bytes that Go's path functions can put into their results (Matcher/Path).
use mathlib.Core.List.{reverse, reverse_aux}
use slusk.Prelude.{
  ℕ, ◌≡◌, refl, inl, inr, Bool, true, false, ◌||◌, ◌==◌, List, [], ◌∷◌, arith, Bool-cases,
  List-cases,
}
use slusk.Prelude.Text.{Text}
use slusk.Store.Table.{exists, exists-append}
use slusk.Matcher.Path.{
  slash, backslash, dot_dot, replace_backslashes, cons_segment, split_slashes, join_slashes,
  push_segment, clean_segments, is_rooted, or_dot, clean, split_dir, path_dir, after_slash,
  strip_slashes, release_dir,
}

-- The text has the byte.
abbrev pub has : ℕ → Text → Bool
has c s = exists (λ x. x == c) s

-- One of the segments has it.
abbrev pub any_has : ℕ → List Text → Bool
any_has c segments = exists (has c) segments

pub has-replace_backslashes : (s : Text) → has backslash (replace_backslashes s) ≡ false
unfolding exists replace_backslashes
has-replace_backslashes [] = refl
has-replace_backslashes (x ∷ xs) = ground (arith, has-replace_backslashes xs)

any_has-cons_segment :
    (c x : ℕ) (ss : List Text) → any_has c (cons_segment x ss) ≡ (x == c || any_has c ss)
unfolding exists
any_has-cons_segment c x [] = ground arith
any_has-cons_segment c x (s ∷ ss) = ground arith

pub any_has-split_slashes :
    (c : ℕ) (s : Text) → has c s ≡ false → any_has c (split_slashes s) ≡ false
unfolding exists split_slashes
any_has-split_slashes c [] h = refl
any_has-split_slashes c (x ∷ xs) h =
    let ih = any_has-split_slashes c xs in
    let cons = any_has-cons_segment c x (split_slashes xs) in ground (arith, ih, cons)

pub any_has-split_slashes-slash : (s : Text) → any_has slash (split_slashes s) ≡ false
unfolding exists split_slashes
any_has-split_slashes-slash [] = refl
any_has-split_slashes-slash (x ∷ xs) =
    let ih = any_has-split_slashes-slash xs in
    let cons = any_has-cons_segment slash x (split_slashes xs) in ground (arith, ih, cons)

any_has-push_segment :
    (c : ℕ) (rooted : Bool) (s : Text) (kept : List Text)
    → has c dot_dot ≡ false
    → has c s ≡ false
    → any_has c kept ≡ false
    → any_has c (push_segment rooted s kept) ≡ false
unfolding exists push_segment
any_has-push_segment c rooted s [] d h k = ground arith
any_has-push_segment c rooted s (top ∷ kept) d h k = ground arith

any_has-clean_segments :
    (c : ℕ) (rooted : Bool) (kept ss : List Text)
    → has c dot_dot ≡ false
    → any_has c kept ≡ false
    → any_has c ss ≡ false
    → any_has c (clean_segments rooted kept ss) ≡ false
unfolding clean_segments exists
any_has-clean_segments c rooted kept [] d k h = k
any_has-clean_segments c rooted kept (s ∷ ss) d k h =
    any_has-clean_segments c rooted (push_segment rooted s kept) ss d
      (any_has-push_segment c rooted s kept d (ground (arith, h)) k) (ground (arith, h))

pub exists-reverse_aux :
    {A : Type 0} (q : A → Bool) (xs r : List A)
    → exists q (reverse_aux xs r) ≡ (exists q xs || exists q r)
unfolding exists
exists-reverse_aux q [] r = refl
exists-reverse_aux q (x ∷ xs) r = let ih = exists-reverse_aux q xs (x ∷ r) in ground (arith, ih)

has-join_slashes :
    (ss : List Text) → any_has backslash ss ≡ false → has backslash (join_slashes ss) ≡ false
unfolding exists join_slashes
has-join_slashes [] h = refl
has-join_slashes (s ∷ []) h = ground (arith, h)
has-join_slashes (s ∷ t ∷ ss) h =
    let ih = has-join_slashes (t ∷ ss) in
    let parts = exists-append (λ x. x == backslash) s (slash ∷ join_slashes (t ∷ ss)) in
    ground (arith, ih, parts, h)

has-or_dot : (ss : List Text) → any_has backslash ss ≡ false → has backslash (or_dot ss) ≡ false
unfolding exists join_slashes
has-or_dot [] h = refl
has-or_dot (s ∷ ss) h = has-join_slashes (s ∷ ss) h

none_kept :
    (rooted : Bool) (p : Text)
    → has backslash p ≡ false
    → any_has backslash (reverse (clean_segments rooted [] (split_slashes p))) ≡ false
unfolding exists
none_kept rooted p h =
    let kept = clean_segments rooted [] (split_slashes p) in
    let free =
      any_has-clean_segments backslash rooted [] (split_slashes p) refl refl
        (any_has-split_slashes backslash p h) in
    let turned = exists-reverse_aux (has backslash) kept [] in ground (arith, free, turned)

pub has-clean : (p : Text) → has backslash p ≡ false → has backslash (clean p) ≡ false
unfolding clean exists
has-clean p h = elim (Bool-cases (is_rooted p)) [
  | inl e ↦
      rw e
        (has-join_slashes (reverse (clean_segments true [] (split_slashes p))) (none_kept true p h))
  | inr e ↦
      rw e (has-or_dot (reverse (clean_segments false [] (split_slashes p))) (none_kept false p h))
]

pub has-split_dir : (c : ℕ) (s : Text) → has c s ≡ false → has c (split_dir s) ≡ false
unfolding exists split_dir
has-split_dir c [] h = refl
has-split_dir c (x ∷ xs) h =
    let ih = has-split_dir c xs in
    elim (List-cases (split_dir xs)) [
      | inl e ↦ rw (e, split_dir) (ground (arith, h))
      | inr (d, ds, e) ↦ rw (e, split_dir) (ground (arith, h, ih, e))
    ]

pub has-release_dir : (f : Text) → has backslash (release_dir f) ≡ false
unfolding release_dir path_dir
has-release_dir f =
    has-clean (split_dir (replace_backslashes f))
      (has-split_dir backslash (replace_backslashes f) (has-replace_backslashes f))

pub has-strip_slashes : (c : ℕ) (s : Text) → has c s ≡ false → has c (strip_slashes s) ≡ false
unfolding exists strip_slashes
has-strip_slashes c [] h = refl
has-strip_slashes c (x ∷ xs) h =
    let ih = has-strip_slashes c xs in
    elim (List-cases (strip_slashes xs)) [
      | inl e ↦ rw (e, strip_slashes) (ground (arith, h))
      | inr (d, ds, e) ↦ rw (e, strip_slashes) (ground (arith, h, ih, e))
    ]

pub has-after_slash :
    (c : ℕ) (ss : List Text) → any_has c ss ≡ false → has c (after_slash ss) ≡ false
unfolding exists after_slash
has-after_slash c [] h = refl
has-after_slash c (s ∷ []) h = ground (arith, h)
has-after_slash c (s ∷ t ∷ ss) h = has-after_slash c (t ∷ ss) (ground (arith, h))
