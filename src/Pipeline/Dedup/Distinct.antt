-- ===== src/Pipeline/Dedup/Distinct.antt =====
-- Folders without two files of one path, and what the losers of internal/pipeline/dedup.go are
-- among their files.
use slusk.Prelude.{
  ◌≤◌, ◌≡◌, subst, Bool, true, false, not, ◌&&◌, List, [], ◌∷◌, ◌++◌, arith, All, All-mono,
  Bool-cases, &&-parts, inl, inr,
}
use slusk.Prelude.Text.{Text, text_eq→≡, text_eq_refl}
use slusk.Store.Table.{count, exists, select, count-append, exists-append, exists-count, count_zero}
use slusk.Pipeline.Dedup.{DedupFile, winner_from, path_is, group_losers, all_losers}
use slusk.Pipeline.Dedup.Groups.{concat}

-- No two files have one path, as in the listing of a folder.
unfoldable pub distinct_paths : List DedupFile → Bool
distinct_paths [] = true
distinct_paths (f ∷ fs) = not (exists (path_is f.path) fs) && distinct_paths fs

abbrev pub DistinctPaths : List DedupFile → Type 0
DistinctPaths files = (p : Text) → count (path_is p) files ≤ 1

pub distinct_paths-DistinctPaths :
    (files : List DedupFile) → distinct_paths files ≡ true → DistinctPaths files
unfolding distinct_paths count
distinct_paths-DistinctPaths [] h p = omega arith
distinct_paths-DistinctPaths (f ∷ fs) h p =
    let parts = &&-parts (not (exists (path_is f.path) fs)) (distinct_paths fs) h in
    let rest = distinct_paths-DistinctPaths fs parts.1 p in
    elim (Bool-cases (path_is p f)) [
      | inl e ↦
          let same = text_eq→≡ f.path p e in
          let free : exists (path_is p) fs ≡ false =
            subst (λ q. exists (path_is q) fs ≡ false) same (ground (arith, parts.0)) in
          let zero_more = count_zero (path_is p) fs free in ground arith
      | inr e ↦ ground arith
    ]

pub exists_within :
    (q r : DedupFile → Bool) (xs : List DedupFile)
    → All (λ x. q x ≡ true → r x ≡ true) xs
    → exists q xs ≡ true
    → exists r xs ≡ true
unfolding exists
exists_within q r [] h e = e
exists_within q r (x ∷ xs) h e = ground (arith, h.0, exists_within q r xs h.1)

pub exists-cons :
    (q : DedupFile → Bool) (x : DedupFile) (xs : List DedupFile)
    → exists q xs ≡ true
    → exists q (x ∷ xs) ≡ true
unfolding exists
exists-cons q x xs h = ground arith

-- Every file of a list has a path of it.
pub own_path : (xs : List DedupFile) → All (λ x. exists (path_is x.path) xs ≡ true) xs
unfolding exists
own_path [] = tt
own_path (x ∷ xs) = (
  let self = text_eq_refl x.path in ground arith,
  All-mono (λ y. exists (path_is y.path) xs ≡ true) (λ y. exists (path_is y.path) (x ∷ xs) ≡ true)
      xs (λ y h. exists-cons (path_is y.path) x xs h) (own_path xs),
)

pub exists-select_le :
    (q p : DedupFile → Bool) (xs : List DedupFile)
    → exists q (select p xs) ≡ true
    → exists q xs ≡ true
unfolding exists select
exists-select_le q p [] h = h
exists-select_le q p (x ∷ xs) h = ground (arith, exists-select_le q p xs)

pub exists-group_losers :
    (q : DedupFile → Bool) (g : List DedupFile)
    → exists q (group_losers g) ≡ true
    → exists q g ≡ true
unfolding group_losers exists
exists-group_losers q [] h = h
exists-group_losers q (f ∷ []) h = cc
exists-group_losers q (f ∷ g ∷ fs) h =
    exists-select_le q (λ x. not (path_is (winner_from f (g ∷ fs)).path x)) (f ∷ g ∷ fs) h

-- A loser is a file of a group.
pub exists-all_losers :
    (q : DedupFile → Bool) (gs : List (List DedupFile))
    → exists q (all_losers gs) ≡ true
    → exists q (concat gs) ≡ true
unfolding all_losers concat exists
exists-all_losers q [] h = h
exists-all_losers q (g ∷ gs) h =
    let of_group = exists-group_losers q g in
    let of_rest = exists-all_losers q gs in
    let split = exists-append q (group_losers g) (all_losers gs) in
    let join = exists-append q g (concat gs) in ground arith

pub not_both :
    (p : Text) (g rest : List DedupFile)
    → count (path_is p) (g ++ rest) ≤ 1
    → exists (path_is p) g ≡ true
    → exists (path_is p) rest ≡ false
not_both p g rest once h = elim (Bool-cases (exists (path_is p) rest)) [
  | inr e ↦ e
  | inl e ↦
      let one = exists-count (path_is p) g h in
      let two = exists-count (path_is p) rest e in
      let sum = count-append (path_is p) g rest in absurd (omega arith)
]

pub and_not : (b : Bool) → (b && not b) ≡ false
and_not b = ground arith

pub count_mono :
    (q r : DedupFile → Bool) (xs : List DedupFile)
    → ((x : DedupFile) → q x ≡ true → r x ≡ true)
    → count q xs ≤ count r xs
unfolding count
count_mono q r [] h = omega arith
count_mono q r (x ∷ xs) h = ground (arith, h x, count_mono q r xs h)
