-- ===== src/Pipeline/Dedup/Groups.antt =====
-- The groups hold each file at most once: internal/pipeline/dedup.go, dedupFiles.
use slusk.Prelude.{
  ℕ, zero, suc, ◌+◌, ◌≤◌, ◌≡◌, Bool, not, ◌&&◌, ◌||◌, List, [], ◌∷◌, ◌++◌, arith, if◌then◌else◌,
  Bool-cases, Option-cases, inl, inr,
}
use slusk.Prelude.Text.{is_empty}
use slusk.Store.Table.{count, count-append}
use slusk.Pipeline.Dedup.{
  DedupFile, Grouping, append_at, lookup, join_number, join_title, by_numbers, by_titles,
  is_numbered, number_key, title_key_of, no_groups, track_groups, multi_album,
}

-- The files of all groups.
unfoldable pub concat : List (List DedupFile) → List DedupFile
concat [] = []
concat (g ∷ gs) = g ++ concat gs

module _ (q : DedupFile → Bool) where
  count_one : (f : DedupFile) → count q (f ∷ []) ≡ (if q f then 1 else 0)
  unfolding count
  count_one f = ground arith

  count-concat-append :
      (gs : List (List DedupFile)) (f : DedupFile)
      → count q (concat (gs ++ (f ∷ []) ∷ [])) ≡ count q (concat gs) + (if q f then 1 else 0)
  unfolding concat
  count-concat-append [] f = rw (count-append q (f ∷ []) [], count_one f) (omega arith)
  count-concat-append (g ∷ gs) f =
      rw (count-append q g (concat (gs ++ (f ∷ []) ∷ [])), count-append q g (concat gs))
        (let ih = count-concat-append gs f in omega arith)

  count-append_at :
      (n : ℕ) (f : DedupFile) (gs : List (List DedupFile))
      → count q (concat (append_at n f gs)) ≤ count q (concat gs) + (if q f then 1 else 0)
  unfolding concat append_at
  count-append_at n f [] = omega arith
  count-append_at zero f (g ∷ gs) =
      rw
        (
          count-append q (g ++ f ∷ []) (concat gs),
          count-append q g (f ∷ []),
          count-append q g (concat gs),
          count_one f,
        )
        (omega arith)
  count-append_at (suc n) f (g ∷ gs) =
      rw (count-append q g (concat (append_at n f gs)), count-append q g (concat gs))
        (let ih = count-append_at n f gs in omega arith)

  count-join_number :
      (scoped : Bool) (f : DedupFile) (s : Grouping)
      → count q (concat (join_number scoped f s).groups)
        ≤ count q (concat s.groups) + (if q f then 1 else 0)
  unfolding join_number count
  count-join_number scoped f s = elim (Option-cases (lookup (number_key scoped f) s.by_num)) [
    | inl e ↦ rw (join_number, e) (let new = count-concat-append s.groups f in omega arith)
    | inr (idx, e) ↦ rw (join_number, e) (count-append_at idx f s.groups)
  ]

  count-join_title :
      (scoped : Bool) (f : DedupFile) (s : Grouping)
      → count q (concat (join_title scoped f s).groups)
        ≤ count q (concat s.groups) + (if q f then 1 else 0)
  unfolding join_title count
  count-join_title scoped f s = elim (Option-cases (lookup (title_key_of scoped f) s.by_title)) [
    | inl e ↦ rw (join_title, e) (let new = count-concat-append s.groups f in omega arith)
    | inr (idx, e) ↦ rw (join_title, e) (count-append_at idx f s.groups)
  ]

  count-by_numbers :
      (scoped : Bool) (fs : List DedupFile) (s : Grouping)
      → count q (concat (by_numbers scoped fs s).groups)
        ≤ count q (concat s.groups) + count (λ f. q f && is_numbered scoped f) fs
  unfolding by_numbers count
  count-by_numbers scoped [] s = omega arith
  count-by_numbers scoped (f ∷ fs) s = elim (Bool-cases (is_numbered scoped f)) [
    | inl e ↦
        rw (e, by_numbers, count)
          (let ih = count-by_numbers scoped fs (join_number scoped f s) in
            let one = count-join_number scoped f s in ground arith)
    | inr e ↦ rw (e, by_numbers, count) (let ih = count-by_numbers scoped fs s in ground arith)
  ]

  count-by_titles :
      (scoped : Bool) (fs : List DedupFile) (s : Grouping)
      → count q (concat (by_titles scoped fs s).groups)
        ≤ count q (concat s.groups)
          + count (λ f. q f && not (is_numbered scoped f || is_empty f.title_key)) fs
  unfolding by_titles count
  count-by_titles scoped [] s = omega arith
  count-by_titles scoped (f ∷ fs) s =
      elim (Bool-cases (is_numbered scoped f || is_empty f.title_key)) [
        | inl e ↦ rw (e, by_titles, count) (let ih = count-by_titles scoped fs s in ground arith)
        | inr e ↦
            rw (e, by_titles, count)
              (let ih = count-by_titles scoped fs (join_title scoped f s) in
                let one = count-join_title scoped f s in ground arith)
      ]

  -- No file is in both passes.
  count-passes :
      (scoped : Bool) (fs : List DedupFile)
      → count (λ f. q f && is_numbered scoped f) fs
          + count (λ f. q f && not (is_numbered scoped f || is_empty f.title_key)) fs
        ≤ count (λ f. q f && (is_numbered scoped f || not (is_empty f.title_key))) fs
  unfolding count
  count-passes scoped [] = omega arith
  count-passes scoped (f ∷ fs) = ground (arith, count-passes scoped fs)

  -- The groups hold no more files of a kind than those that a pass can name a track for.
  pub count-track_groups :
      (files : List DedupFile)
      → count q (concat (track_groups files))
        ≤ count
            (λ f. q f && (is_numbered (multi_album files) f || not (is_empty f.title_key)))
            files
  unfolding track_groups concat count
  count-track_groups files =
      let first = count-by_numbers (multi_album files) files no_groups in
      let second =
        count-by_titles (multi_album files) files
          (by_numbers (multi_album files) files no_groups) in
      let both = count-passes (multi_album files) files in omega arith
