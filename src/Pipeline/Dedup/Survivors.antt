-- ===== src/Pipeline/Dedup/Survivors.antt =====
-- What dedupFiles leaves in the folder: internal/pipeline/dedup.go.
use slusk.Prelude.{
  ◌≤◌, ◌≡◌, refl, ◌∙◌, Bool, true, false, not, ◌&&◌, ◌||◌, List, [], ◌∷◌, ◌++◌, arith, All, All-All,
  All-mono, Bool-cases, &&-parts, inl, inr,
}
use slusk.Prelude.Text.{Text, text_eq_refl, is_empty}
use slusk.Store.Table.{
  All-and, count, exists, count-append, exists-append, exists-count, exists_never, count_none,
}
use slusk.Store.Table.Found.{exists-select}
use slusk.Pipeline.Dedup.{
  DedupFile, beats, winner_from, path_is, group_losers, all_losers, track_groups, dedup_files,
  multi_album, is_numbered,
}
use slusk.Pipeline.Dedup.Winner.{winner_from-All, winner_from-exists}
use slusk.Pipeline.Dedup.Groups.{concat, count-track_groups}
use slusk.Pipeline.Dedup.Distinct.{
  distinct_paths, DistinctPaths, distinct_paths-DistinctPaths, exists_within, own_path,
  exists-group_losers, exists-all_losers, not_both, and_not, count_mono,
}

-- The file k stays when the losers go, and the loser l does not beat it.
unfoldable pub stays_for : List DedupFile → DedupFile → DedupFile → Bool
stays_for losers l k = not (beats l k) && not (exists (path_is k.path) losers)

-- A group's winner is not one of its losers.
winner_kept :
    (f : DedupFile) (fs : List DedupFile)
    → exists (path_is (winner_from f fs).path) (group_losers (f ∷ fs)) ≡ false
unfolding group_losers exists
winner_kept f [] = refl
winner_kept f (g ∷ fs) =
    let w = winner_from f (g ∷ fs) in
    exists-select (path_is w.path) (λ x. not (path_is w.path x)) (f ∷ g ∷ fs)
    ∙ exists_never (λ y. path_is w.path y && not (path_is w.path y)) (f ∷ g ∷ fs)
        (All-All (λ y. (path_is w.path y && not (path_is w.path y)) ≡ false) (f ∷ g ∷ fs)
          (λ y. and_not (path_is w.path y)))

-- Every file of the group has in the group a file that stays for it.
abbrev pub GroupStays : List DedupFile → List DedupFile → Type 0
GroupStays losers g = All (λ l. exists (stays_for losers l) g ≡ true) g

-- What is lost elsewhere is not in the group.
abbrev LostElsewhere : List DedupFile → List DedupFile → Type 0
LostElsewhere lost rest =
    (p : Text) → exists (path_is p) lost ≡ true → exists (path_is p) rest ≡ true

group_stays :
    (g rest lost : List DedupFile)
    → LostElsewhere lost rest
    → DistinctPaths (g ++ rest)
    → GroupStays (group_losers g ++ lost) g
group_stays [] rest lost below distinct = tt
group_stays (f ∷ fs) rest lost below distinct =
    All-mono (λ l. beats l w ≡ false)
      (λ l. exists (stays_for (group_losers (f ∷ fs) ++ lost) l) (f ∷ fs) ≡ true) (f ∷ fs)
      (λ l unbeaten. stays l unbeaten) (winner_from-All f fs)
  where
    w : DedupFile
    w = winner_from f fs

    here : exists (path_is w.path) (f ∷ fs) ≡ true
    here = winner_from-exists (path_is w.path) f fs (text_eq_refl w.path)

    not_there : exists (path_is w.path) lost ≡ false
    not_there =
        let free = not_both w.path (f ∷ fs) rest (distinct w.path) here in
        let le = below w.path in ground arith

    stays :
        (l : DedupFile)
        → beats l w ≡ false
        → exists (stays_for (group_losers (f ∷ fs) ++ lost) l) (f ∷ fs) ≡ true
    stays l unbeaten =
        let gone = exists-append (path_is w.path) (group_losers (f ∷ fs)) lost in
        let kept = winner_kept f fs in
        winner_from-exists (stays_for (group_losers (f ∷ fs) ++ lost) l) f fs
          (unfold stays_for in ground (arith, gone, kept, not_there, unbeaten))

-- A file of another group that stays does so when this group's losers go.
still_stays :
    (group lost_here rest lost : List DedupFile) (l x : DedupFile)
    → LostElsewhere lost_here group
    → DistinctPaths (group ++ rest)
    → exists (path_is x.path) rest ≡ true
    → stays_for lost l x ≡ true
    → stays_for (lost_here ++ lost) l x ≡ true
unfolding stays_for
still_stays group lost_here rest lost l x below distinct own s =
    elim (Bool-cases (exists (path_is x.path) group)) [
      | inl e ↦
          let no = not_both x.path group rest (distinct x.path) e in
          absurd (ground (arith, no, own))
      | inr e ↦
          let le = below x.path in
          let gone = exists-append (path_is x.path) lost_here lost in ground (arith, le, gone, e, s)
    ]

rest_stays :
    (group lost_here rest lost g : List DedupFile)
    → LostElsewhere lost_here group
    → DistinctPaths (group ++ rest)
    → LostElsewhere g rest
    → GroupStays lost g
    → GroupStays (lost_here ++ lost) g
rest_stays group lost_here rest lost g below distinct inside stay =
    All-mono (λ l. exists (stays_for lost l) g ≡ true)
      (λ l. exists (stays_for (lost_here ++ lost) l) g ≡ true) g
      (λ l h.
        exists_within (stays_for lost l) (stays_for (lost_here ++ lost) l) g
          (All-mono (λ x. exists (path_is x.path) g ≡ true)
            (λ x. stays_for lost l x ≡ true → stays_for (lost_here ++ lost) l x ≡ true) g
            (λ x own s.
              still_stays group lost_here rest lost l x below distinct (inside x.path own) s)
            (own_path g))
          h)
      stay

DistinctPaths-rest : (g rest : List DedupFile) → DistinctPaths (g ++ rest) → DistinctPaths rest
DistinctPaths-rest g rest distinct p =
    let sum = count-append (path_is p) g rest in let one = distinct p in omega arith

-- Every group is part of the files of all groups.
inside_concat : (gs : List (List DedupFile)) → All (λ g. LostElsewhere g (concat gs)) gs
unfolding concat
inside_concat [] = tt
inside_concat (g ∷ gs) = (
  λ p h. let join = exists-append (path_is p) g (concat gs) in ground (arith, join, h),
  All-mono (λ k. LostElsewhere k (concat gs)) (λ k. LostElsewhere k (g ++ concat gs)) gs
      (λ k inside p h.
        let there = inside p h in
        let join = exists-append (path_is p) g (concat gs) in ground (arith, join, there))
      (inside_concat gs),
)

all_losers-GroupStays :
    (gs : List (List DedupFile))
    → DistinctPaths (concat gs)
    → All (λ g. GroupStays (all_losers gs) g) gs
unfolding all_losers concat
all_losers-GroupStays [] distinct = tt
all_losers-GroupStays (g ∷ gs) distinct = (
  group_stays g (concat gs) (all_losers gs) (λ p. exists-all_losers (path_is p) gs) distinct,
  All-and (λ k. LostElsewhere k (concat gs)) (λ k. GroupStays (all_losers gs) k)
      (λ k. GroupStays (group_losers g ++ all_losers gs) k) gs
      (λ k inside stay.
        rest_stays g (group_losers g) (concat gs) (all_losers gs) k
          (λ p. exists-group_losers (path_is p) g) distinct inside stay)
      (inside_concat gs) (all_losers-GroupStays gs (DistinctPaths-rest g (concat gs) distinct)),
)

-- Every file that is in a group is one of the folder's.
count-track_groups_le :
    (q : DedupFile → Bool) (files : List DedupFile)
    → count q (concat (track_groups files)) ≤ count q files
count-track_groups_le q files =
    let grouped = count-track_groups q files in
    let all =
      count_mono (λ f. q f && (is_numbered (multi_album files) f || not (is_empty f.title_key))) q
        files (λ f h. (&&-parts (q f) _ h).0) in
    omega arith

-- In a folder without two files of one path, every file of a group that dedupFiles makes for one
-- track has in its group a file that it does not beat and that dedupFiles does not remove.
pub dedup_files_stays :
    (files : List DedupFile)
    → distinct_paths files ≡ true
    → All (λ g. GroupStays (dedup_files files) g) (track_groups files)
unfolding dedup_files
dedup_files_stays files distinct = all_losers-GroupStays (track_groups files) (λ p.
    let le = count-track_groups_le (path_is p) files in
    let one = distinct_paths-DistinctPaths files distinct p in omega arith)

-- The tags of the file say nothing that dedupFiles can group it by.
abbrev pub is_unidentified : List DedupFile → DedupFile → Bool
is_unidentified files f = not (is_numbered (multi_album files) f) && is_empty f.title_key

neither : (a b : Bool) → ((not a && b) && (a || not b)) ≡ false
neither a b = ground arith

-- dedupFiles never removes a file that has neither a usable track number nor a title.
pub dedup_files-is_unidentified :
    (files : List DedupFile) → exists (is_unidentified files) (dedup_files files) ≡ false
unfolding dedup_files
dedup_files-is_unidentified files =
    elim (Bool-cases (exists (is_unidentified files) (dedup_files files))) [
      | inr e ↦ e
      | inl e ↦
          let grouped =
            exists-count (is_unidentified files) _
              (exists-all_losers (is_unidentified files) (track_groups files) e) in
          let le = count-track_groups (is_unidentified files) files in
          let zero_of =
            count_none
              (λ f.
                is_unidentified files f
                && (is_numbered (multi_album files) f || not (is_empty f.title_key)))
              files
              (All-All _ files
                (λ f. neither (is_numbered (multi_album files) f) (is_empty f.title_key))) in
          absurd (omega arith)
    ]
