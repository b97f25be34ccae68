-- ===== src/Pipeline/Dedup/Winner.antt =====
-- The file that a group keeps: internal/pipeline/dedup.go, winner.
use slusk.Prelude.{
  ◌≡◌, refl, sym, subst, Bool, true, false, List, [], ◌∷◌, arith, All, Bool-cases, inl, inr,
}
use slusk.Prelude.Int.{ℤ, pos, negsuc, ltb_ℤ}
use slusk.Prelude.Text.{Text}
use slusk.Store.Table.{exists}
use slusk.Store.Jobs.{text_lt}
use slusk.Pipeline.Dedup.{DedupFile, beats, winner_from}

pub text_lt_irrefl : (s : Text) → text_lt s s ≡ false
unfolding text_lt
text_lt_irrefl [] = refl
text_lt_irrefl (x ∷ xs) = ground (arith, text_lt_irrefl xs)

text_lt_asym : (s t : Text) → text_lt s t ≡ true → text_lt t s ≡ false
unfolding text_lt
text_lt_asym [] [] h = refl
text_lt_asym [] (y ∷ ys) h = refl
text_lt_asym (x ∷ xs) [] h = cc
text_lt_asym (x ∷ xs) (y ∷ ys) h = ground (arith, text_lt_asym xs ys)

text_lt_chain : (s t u : Text) → text_lt s t ≡ false → text_lt t u ≡ false → text_lt s u ≡ false
unfolding text_lt
text_lt_chain [] [] u h k = k
text_lt_chain [] (y ∷ ys) u h k = cc
text_lt_chain (x ∷ xs) t [] h k = refl
text_lt_chain (x ∷ xs) [] (z ∷ zs) h k = cc
text_lt_chain (x ∷ xs) (y ∷ ys) (z ∷ zs) h k = ground (arith, text_lt_chain xs ys zs)

ltb_ℤ_asym : (a b : ℤ) → ltb_ℤ a b ≡ true → ltb_ℤ b a ≡ false
ltb_ℤ_asym (pos a) (pos b) h = ground arith
ltb_ℤ_asym (pos a) (negsuc b) h = cc
ltb_ℤ_asym (negsuc a) (pos b) h = refl
ltb_ℤ_asym (negsuc a) (negsuc b) h = ground arith

ltb_ℤ_chain : (a b c : ℤ) → ltb_ℤ a b ≡ false → ltb_ℤ b c ≡ false → ltb_ℤ a c ≡ false
ltb_ℤ_chain (pos a) (pos b) (pos c) h k = ground arith
ltb_ℤ_chain (pos a) b (negsuc c) h k = refl
ltb_ℤ_chain (pos a) (negsuc b) (pos c) h k = cc
ltb_ℤ_chain (negsuc a) (pos b) c h k = cc
ltb_ℤ_chain (negsuc a) (negsuc b) (pos c) h k = cc
ltb_ℤ_chain (negsuc a) (negsuc b) (negsuc c) h k = ground arith

pub beats_asym : (f g : DedupFile) → beats f g ≡ true → beats g f ≡ false
unfolding beats
beats_asym f g h =
    let sizes = ltb_ℤ_asym f.size g.size in
    let back = ltb_ℤ_asym g.size f.size in let paths = text_lt_asym f.path g.path in ground arith

pub beats_chain : (f g h : DedupFile) → beats f g ≡ false → beats g h ≡ false → beats f h ≡ false
unfolding beats
beats_chain f g h a b =
    let down = ltb_ℤ_chain f.size g.size h.size in
    let up = ltb_ℤ_chain h.size g.size f.size in
    let side = ltb_ℤ_chain h.size f.size g.size in
    let back = ltb_ℤ_chain g.size f.size h.size in
    let asym = ltb_ℤ_asym f.size h.size in
    let asym_2 = ltb_ℤ_asym h.size f.size in
    let one = ltb_ℤ_asym f.size g.size in
    let two = ltb_ℤ_asym g.size h.size in
    let paths = text_lt_chain f.path g.path h.path in ground arith

beats_irrefl : (f : DedupFile) → beats f f ≡ false
beats_irrefl f = elim (Bool-cases (beats f f)) [ inl e ↦ beats_asym f f e | inr e ↦ e ]

-- What does not beat the best so far does not beat the winner.
winner_from_mono :
    (x best : DedupFile) (fs : List DedupFile)
    → beats x best ≡ false
    → beats x (winner_from best fs) ≡ false
unfolding winner_from
winner_from_mono x best [] h = h
winner_from_mono x best (f ∷ fs) h = elim (Bool-cases (beats f best)) [
  | inl e ↦
      rw (e, winner_from) (winner_from_mono x f fs (beats_chain x best f h (beats_asym f best e)))
  | inr e ↦ rw (e, winner_from) (winner_from_mono x best fs h)
]

winner_from_new :
    (best f : DedupFile) (fs : List DedupFile)
    → beats f best ≡ true
    → winner_from best (f ∷ fs) ≡ winner_from f fs
unfolding winner_from
winner_from_new best f fs e = rw (e, winner_from) refl

winner_from_old :
    (best f : DedupFile) (fs : List DedupFile)
    → beats f best ≡ false
    → winner_from best (f ∷ fs) ≡ winner_from best fs
unfolding winner_from
winner_from_old best f fs e = rw (e, winner_from) refl

winner_from_nil : (best : DedupFile) → best ≡ winner_from best []
unfolding winner_from
winner_from_nil best = refl

abbrev Unbeaten : DedupFile → List DedupFile → Type 0
Unbeaten w files = All (λ f. beats f w ≡ false) files

-- No file of a group beats the group's winner, whatever the order of the files.
pub winner_from-All :
    (best : DedupFile) (fs : List DedupFile)
    → All (λ f. beats f (winner_from best fs) ≡ false) (best ∷ fs)
winner_from-All best [] =
    subst (λ w. Unbeaten w (best ∷ [])) (winner_from_nil best) (beats_irrefl best, tt)
winner_from-All best (f ∷ fs) = elim (Bool-cases (beats f best)) [
  | inl e ↦
      subst (λ w. Unbeaten w (best ∷ f ∷ fs)) (sym (winner_from_new best f fs e))
        (winner_from_mono best f fs (beats_asym f best e), winner_from-All f fs)
  | inr e ↦
      subst (λ w. Unbeaten w (best ∷ f ∷ fs)) (sym (winner_from_old best f fs e))
        (let rest = winner_from-All best fs in (rest.0, (winner_from_mono f best fs e, rest.1)))
]

-- What holds of the winner holds of a file of the group.
pub winner_from-exists :
    (q : DedupFile → Bool) (best : DedupFile) (fs : List DedupFile)
    → q (winner_from best fs) ≡ true
    → exists q (best ∷ fs) ≡ true
unfolding winner_from exists
winner_from-exists q best [] h = ground arith
winner_from-exists q best (f ∷ fs) h = elim (Bool-cases (beats f best)) [
  | inl e ↦ let rest = winner_from-exists q f fs (rw (e, winner_from) at h) in ground arith
  | inr e ↦ let rest = winner_from-exists q best fs (rw (e, winner_from) at h) in ground arith
]
