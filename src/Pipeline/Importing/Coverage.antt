-- ===== src/Pipeline/Importing/Coverage.antt =====
-- The tracks that an import covers: internal/pipeline/importing.go, coverage.
use slusk.Prelude.{
  ℕ, suc, ◌+◌, ◌≡◌, refl, sym, ap, ◌∙◌, subst, inl, inr, Bool, not, ◌&&◌, ◌||◌, ◌==◌, ==_iff, List,
  [], ◌∷◌, ◌++◌, arith, Bool-cases, if◌then◌else◌, length,
}
use slusk.Store.Table.{exists}
use slusk.Pipeline.Importing.{ImportItem, add_ids, covered, coverage}

abbrev pub is_in : ℕ → List ℕ → Bool
is_in k ids = exists (λ i. i == k) ids

-- The ids of all items.
unfoldable pub all_ids : List ImportItem → List ℕ
all_ids [] = []
all_ids (it ∷ items) = it.track_ids ++ all_ids items

-- The number of different ids that are not in `seen`, each counted where it stands last.
unfoldable pub different : List ℕ → List ℕ → ℕ
different seen [] = 0
different seen (id ∷ ids) =
    let rest = different seen ids in if is_in id ids || is_in id seen then rest else suc rest

different_cons :
    (x : ℕ) (seen ids : List ℕ)
    → different seen ids
      ≡ different (x ∷ seen) ids + (if is_in x ids && not (is_in x seen) then 1 else 0)
unfolding different exists
different_cons x seen [] = refl
different_cons x seen (y ∷ ys) = elim (Bool-cases (x == y)) [
  | inl e ↦
      let same = (==_iff x y).0 e in
      subst
        (λ z.
          different seen (z ∷ ys)
          ≡ different (x ∷ seen) (z ∷ ys)
            + (if is_in x (z ∷ ys) && not (is_in x seen) then 1 else 0))
        same (let ih = different_cons x seen ys in ground (arith, ih))
  | inr e ↦ let ih = different_cons x seen ys in ground (arith, ih, e)
]

length-add_ids : (ids seen : List ℕ) → length (add_ids ids seen) ≡ length seen + different seen ids
unfolding add_ids different
length-add_ids [] seen = omega arith
length-add_ids (x ∷ xs) seen = elim (Bool-cases (is_in x seen)) [
  | inl e ↦ rw (e, add_ids) (let ih = length-add_ids xs seen in ground (arith, ih, e))
  | inr e ↦
      rw (e, add_ids)
        (let ih = length-add_ids xs (x ∷ seen) in
          let more = different_cons x seen xs in ground (arith, ih, more, e))
]

add_ids-append :
    (ids more seen : List ℕ) → add_ids (ids ++ more) seen ≡ add_ids more (add_ids ids seen)
unfolding add_ids
add_ids-append [] more seen = refl
add_ids-append (x ∷ xs) more seen = add_ids-append xs more (if is_in x seen then seen else x ∷ seen)

covered-all_ids :
    (items : List ImportItem) (seen : List ℕ) → covered items seen ≡ add_ids (all_ids items) seen
unfolding covered all_ids add_ids
covered-all_ids [] seen = refl
covered-all_ids (it ∷ items) seen =
    covered-all_ids items (add_ids it.track_ids seen)
    ∙ sym (add_ids-append it.track_ids (all_ids items) seen)

-- The coverage of an import is the number of different track ids of its items.
pub coverage-different : (items : List ImportItem) → coverage items ≡ different [] (all_ids items)
unfolding coverage
coverage-different items =
    ap length (covered-all_ids items [])
    ∙ (let counted = length-add_ids (all_ids items) [] in omega arith)
