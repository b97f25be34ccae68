-- ===== src/Store/Table/Counts.antt =====
-- Counting the rows of a table by two tests at once.
use slusk.Prelude.{
  ◌+◌, ◌≤◌, ◌<◌, ◌≡◌, refl, Bool, true, false, not, ◌&&◌, ◌||◌, some, List, [], ◌∷◌, arith,
}
use slusk.Store.Table.{update, delete, count, exists, find_row}

module _ {ℓ} {A : Type ℓ} where
  pub count_le_sum :
      (q r s : A → Bool) (xs : List A)
      → ((x : A) → q x ≡ true → (r x || s x) ≡ true)
      → count q xs ≤ count r xs + count s xs
  unfolding count
  count_le_sum q r s [] cover = omega arith
  count_le_sum q r s (x ∷ xs) cover = ground (arith, cover x, count_le_sum q r s xs cover)

  pub count_split :
      (q r : A → Bool) (xs : List A)
      → count q xs ≡ count (λ x. q x && r x) xs + count (λ x. q x && not (r x)) xs
  unfolding count
  count_split q r [] = omega arith
  count_split q r (x ∷ xs) = ground (arith, count_split q r xs)

  -- The row that a SELECT finds is counted.
  pub find_row-count :
      (q r : A → Bool) (xs : List A) (x : A)
      → find_row q xs ≡ some x
      → r x ≡ true
      → 0 < count (λ y. q y && r y) xs
  unfolding find_row count
  find_row-count q r [] x h hr = cc
  find_row-count q r (y ∷ ys) x h hr = ground (arith, find_row-count q r ys x)

  pub count-update_off :
      (q p : A → Bool) (f : A → A) (xs : List A)
      → ((x : A) → p x ≡ true → q (f x) ≡ false)
      → count q (update p f xs) ≡ count (λ x. q x && not (p x)) xs
  unfolding count update
  count-update_off q p f [] off = refl
  count-update_off q p f (x ∷ xs) off = ground (arith, off x, count-update_off q p f xs off)

  pub count-update_on :
      (q p : A → Bool) (f : A → A) (xs : List A)
      → ((x : A) → p x ≡ true → q (f x) ≡ true)
      → count q (update p f xs) ≡ count q xs + count (λ x. p x && not (q x)) xs
  unfolding count update
  count-update_on q p f [] on = omega arith
  count-update_on q p f (x ∷ xs) on = ground (arith, on x, count-update_on q p f xs on)

  pub count_same : (q r : A → Bool) (xs : List A) → ((x : A) → q x ≡ r x) → count q xs ≡ count r xs
  unfolding count
  count_same q r [] same = refl
  count_same q r (x ∷ xs) same = ground (arith, same x, count_same q r xs same)

  pub count_exists_zero : (q : A → Bool) (xs : List A) → count q xs ≡ 0 → exists q xs ≡ false
  unfolding count exists
  count_exists_zero q [] h = refl
  count_exists_zero q (x ∷ xs) h = ground (arith, count_exists_zero q xs)

  -- Rows deleted by a test that only meets rows of r are not missed by a test apart from r.
  pub exists-delete_within :
      (q p r : A → Bool) (xs : List A)
      → count (λ x. p x && not (r x)) xs ≡ 0
      → ((x : A) → q x ≡ true → r x ≡ false)
      → exists q xs ≡ true
      → exists q (delete p xs) ≡ true
  unfolding count exists delete
  exists-delete_within q p r [] within apart h = h
  exists-delete_within q p r (x ∷ xs) within apart h =
      ground (arith, apart x, exists-delete_within q p r xs)
