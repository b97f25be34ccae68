-- ===== src/Store/Table.antt =====
-- Tables as lists of rows, with the statements of SQL that the store is made of: UPDATE … WHERE,
-- DELETE … WHERE, EXISTS, the number of rows that a WHERE selects, and SELECT.
pub mod Found
pub mod Counts
use slusk.Prelude.{
  ℕ, suc, ◌+◌, ◌≤◌, ◌<◌, ◌≡◌, refl, subst, ◌⊎◌, inl, inr, Bool, true, false, ◌&&◌, ◌||◌, Option,
  none, some, List, [], ◌∷◌, ◌++◌, arith, if◌then◌else◌, Bool-cases, All, some_eq,
}

module _ {ℓ} {A : Type ℓ} where
  -- UPDATE … SET f WHERE p
  unfoldable pub update : (A → Bool) → (A → A) → List A → List A
  update p f [] = []
  update p f (x ∷ xs) = (if p x then f x else x) ∷ update p f xs

  -- DELETE … WHERE p
  unfoldable pub delete : (A → Bool) → List A → List A
  delete p [] = []
  delete p (x ∷ xs) = let rest = delete p xs in if p x then rest else x ∷ rest

  -- SELECT … WHERE p, in the table's order
  unfoldable pub select : (A → Bool) → List A → List A
  select p [] = []
  select p (x ∷ xs) = let rest = select p xs in if p x then x ∷ rest else rest

  -- count(*) … WHERE p, which is also RowsAffected of an UPDATE with that WHERE
  unfoldable pub count : (A → Bool) → List A → ℕ
  count p [] = 0
  count p (x ∷ xs) = let rest = count p xs in if p x then suc rest else rest

  -- EXISTS (SELECT 1 … WHERE p)
  unfoldable pub exists : (A → Bool) → List A → Bool
  exists p [] = false
  exists p (x ∷ xs) = p x || exists p xs

  -- SELECT … WHERE p, where a key makes at most one row match
  unfoldable pub find_row : (A → Bool) → List A → Option A
  find_row p [] = none
  find_row p (x ∷ xs) = if p x then some x else find_row p xs

  -- ORDER BY … LIMIT 1: the first row that no later row goes before.
  unfoldable pub best : (A → A → Bool) → List A → Option A
  best before [] = none
  best before (x ∷ xs) = elim (best before xs) [
    | none ↦ some x
    | some y ↦ some (if before y x then y else x)
  ]

module _ {ℓ κ} {A : Type ℓ} (P : A → Type κ) where
  -- A property that the written rows have, and the others had, holds after an update.
  pub All-update :
      (p : A → Bool) (f : A → A) (xs : List A)
      → ((x : A) → p x ≡ true → P x → P (f x))
      → All P xs
      → All P (update p f xs)
  unfolding update
  All-update p f [] keep h = tt
  All-update p f (x ∷ xs) keep h = (here (Bool-cases (p x)), All-update p f xs keep h.1)
    where
      here : (p x ≡ true) ⊎ (p x ≡ false) → P (if p x then f x else x)
      here (inl e) = rw e (keep x e h.0)
      here (inr e) = rw e h.0

  pub All-delete : (p : A → Bool) (xs : List A) → All P xs → All P (delete p xs)
  unfolding delete
  All-delete p [] h = tt
  All-delete p (x ∷ xs) h = elim (Bool-cases (p x)) [
    | inl e ↦ rw (e, delete) (All-delete p xs h.1)
    | inr e ↦ rw (e, delete) (h.0, All-delete p xs h.1)
  ]

module _ {ℓ} {A : Type ℓ} where
  -- Rows left by a DELETE are not those it was told to delete.
  pub All-delete_self : (p : A → Bool) (xs : List A) → All (λ x. p x ≡ false) (delete p xs)
  unfolding delete
  All-delete_self p [] = tt
  All-delete_self p (x ∷ xs) = elim (Bool-cases (p x)) [
    | inl e ↦ rw (e, delete) (All-delete_self p xs)
    | inr e ↦ rw (e, delete) (e, All-delete_self p xs)
  ]

  -- A test that the update does not change selects as before.
  pub exists-update :
      (q p : A → Bool) (f : A → A) (xs : List A)
      → ((x : A) → q (f x) ≡ q x)
      → exists q (update p f xs) ≡ exists q xs
  unfolding exists update
  exists-update q p f [] same = refl
  exists-update q p f (x ∷ xs) same = ground (arith, same x, exists-update q p f xs same)

  -- Rows that the DELETE does not select are still there.
  pub exists-delete :
      (q p : A → Bool) (xs : List A)
      → ((x : A) → q x ≡ true → p x ≡ false)
      → exists q (delete p xs) ≡ exists q xs
  unfolding exists delete
  exists-delete q p [] apart = refl
  exists-delete q p (x ∷ xs) apart = ground (arith, apart x, exists-delete q p xs apart)

  pub exists-append :
      (q : A → Bool) (xs ys : List A) → exists q (xs ++ ys) ≡ (exists q xs || exists q ys)
  unfolding exists
  exists-append q [] ys = refl
  exists-append q (x ∷ xs) ys = ground (arith, exists-append q xs ys)

  pub count-update :
      (q p : A → Bool) (f : A → A) (xs : List A)
      → ((x : A) → q (f x) ≡ q x)
      → count q (update p f xs) ≡ count q xs
  unfolding count update
  count-update q p f [] same = refl
  count-update q p f (x ∷ xs) same = ground (arith, same x, count-update q p f xs same)

  pub count-append : (q : A → Bool) (xs ys : List A) → count q (xs ++ ys) ≡ count q xs + count q ys
  unfolding count
  count-append q [] ys = omega arith
  count-append q (x ∷ xs) ys = ground (arith, count-append q xs ys)

  -- An update moves the count of q by the rows that it moves in or out of q.
  pub count-delete :
      (q p : A → Bool) (xs : List A)
      → ((x : A) → q x ≡ true → p x ≡ false)
      → count q (delete p xs) ≡ count q xs
  unfolding count delete
  count-delete q p [] apart = refl
  count-delete q p (x ∷ xs) apart = ground (arith, apart x, count-delete q p xs apart)

  -- A row that q selects and the DELETE does not keeps q satisfied.
  pub exists-delete_apart :
      (q p : A → Bool) (xs : List A)
      → exists q xs ≡ true
      → exists (λ x. q x && p x) xs ≡ false
      → exists q (delete p xs) ≡ true
  unfolding exists delete
  exists-delete_apart q p [] h none_gone = h
  exists-delete_apart q p (x ∷ xs) h none_gone = ground (arith, exists-delete_apart q p xs)

  pub count_none : (q : A → Bool) (xs : List A) → All (λ x. q x ≡ false) xs → count q xs ≡ 0
  unfolding count
  count_none q [] h = refl
  count_none q (x ∷ xs) h = ground (arith, count_none q xs h.1)

  pub count_zero : (q : A → Bool) (xs : List A) → exists q xs ≡ false → count q xs ≡ 0
  unfolding count exists
  count_zero q [] h = refl
  count_zero q (x ∷ xs) h = ground (arith, count_zero q xs)

  -- An UPDATE whose WHERE selects nothing writes nothing.
  pub update_none : (p : A → Bool) (f : A → A) (xs : List A) → count p xs ≡ 0 → update p f xs ≡ xs
  unfolding count update
  update_none p f [] h = refl
  update_none p f (x ∷ xs) h = ground (arith, update_none p f xs)

  -- The same for an update that, where it writes, leaves the test as it was.
  pub count-update_where :
      (q p : A → Bool) (f : A → A) (xs : List A)
      → All (λ x. p x ≡ true → q (f x) ≡ q x) xs
      → count q (update p f xs) ≡ count q xs
  unfolding count update
  count-update_where q p f [] same = refl
  count-update_where q p f (x ∷ xs) same =
      ground (arith, same.0, count-update_where q p f xs same.1)

  -- An update that makes no row satisfy q selects no more rows.
  pub count-update_le :
      (q p : A → Bool) (f : A → A) (xs : List A)
      → ((x : A) → p x ≡ true → q (f x) ≡ true → q x ≡ true)
      → count q (update p f xs) ≤ count q xs
  unfolding count update
  count-update_le q p f [] less = omega arith
  count-update_le q p f (x ∷ xs) less = ground (arith, less x, count-update_le q p f xs less)

  pub count-delete_le : (q p : A → Bool) (xs : List A) → count q (delete p xs) ≤ count q xs
  unfolding count delete
  count-delete_le q p [] = omega arith
  count-delete_le q p (x ∷ xs) = ground (arith, count-delete_le q p xs)

  -- An update that takes every row of q out of it leaves none.
  pub count-update_zero :
      (q p : A → Bool) (f : A → A) (xs : List A)
      → All (λ x. q (if p x then f x else x) ≡ false) xs
      → count q (update p f xs) ≡ 0
  unfolding count update
  count-update_zero q p f [] out = refl
  count-update_zero q p f (x ∷ xs) out = ground (arith, out.0, count-update_zero q p f xs out.1)

  pub exists-count : (q : A → Bool) (xs : List A) → exists q xs ≡ true → 0 < count q xs
  unfolding count exists
  exists-count q [] h = cc
  exists-count q (x ∷ xs) h = ground (arith, exists-count q xs)

  pub count-exists : (q : A → Bool) (xs : List A) → 0 < count q xs → exists q xs ≡ true
  unfolding count exists
  count-exists q [] h = elim h [ ]
  count-exists q (x ∷ xs) h = ground (arith, count-exists q xs)

  -- The row that a SELECT finds satisfies its WHERE.
  pub find_row-holds : (q : A → Bool) (xs : List A) (x : A) → find_row q xs ≡ some x → q x ≡ true
  unfolding find_row
  find_row-holds q [] x h = cc
  find_row-holds q (y ∷ ys) x h = ground (arith, find_row-holds q ys x)

  pub find_row-exists :
      (q : A → Bool) (xs : List A) (x : A) → find_row q xs ≡ some x → exists q xs ≡ true
  unfolding find_row exists
  find_row-exists q [] x h = cc
  find_row-exists q (y ∷ ys) x h = ground (arith, find_row-exists q ys x)

  pub All-find_row {κ} :
      (P : A → Type κ) (q : A → Bool) (xs : List A) (x : A)
      → All P xs
      → find_row q xs ≡ some x
      → P x
  unfolding find_row
  All-find_row P q [] x all h = cc
  All-find_row P q (y ∷ ys) x all h = elim (Bool-cases (q y)) [
    | inl e ↦ subst P (some_eq (rw (e, find_row) at h)) all.0
    | inr e ↦ All-find_row P q ys x all.1 (rw (e, find_row) at h)
  ]

  -- A weaker test is met where a stronger one is.
  pub exists_mono :
      (q r : A → Bool) (xs : List A)
      → ((x : A) → q x ≡ true → r x ≡ true)
      → exists q xs ≡ true
      → exists r xs ≡ true
  unfolding exists
  exists_mono q r [] f h = cc
  exists_mono q r (x ∷ xs) f h = ground (arith, f x, exists_mono q r xs f)

  -- No row fails what all rows satisfy.
  pub exists_never : (q : A → Bool) (xs : List A) → All (λ x. q x ≡ false) xs → exists q xs ≡ false
  unfolding exists
  exists_never q [] h = refl
  exists_never q (x ∷ xs) h = ground (arith, h.0, exists_never q xs h.1)

  pub All-and {κ μ ν} :
      (P : A → Type κ) (Q : A → Type μ) (R : A → Type ν) (xs : List A)
      → ((x : A) → P x → Q x → R x)
      → All P xs
      → All Q xs
      → All R xs
  All-and P Q R [] f hp hq = tt
  All-and P Q R (x ∷ xs) f hp hq = (f x hp.0 hq.0, All-and P Q R xs f hp.1 hq.1)
