-- ===== src/Store/Table/Found.antt =====
-- What a SELECT finds after an UPDATE or a DELETE.
use slusk.Prelude.{
  ◌+◌, ◌≡◌, refl, Bool, true, false, not, ◌&&◌, none, some, List, [], ◌∷◌, ◌++◌, arith,
  if◌then◌else◌,
}
use slusk.Store.Table.{update, delete, select, count, exists, find_row}

module _ {ℓ} {A : Type ℓ} where
  -- An UPDATE that keeps the key is seen by a SELECT with that key.
  pub find_row-update :
      (q p : A → Bool) (f : A → A) (xs : List A) (x : A)
      → ((y : A) → q (f y) ≡ q y)
      → find_row q xs ≡ some x
      → find_row q (update p f xs) ≡ some (if p x then f x else x)
  unfolding find_row update
  find_row-update q p f [] x same h = cc
  find_row-update q p f (y ∷ ys) x same h = ground (arith, same y, find_row-update q p f ys x same)

  pub find_row-none : (q : A → Bool) (xs : List A) → find_row q xs ≡ none → exists q xs ≡ false
  unfolding find_row exists
  find_row-none q [] h = refl
  find_row-none q (y ∷ ys) h = ground (arith, find_row-none q ys)

  pub find_row-append :
      (q : A → Bool) (xs ys : List A) → exists q xs ≡ false → find_row q (xs ++ ys) ≡ find_row q ys
  unfolding find_row exists
  find_row-append q [] ys h = refl
  find_row-append q (x ∷ xs) ys h = ground (arith, find_row-append q xs ys)

  -- An UPDATE of all rows with a key gives them one value of a test.
  pub exists-update_key :
      (q p r : A → Bool) (b : Bool) (f : A → A) (xs : List A)
      → ((y : A) → q y ≡ (p y && r y))
      → ((y : A) → p (f y) ≡ p y)
      → ((y : A) → r (f y) ≡ b)
      → exists q (update p f xs) ≡ (exists p xs && b)
  unfolding exists update
  exists-update_key q p r b f [] split same value = refl
  exists-update_key q p r b f (y ∷ ys) split same value = ground (
    arith,
    split y,
    split (f y),
    same y,
    value y,
    exists-update_key q p r b f ys split same value,
  )

  -- An UPDATE that takes every row of q out of it leaves none.
  pub exists-update_none :
      (q p : A → Bool) (f : A → A) (xs : List A)
      → ((y : A) → p y ≡ true → q (f y) ≡ false)
      → ((y : A) → p y ≡ false → q y ≡ false)
      → exists q (update p f xs) ≡ false
  unfolding exists update
  exists-update_none q p f [] out apart = refl
  exists-update_none q p f (y ∷ ys) out apart =
      ground (arith, out y, apart y, exists-update_none q p f ys out apart)

  pub exists-delete_none :
      (q p : A → Bool) (xs : List A)
      → ((y : A) → p y ≡ false → q y ≡ false)
      → exists q (delete p xs) ≡ false
  unfolding exists delete
  exists-delete_none q p [] apart = refl
  exists-delete_none q p (y ∷ ys) apart = ground (arith, apart y, exists-delete_none q p ys apart)

  pub exists-delete_le :
      (q p : A → Bool) (xs : List A) → exists q xs ≡ false → exists q (delete p xs) ≡ false
  unfolding exists delete
  exists-delete_le q p [] h = refl
  exists-delete_le q p (y ∷ ys) h = ground (arith, exists-delete_le q p ys)

  pub exists-select :
      (q p : A → Bool) (xs : List A) → exists q (select p xs) ≡ exists (λ y. q y && p y) xs
  unfolding exists select
  exists-select q p [] = refl
  exists-select q p (y ∷ ys) = ground (arith, exists-select q p ys)

  pub exists_same :
      (q p : A → Bool) (xs : List A) → ((y : A) → q y ≡ p y) → exists q xs ≡ exists p xs
  unfolding exists
  exists_same q p [] same = refl
  exists_same q p (y ∷ ys) same = ground (arith, same y, exists_same q p ys same)

  -- An UPDATE of rows that the SELECT leaves out, in and after it, does not change what it selects.
  pub select-update :
      (q p : A → Bool) (f : A → A) (xs : List A)
      → ((y : A) → p y ≡ true → q y ≡ false)
      → ((y : A) → p y ≡ true → q (f y) ≡ false)
      → select q (update p f xs) ≡ select q xs
  unfolding select update
  select-update q p f [] before after = refl
  select-update q p f (y ∷ ys) before after =
      ground (arith, before y, after y, select-update q p f ys before after)

  pub select-append :
      (q : A → Bool) (xs ys : List A) → select q (xs ++ ys) ≡ select q xs ++ select q ys
  unfolding select
  select-append q [] ys = refl
  select-append q (x ∷ xs) ys = ground (arith, select-append q xs ys)

  pub count-select : (q : A → Bool) (xs : List A) → count (λ y. not (q y)) (select q xs) ≡ 0
  unfolding count select
  count-select q [] = refl
  count-select q (x ∷ xs) = ground (arith, count-select q xs)

  -- An UPDATE that moves the rows it writes into q raises the count by them.
  pub count-update_gain :
      (q p : A → Bool) (f : A → A) (xs : List A)
      → ((y : A) → p y ≡ true → q y ≡ false)
      → ((y : A) → p y ≡ true → q (f y) ≡ true)
      → count q (update p f xs) ≡ count q xs + count p xs
  unfolding count update
  count-update_gain q p f [] before after = omega arith
  count-update_gain q p f (y ∷ ys) before after =
      ground (arith, before y, after y, count-update_gain q p f ys before after)

  -- An UPDATE that makes no row satisfy q leaves a table without such rows without them.
  pub exists-update_le :
      (q p : A → Bool) (f : A → A) (xs : List A)
      → ((y : A) → p y ≡ true → q (f y) ≡ false)
      → exists q xs ≡ false
      → exists q (update p f xs) ≡ false
  unfolding exists update
  exists-update_le q p f [] out h = refl
  exists-update_le q p f (y ∷ ys) out h = ground (arith, out y, exists-update_le q p f ys out)
