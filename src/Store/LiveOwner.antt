-- ===== src/Store/LiveOwner.antt =====
-- The partial unique index idx_transfers_live_remote_owner of internal/store/migrations: one live
-- transfer per remote file, and the statements that keep it.
pub mod Statements
pub mod Deletions
pub mod Sync
pub mod History
use slusk.Prelude.{
  ℕ, suc, ◌+◌, ◌≤◌, ◌≡◌, ap, sym, subst, refl, Bool, true, false, ◌&&◌, List, [], ◌∷◌, ◌++◌, arith,
  Bool-cases, inl, inr, &&-parts, if◌then◌else◌,
}
use slusk.Prelude.Text.{Text, text_eq, text_eq→≡}
use slusk.Core.State.{TransferState, is_live}
use slusk.Core.Models.{Transfer}
use slusk.Store.Table.{
  update, delete, count, exists, count-append, count_zero, count-update_le, count-delete_le,
}
use slusk.Store.Db.{owns_live}

-- At most one live transfer of every remote file.
abbrev pub LiveUnique : List Transfer → Type 0
LiveUnique rows = (username filename : Text) → count (owns_live username filename) rows ≤ 1

count_one_row : (q : Transfer → Bool) (t : Transfer) → q t ≡ false → count q (t ∷ []) ≡ 0
unfolding count
count_one_row q t h = rw h refl

count_one_le : (q : Transfer → Bool) (t : Transfer) → count q (t ∷ []) ≤ 1
unfolding count
count_one_le q t = ground arith

-- What a row owns is its own remote file.
owned_key :
    (t : Transfer) (username filename : Text) (rows : List Transfer)
    → owns_live username filename t ≡ true
    → exists (owns_live t.username t.filename) rows ≡ false
    → exists (owns_live username filename) rows ≡ false
owned_key t username filename rows h free =
    let parts =
      &&-parts (text_eq t.username username) (text_eq t.filename filename)
        (&&-parts (is_live t.state) _ h).1 in
    subst (λ u. exists (owns_live u filename) rows ≡ false) (text_eq→≡ t.username username parts.0)
      (subst (λ f. exists (owns_live t.username f) rows ≡ false)
        (text_eq→≡ t.filename filename parts.1) free)

-- A row that no live row competes with may be inserted.
pub append-LiveUnique :
    (rows : List Transfer) (t : Transfer)
    → exists (owns_live t.username t.filename) rows ≡ false
    → LiveUnique rows
    → LiveUnique (rows ++ t ∷ [])
append-LiveUnique rows t free unique username filename =
    rw (count-append (owns_live username filename) rows (t ∷ []))
      (elim (Bool-cases (owns_live username filename t)) [
        | inl e ↦
            rw
              (count_zero (owns_live username filename) rows
                (owned_key t username filename rows e free))
              (let one = count_one_le (owns_live username filename) t in omega arith)
        | inr e ↦
            rw (count_one_row (owns_live username filename) t e)
              (let u = unique username filename in omega arith)
      ])

-- An update of rows that were live before it cannot make a second owner.
pub update-LiveUnique :
    (p : Transfer → Bool) (f : Transfer → Transfer) (rows : List Transfer)
    → ((t : Transfer) → (f t).username ≡ t.username)
    → ((t : Transfer) → (f t).filename ≡ t.filename)
    → ((t : Transfer) → p t ≡ true → is_live t.state ≡ true)
    → LiveUnique rows
    → LiveUnique (update p f rows)
update-LiveUnique p f rows same_user same_file live unique username filename =
    let le = count-update_le (owns_live username filename) p f rows (λ t chosen owns.
      let a = live t chosen in let b = same_user t in let c = same_file t in ground arith) in
    let u = unique username filename in omega arith

pub delete-LiveUnique :
    (p : Transfer → Bool) (rows : List Transfer) → LiveUnique rows → LiveUnique (delete p rows)
delete-LiveUnique p rows unique username filename =
    let u = unique username filename in
    let le = count-delete_le (owns_live username filename) p rows in omega arith
