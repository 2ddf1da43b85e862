-- ===== src/Admin/Imported.antt =====
-- What an import of users leaves (server/internal/admin/service.go).
use at_app.Base.{
  ℕ, ◌+◌, Bool, true, false, Option, none, some, List, ◌∷◌, ◌==◌, ◌≡◌, exists_where, count_where,
  if◌then◌else◌, All,
}
use at_app.Store.{Text, Database}
use at_app.World.{World}
use at_app.Admin.Import.{Row, user_rows}

-- The email of a row with four columns or more.
unfoldable pub email_of : Row → Option Text
email_of (role ∷ name ∷ email ∷ password ∷ rest) = some email
email_of row = none

-- The row is an account.
unfoldable pub is_account : Row → Bool
unfolding email_of
is_account row = elim (email_of row) [ none ↦ false | some email ↦ true ]

-- A user has the email.
abbrev pub has_email : Text → Database → Bool
has_email email d = exists_where (λ u. u.email == email) d.users

-- A user has the row's email, if it has one.
unfoldable pub is_listed : Database → Row → Bool
unfolding email_of
is_listed d row = elim (email_of row) [ none ↦ true | some email ↦ has_email email d ]

-- No email is lost.
record Grows (d d' : Database) : Type 0 where
  stays : (email : Text) → has_email email d ≡ true → has_email email d' ≡ true

-- The database behind one row, and the row's share of the count.
record RowDone (row : Row) (before : Database) (n : ℕ) (after : Database) : Type 0 where
  counts : n ≡ (if is_account row then 1 else 0)
  listed : is_listed after row ≡ true
  grows : Grows before after

-- The database behind the loop, and its count.
record RowsDone (count : ℕ) (rows : List Row) (before : Database) (n : ℕ) (after : Database)
    : Type 0 where
  counts : n ≡ count + count_where is_account rows
  listed : All (λ r. is_listed after r ≡ true) rows
  grows : Grows before after

-- The rows of the file were read, and there are `n` accounts among them; each account's email is
-- that of a user.
pub record Imported (lines : List (Option Row)) (n : ℕ) (after : Database) : Type 0 where
  pub rows : List Row
  pub read : user_rows lines ≡ some rows
  pub counts : n ≡ count_where is_account rows
  pub listed : All (λ r. is_listed after r ≡ true) rows
