-- ===== src/Admin/Imports.antt =====
-- The CSV imports serve one tenant (server/internal/admin/service.go).
use at_app.Base.{ℕ, ◌+◌, Option, none, some, List, [], ◌∷◌}
use at_app.Store.{Uuid, User}
use at_app.World.Promises
use at_app.World.Promises.{IsQuiet, Follows, Follows-bind, Follows-quiet, promise_rules}
use at_app.World.Isolation.{Isolated, Isolated-IsPromise}
use at_app.Auth.Accounts.{Bcrypt}
use at_app.Admin.Import.{
  Row, read_record, import_user, import_users, enroll, import_enrollment, import_line,
  import_enrollments,
}
use at_app.Admin.Isolation.{
  insert_user_or_skip-Isolated, insert_enrollment-Isolated, hash_password-Isolated,
}

module _ (c : Uuid) where
  import_user-Isolated :
      (bcrypt : Bcrypt) (college : Uuid) (row : Row)
      → Follows (Isolated c) (import_user bcrypt college row)
  unfolding import_user
  import_user-Isolated bcrypt college [] = search (promise_rules, Isolated-IsPromise)
  import_user-Isolated bcrypt college (a ∷ []) = search (promise_rules, Isolated-IsPromise)
  import_user-Isolated bcrypt college (a ∷ b ∷ []) = search (promise_rules, Isolated-IsPromise)
  import_user-Isolated bcrypt college (a ∷ b ∷ x ∷ []) = search (promise_rules, Isolated-IsPromise)
  import_user-Isolated bcrypt college (a ∷ b ∷ x ∷ y ∷ rest) =
      search
        (
          promise_rules, Promises.Follows-statement, insert_user_or_skip-Isolated,
          hash_password-Isolated, Isolated-IsPromise,
        )
        depth 12

  pub import_users-Isolated :
      (bcrypt : Bcrypt) (college : Uuid) (n : ℕ) (rows : List Row)
      → Follows (Isolated c) (import_users bcrypt college n rows)
  unfolding import_users
  import_users-Isolated bcrypt college n [] = search (promise_rules, Isolated-IsPromise)
  import_users-Isolated bcrypt college n (row ∷ rows) =
      Follows-bind (Isolated-IsPromise c) _ _ (import_user-Isolated bcrypt college row)
        (λ m. import_users-Isolated bcrypt college (n + m) rows)

  enroll-Isolated :
      (college section : Uuid) (found : Option User)
      → Follows (Isolated c) (enroll college section found)
  unfolding enroll
  enroll-Isolated college section none = search (promise_rules, Isolated-IsPromise)
  enroll-Isolated college section (some u) =
      search
        (promise_rules, Promises.Follows-statement, insert_enrollment-Isolated, Isolated-IsPromise)
        depth 12

  import_line-Isolated :
      (college : Uuid) (line : Option Row) → Follows (Isolated c) (import_line college line)
  unfolding import_line import_enrollment
  import_line-Isolated college none = search (promise_rules, Isolated-IsPromise)
  import_line-Isolated college (some []) = search (promise_rules, Isolated-IsPromise)
  import_line-Isolated college (some (a ∷ [])) = search (promise_rules, Isolated-IsPromise)
  import_line-Isolated college (some (a ∷ b ∷ rest)) =
      search (promise_rules, enroll-Isolated, Isolated-IsPromise) depth 8

  pub import_enrollments-Isolated :
      (college : Uuid) (fields n : ℕ) (lines : List (Option Row))
      → Follows (Isolated c) (import_enrollments college fields n lines)
  unfolding import_enrollments
  import_enrollments-Isolated college fields n [] = search (promise_rules, Isolated-IsPromise)
  import_enrollments-Isolated college fields n (line ∷ lines) =
      Follows-bind (Isolated-IsPromise c) _ _
        (import_line-Isolated college (read_record fields line))
        (λ m. import_enrollments-Isolated college fields (n + m) lines)
