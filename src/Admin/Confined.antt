-- ===== src/Admin/Confined.antt =====
-- Each operation of an administrator stays in the administrator's college
-- (server/internal/admin/service.go).
use at_app.Base.{Option, none, some, List, ◌∷◌, [], length, arith, ◌≡◌}
use at_app.Base.Floats.{Float, Floats}
use at_app.Store.{Uuid, Text, Role, Database}
use at_app.World.{World}
use at_app.World.Promises
use at_app.World.Promises.{Follows, Follows-quiet, promise_rules}
use at_app.World.Isolation.{
  Isolated, Confined, Isolated-IsPromise, Confined-IsPromise, Confined-in_tx,
}
use at_app.Auth.Accounts.{Bcrypt, hash_password}
use at_app.Admin.Create.{
  insert_for, create_user, create_department, create_course, create_section, course_row,
  section_row,
}
use at_app.Admin.Import.{
  Row, user_rows, import_rows, bulk_import_users_csv, bulk_import_enrollments_csv,
}
use at_app.Admin.Isolation.{
  insert_user-Isolated, insert_department-Isolated, insert_course-Isolated, insert_section-Isolated,
}
use at_app.Admin.Imports.{import_users-Isolated, import_enrollments-Isolated}

module _ (c : Uuid) where
  insert_for-Confined :
      (insert : World → Option (Uuid × Database))
      → ((w : World) (id : Uuid) (d : Database)
          → insert w ≡ some (id, d)
          → Isolated c w (record w { db = d }))
      → Follows (Confined c) (insert_for c insert)
  unfolding insert_for
  insert_for-Confined insert h =
      Confined-in_tx c _ _ (λ u. Promises.Follows-statement (Isolated-IsPromise c) insert h)

  pub hash_password-Confined :
      (bcrypt : Bcrypt) (password : Text) → Follows (Confined c) (hash_password bcrypt password)
  unfolding hash_password
  hash_password-Confined bcrypt password =
      Follows-quiet (Confined-IsPromise c) _ (λ w. ground arith)

  pub create_user-Confined :
      (bcrypt : Bcrypt) (role : Role) (name email password : Text)
      → Follows (Confined c) (create_user bcrypt c role name email password)
  unfolding create_user
  create_user-Confined bcrypt role name email password =
      search
        (
          promise_rules, hash_password-Confined, insert_for-Confined, insert_user-Isolated,
          Confined-IsPromise,
        )
        depth 12

  pub create_department-Confined : (name : Text) → Follows (Confined c) (create_department c name)
  unfolding create_department
  create_department-Confined name = insert_for-Confined _ (insert_department-Isolated c c name)

  pub create_course-Confined :
      (fl : Floats) (department : Uuid) (name code : Text) (threshold : Option Float)
      → Follows (Confined c) (create_course fl c department name code threshold)
  unfolding create_course
  create_course-Confined fl department name code threshold =
      insert_for-Confined _
        (insert_course-Isolated c (course_row fl c department name code threshold))

  pub create_section-Confined :
      (fl : Floats) (course : Uuid) (term : Text) (teacher : Uuid) (bssid : Option Text)
      (lat lng radius : Option Float)
      → Follows (Confined c) (create_section fl c course term teacher bssid lat lng radius)
  unfolding create_section
  create_section-Confined fl course term teacher bssid lat lng radius =
      insert_for-Confined _
        (insert_section-Isolated c (section_row fl c course term teacher bssid lat lng radius))

  import_rows-Confined :
      (bcrypt : Bcrypt) (rows : Option (List Row))
      → Follows (Confined c) (import_rows bcrypt c rows)
  unfolding import_rows
  import_rows-Confined bcrypt none = search (promise_rules, Confined-IsPromise)
  import_rows-Confined bcrypt (some rows) =
      Confined-in_tx c _ _ (λ u. import_users-Isolated c bcrypt c 0 rows)

  pub bulk_import_users_csv-Confined :
      (bcrypt : Bcrypt) (lines : List (Option Row))
      → Follows (Confined c) (bulk_import_users_csv bcrypt c lines)
  unfolding bulk_import_users_csv
  bulk_import_users_csv-Confined bcrypt lines = import_rows-Confined bcrypt (user_rows lines)

  pub bulk_import_enrollments_csv-Confined :
      (lines : List (Option Row)) → Follows (Confined c) (bulk_import_enrollments_csv c lines)
  unfolding bulk_import_enrollments_csv
  bulk_import_enrollments_csv-Confined [] = search (promise_rules, Confined-IsPromise)
  bulk_import_enrollments_csv-Confined (none ∷ lines) = search (promise_rules, Confined-IsPromise)
  bulk_import_enrollments_csv-Confined (some header ∷ lines) =
      Confined-in_tx c _ _ (λ u. import_enrollments-Isolated c c (length header) 0 lines)
