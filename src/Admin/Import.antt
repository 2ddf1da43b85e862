-- ===== src/Admin/Import.antt =====
-- The CSV imports (server/internal/admin/service.go). A file is what its lines parse to, in their
-- order, `none` being a line that encoding/csv cannot parse; the end of the list is `io.EOF`.
use at_app.Base.{
  ℕ, ◌+◌, Bool, false, ◌&&◌, ◌||◌, Option, none, some, List, [], ◌∷◌, ◌++◌, ◌==◌, exists_where,
  length, select, first, if◌then◌else◌,
}
use at_app.Store.{Uuid, Text, Role, User, Enrollment, Database}
use at_app.Store.Rls.{admits}
use at_app.World.{
  World, internal, Svc, ◌>>=◌, ◌>>◌, pure, raise, query, statement, new_id, with_tenant, in_tx,
  always,
}
use at_app.Auth.Accounts.{Bcrypt, user_row, has_college, is_valid_role, hash_password, role_text}
use at_app.Admin.Create.{has_user, has_section}

abbrev pub Row : Type 0
Row = List Text

-- What a later `Read` returns: FieldsPerRecord 0 asks for as many fields as the first record had.
unfoldable pub read_record : ℕ → Option Row → Option Row
read_record fields none = none
read_record fields (some r) = if length r == fields then some r else none

-- The loop that reads all records in front of the transaction.
unfoldable pub read_all : ℕ → List (Option Row) → Option (List Row)
unfolding read_record
read_all fields [] = some []
read_all fields (line ∷ lines) =
    let rest = read_all fields lines in
    elim (read_record fields line) [
      | none ↦ none
      | some r ↦ elim rest [ none ↦ none | some rs ↦ some (r ∷ rs) ]
    ]

-- header[0] == "student" || header[0] == "teacher" || header[0] == "admin"
unfoldable pub is_data : Row → Bool
is_data [] = false
is_data (t ∷ ts) = t == 2 || t == 3 || t == 4

-- The rows of a file of users: the first is data if it begins with a role, and a header otherwise.
unfoldable pub user_rows : List (Option Row) → Option (List Row)
unfolding read_all is_data
user_rows [] = none
user_rows (none ∷ lines) = none
user_rows (some header ∷ lines) = elim (read_all (length header) lines) [
  | none ↦ none
  | some rows ↦ some (if is_data header then header ∷ rows else rows)
]

-- The text of a column as a role.
unfoldable pub text_role : Text → Role
text_role t =
    if t == 2
    then Role.student
    else if t == 3
    then Role.teacher
    else if t == 4
    then Role.admin
    else Role.other t

-- INSERT INTO users … ON CONFLICT (email) DO NOTHING, under CHECK (role IN …)
unfoldable pub insert_user_or_skip :
    Uuid → Role → Text → Text → Text → World → Option (Unit {0} × Database)
insert_user_or_skip college role name email hash w =
    if admits w.env.rls w.tenant college && is_valid_role role
    then if exists_where (λ u. u.email == email) w.db.users
      then some (tt, w.db)
      else if has_college w.db college
      then some (
        tt,
        record (w.db) {
          users = w.db.users ++ user_row college role name email hash (new_id w) ∷ [];
        },
      )
      else none
    else none

-- One round of the loop, and what it adds to the count.
unfoldable pub import_user : Bcrypt → Uuid → Row → Svc ℕ
unfolding insert_user_or_skip text_role
import_user bcrypt college (role ∷ name ∷ email ∷ password ∷ rest) = do
  hash ← hash_password bcrypt password
  statement (insert_user_or_skip college (text_role role) name email hash)
  pure 1
import_user bcrypt college row = pure 0

unfoldable pub import_users : Bcrypt → Uuid → ℕ → List Row → Svc ℕ
unfolding import_user
import_users bcrypt college count [] = pure count
import_users bcrypt college count (row ∷ rows) = do
  n ← import_user bcrypt college row
  import_users bcrypt college (count + n) rows

unfoldable pub import_rows : Bcrypt → Uuid → Option (List Row) → Svc ℕ
unfolding import_users
import_rows bcrypt college none = raise internal
import_rows bcrypt college (some rows) =
    in_tx always (do with_tenant college; import_users bcrypt college 0 rows)

unfoldable pub bulk_import_users_csv : Bcrypt → Uuid → List (Option Row) → Svc ℕ
unfolding user_rows import_rows
bulk_import_users_csv bcrypt college lines = import_rows bcrypt college (user_rows lines)

-- SELECT id FROM users WHERE email = $1 AND role = 'student'
unfoldable pub find_student : Text → Database → Option User
unfolding role_text
find_student email d = first (select (λ u. u.email == email && role_text u.role == 2) d.users)

abbrev pub enrollment_row : Uuid → Uuid → Uuid → Uuid → Enrollment
enrollment_row college student section new = record {
  id = new;
  college_id = college;
  student_id = student;
  section_id = section;
}

-- INSERT INTO enrollments … ON CONFLICT (student_id, section_id) DO NOTHING
unfoldable pub insert_enrollment : Uuid → Uuid → Uuid → World → Option (Unit {0} × Database)
insert_enrollment college student section w =
    if admits w.env.rls w.tenant college
    then if exists_where (λ e. e.student_id == student && e.section_id == section) w.db.enrollments
      then some (tt, w.db)
      else if has_college w.db college && has_user w.db student && has_section w.db section
      then some (
        tt,
        record (w.db) {
          enrollments = w.db.enrollments ++ enrollment_row college student section (new_id w) ∷ [];
        },
      )
      else none
    else none

-- An email without a student is passed over.
unfoldable pub enroll : Uuid → Uuid → Option User → Svc ℕ
unfolding insert_enrollment
enroll college section none = pure 0
enroll college section (some u) = do statement (insert_enrollment college u.id section); pure 1

unfoldable pub import_enrollment : Uuid → Row → Svc ℕ
unfolding find_student enroll
import_enrollment college (email ∷ section ∷ rest) = do
  found ← query (find_student email)
  enroll college section found
import_enrollment college row = pure 0

-- A line that does not parse, or has another number of fields, ends the import in its middle.
unfoldable pub import_line : Uuid → Option Row → Svc ℕ
unfolding import_enrollment
import_line college none = raise internal
import_line college (some row) = import_enrollment college row

unfoldable pub import_enrollments : Uuid → ℕ → ℕ → List (Option Row) → Svc ℕ
unfolding import_line read_record
import_enrollments college fields count [] = pure count
import_enrollments college fields count (line ∷ lines) = do
  n ← import_line college (read_record fields line)
  import_enrollments college fields (count + n) lines

-- The first record is a header, and is dropped.
unfoldable pub bulk_import_enrollments_csv : Uuid → List (Option Row) → Svc ℕ
unfolding import_enrollments
bulk_import_enrollments_csv college [] = raise internal
bulk_import_enrollments_csv college (none ∷ lines) = raise internal
bulk_import_enrollments_csv college (some header ∷ lines) =
    in_tx always (do with_tenant college; import_enrollments college (length header) 0 lines)
