-- ===== src/Admin/Create.antt =====
-- The rows that an administrator creates (server/internal/admin/service.go).
use at_app.Base.{
  Bool, not, ◌&&◌, Option, none, some, [], ◌∷◌, ◌++◌, ◌==◌, exists_where, if◌then◌else◌,
}
use at_app.Base.Floats.{Float, Floats}
use at_app.Store.{Uuid, Text, Role, Department, Course, Section, Database}
use at_app.Store.Rls.{admits}
use at_app.World.{World, Svc, ◌>>=◌, ◌>>◌, statement, new_id, with_tenant, in_tx, always, reject_if}
use at_app.Session.Start.{numeric}
use at_app.Auth.Accounts.{Bcrypt, has_college, is_valid_role, insert_user, hash_password}

-- The foreign keys are checked against all rows, whatever the policies show.
abbrev pub has_department : Database → Uuid → Bool
has_department d id = exists_where (λ r. r.id == id) d.departments

abbrev pub has_course : Database → Uuid → Bool
has_course d id = exists_where (λ r. r.id == id) d.courses

abbrev pub has_section : Database → Uuid → Bool
has_section d id = exists_where (λ r. r.id == id) d.sections

abbrev pub has_user : Database → Uuid → Bool
has_user d id = exists_where (λ r. r.id == id) d.users

abbrev pub department_row : Uuid → Text → Uuid → Department
department_row college name new = record { id = new; college_id = college; name = name }

-- INSERT INTO departments … RETURNING id
unfoldable pub insert_department : Uuid → Text → World → Option (Uuid × Database)
insert_department college name w =
    if admits w.env.rls w.tenant college && has_college w.db college
    then some (
      new_id w,
      record (w.db) {
        departments = w.db.departments ++ department_row college name (new_id w) ∷ [];
      },
    )
    else none

-- INSERT INTO courses … RETURNING id
unfoldable pub insert_course : (Uuid → Course) → World → Option (Uuid × Database)
insert_course row w =
    let new = row (new_id w) in
    if admits w.env.rls w.tenant new.college_id
      && has_college w.db new.college_id
      && has_department w.db new.department_id
    then some (new.id, record (w.db) { courses = w.db.courses ++ new ∷ [] })
    else none

-- INSERT INTO sections … RETURNING id
unfoldable pub insert_section : (Uuid → Section) → World → Option (Uuid × Database)
insert_section row w =
    let new = row (new_id w) in
    if admits w.env.rls w.tenant new.college_id
      && has_college w.db new.college_id
      && has_course w.db new.course_id
      && has_user w.db new.teacher_id
    then some (new.id, record (w.db) { sections = w.db.sections ++ new ∷ [] })
    else none

-- The transaction that every creation is: the tenant, one INSERT, the commit.
unfoldable pub insert_for : Uuid → (World → Option (Uuid × Database)) → Svc Uuid
insert_for college insert = in_tx always (do with_tenant college; statement insert)

unfoldable pub create_user : Bcrypt → Uuid → Role → Text → Text → Text → Svc Uuid
unfolding insert_for insert_user
create_user bcrypt college role name email password = do
  reject_if (not (is_valid_role role)) 400 "invalid role: must be student, teacher, or admin"
  hash ← hash_password bcrypt password
  insert_for college (insert_user college role name email hash)

unfoldable pub create_department : Uuid → Text → Svc Uuid
unfolding insert_for insert_department
create_department college name = insert_for college (insert_department college name)

module _ (fl : Floats) where
  -- the row of VALUES
  abbrev pub course_row : Uuid → Uuid → Text → Text → Option Float → Uuid → Course
  course_row college department name code threshold new = record {
    id = new;
    college_id = college;
    department_id = department;
    name = name;
    code = code;
    attendance_threshold_pct = numeric fl 2 threshold;
  }

  unfoldable pub create_course : Uuid → Uuid → Text → Text → Option Float → Svc Uuid
  unfolding insert_for insert_course
  create_course college department name code threshold =
      insert_for college (insert_course (course_row college department name code threshold))

  -- the row of VALUES
  abbrev pub section_row :
      Uuid
      → Uuid
      → Text
      → Uuid
      → Option Text
      → Option Float
      → Option Float
      → Option Float
      → Uuid
      → Section
  section_row college course term teacher bssid lat lng radius new = record {
    id = new;
    college_id = college;
    course_id = course;
    term = term;
    teacher_id = teacher;
    classroom_bssid = bssid;
    classroom_geofence_lat = numeric fl 6 lat;
    classroom_geofence_lng = numeric fl 6 lng;
    classroom_geofence_radius_m = numeric fl 2 radius;
  }

  unfoldable pub create_section :
      Uuid
      → Uuid
      → Text
      → Uuid
      → Option Text
      → Option Float
      → Option Float
      → Option Float
      → Svc Uuid
  unfolding insert_for insert_section
  create_section college course term teacher bssid lat lng radius =
      insert_for college
        (insert_section (section_row college course term teacher bssid lat lng radius))
