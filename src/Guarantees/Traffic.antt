-- ===== src/Guarantees/Traffic.antt =====
-- Sequences of requests of several colleges, as the handlers of server/internal pass them to the
-- services. The college of an authenticated request is the one in the caller's token, that of a
-- password reset is in the reset token, and a new college is its own.
use at_app.Base.{ℕ, not-true, Bool, true, Option, List, ◌==◌, ◌≡◌, refl, ◌∙◌}
use at_app.Base.Floats.{Float, Floats}
use at_app.Store.{Uuid, Text, Code, Time, Role, Status}
use at_app.Store.Isolation.{foreign}
use at_app.Store.Rls.{outside}
use at_app.Store.Inside.{inside, inside_of_outside}
use at_app.World.{Env, World}
use at_app.World.Isolation.{Confined}
use at_app.Verification.Signals.{Unmarshal}
use at_app.Verification.Checkin.{submit_checkin}
use at_app.Verification.Isolation.{submit_checkin-Confined}
use at_app.Session.Start.{start_session}
use at_app.Session.Rotate.{get_or_rotate_code}
use at_app.Session.End.{end_session}
use at_app.Session.Confined.{
  start_session-Confined, get_or_rotate_code-Confined, end_session-Confined,
}
use at_app.Attendance.Override.{submit_override}
use at_app.Attendance.Isolation.{submit_override-Confined}
use at_app.Reporting.Aggregates.{update_aggregate}
use at_app.Reporting.Isolation.{update_aggregate-Confined}
use at_app.Auth.Accounts.{Bcrypt, confirm_password_reset}
use at_app.Auth.Tokens.{Jwt, Token, Secret, validate_password_reset_token}
use at_app.Auth.Confined.{college_of_reset, confirm_password_reset-Confined}
use at_app.Tenant.Uuids.{Bytes, new_uuid_v4}
use at_app.Tenant.Colleges.{create_college}
use at_app.Tenant.Confined.{college_of_uuid, create_college-Confined}
use at_app.Admin.Create.{create_user, create_department, create_course, create_section}
use at_app.Admin.Import.{Row, bulk_import_users_csv, bulk_import_enrollments_csv}
use at_app.Admin.Confined.{
  create_user-Confined, create_department-Confined, create_course-Confined, create_section-Confined,
  bulk_import_users_csv-Confined, bulk_import_enrollments_csv-Confined,
}
use at_app.Notification.Devices.{register_device_token, register_device_token-Confined}

-- The requests that change rows, and the event of an updated aggregate: the user where the method
-- asks for one, and its arguments.
pub data Request : Type 0 where
  starts_session : Uuid → Uuid → Option Float → Option Float → Option Float → Request
  shows_code ends_session : Uuid → Uuid → Request
  checks_in : Uuid → Code → Text → Float → Float → Request
  overrides_status : Uuid → Uuid → Uuid → Status → Text → Request
  updates_aggregate : Uuid → Uuid → Request
  creates_user : Role → Text → Text → Text → Request
  creates_department : Text → Request
  creates_course : Uuid → Text → Text → Option Float → Request
  creates_section :
      Uuid → Text → Uuid → Option Text → Option Float → Option Float → Option Float → Request
  imports_users imports_enrollments : List (Option Row) → Request
  registers_token : Uuid → Text → Request
  resets_password : Token → Text → Request
  creates_college : Text → Text → Text → Text → Request

module _ (fl : Floats) (unmarshal : Unmarshal) (bcrypt : Bcrypt) (jwt : Jwt) (secret : Secret)
    (uuid_of : List ℕ → Uuid) (rand : ℕ → Option Bytes) where
  -- The college that a request is for: `c` is the one in the caller's token, and a request without
  -- a college changes no rows.
  abbrev pub college_of : Uuid → Request → World → Uuid
  college_of c (resets_password token password) w =
      college_of_reset c (validate_password_reset_token jwt token secret w.now)
  college_of c (creates_college name admin_name email password) w =
      college_of_uuid uuid_of c (new_uuid_v4 (rand (w.env.draw w.calls)))
  college_of c r w = c

  -- The state behind one request of a college, however it is answered.
  unfoldable pub serve : Uuid → Request → World → World
  serve c (starts_session teacher section lat lng radius) w =
      (start_session fl c teacher section lat lng radius w).1
  serve c (shows_code teacher session) w = (get_or_rotate_code c teacher session w).1
  serve c (ends_session teacher session) w = (end_session c teacher session w).1
  serve c (checks_in student code bssid lat lng) w =
      (submit_checkin fl unmarshal c student code bssid lat lng w).1
  serve c (overrides_status teacher session student status reason) w =
      (submit_override c teacher session student status reason w).1
  serve c (updates_aggregate student section) w = (update_aggregate fl c student section w).1
  serve c (creates_user role name email password) w =
      (create_user bcrypt c role name email password w).1
  serve c (creates_department name) w = (create_department c name w).1
  serve c (creates_course department name code threshold) w =
      (create_course fl c department name code threshold w).1
  serve c (creates_section course term teacher bssid lat lng radius) w =
      (create_section fl c course term teacher bssid lat lng radius w).1
  serve c (imports_users lines) w = (bulk_import_users_csv bcrypt c lines w).1
  serve c (imports_enrollments lines) w = (bulk_import_enrollments_csv c lines w).1
  serve c (registers_token user token) w = (register_device_token c user token w).1
  serve c (resets_password token password) w =
      (confirm_password_reset jwt bcrypt secret token password w).1
  serve c (creates_college name admin_name email password) w =
      (create_college uuid_of rand bcrypt name admin_name email password w).1

  -- A step of the server: a request for one of the colleges that `may` names, or time that passes
  -- while services fail and recover.
  pub data Step (may : Uuid → Bool) : World → World → Type 0 where
    serves :
        (college : Uuid) (r : Request) (w : World)
        → may (college_of college r w) ≡ true
        → Step may w (serve college r w)
    waits :
        (env : Env) (now : Time) (w : World)
        → env.rls ≡ w.env.rls
        → Step may w (record w { env = env; now = now })

  pub data Reach (may : Uuid → Bool) (w : World) : World → Type 0 where
    here : Reach may w w
    next : {u v : World} → Reach may w u → Step may u v → Reach may w v

  serve-Confined :
      (c : Uuid) (r : Request) (w : World) → Confined (college_of c r w) w (serve c r w)
  unfolding serve
  serve-Confined c (starts_session teacher section lat lng radius) w =
      (start_session-Confined c fl teacher section lat lng radius).at w
  serve-Confined c (shows_code teacher session) w =
      (get_or_rotate_code-Confined c teacher session).at w
  serve-Confined c (ends_session teacher session) w = (end_session-Confined c teacher session).at w
  serve-Confined c (checks_in student code bssid lat lng) w =
      (submit_checkin-Confined fl unmarshal c student code bssid lat lng).at w
  serve-Confined c (overrides_status teacher session student status reason) w =
      (submit_override-Confined c teacher session student status reason).at w
  serve-Confined c (updates_aggregate student section) w =
      (update_aggregate-Confined c fl student section).at w
  serve-Confined c (creates_user role name email password) w =
      (create_user-Confined c bcrypt role name email password).at w
  serve-Confined c (creates_department name) w = (create_department-Confined c name).at w
  serve-Confined c (creates_course department name code threshold) w =
      (create_course-Confined c fl department name code threshold).at w
  serve-Confined c (creates_section course term teacher bssid lat lng radius) w =
      (create_section-Confined c fl course term teacher bssid lat lng radius).at w
  serve-Confined c (imports_users lines) w = (bulk_import_users_csv-Confined c bcrypt lines).at w
  serve-Confined c (imports_enrollments lines) w =
      (bulk_import_enrollments_csv-Confined c lines).at w
  serve-Confined c (registers_token user token) w =
      (register_device_token-Confined c user token).at w
  serve-Confined c (resets_password token password) w =
      confirm_password_reset-Confined jwt bcrypt secret c token password w
  serve-Confined c (creates_college name admin_name email password) w =
      create_college-Confined uuid_of rand bcrypt name admin_name email password c w

  -- Where row-level security binds the server's role: every request that changes rows, whatever it
  -- asks for and however it ends, leaves the rows of all colleges but its own as they were. Its own
  -- is the caller's, for a password reset the reset token's, and for a new college the new one.
  pub serve-outside :
      (c : Uuid) (r : Request) (w : World)
      → w.env.rls ≡ true
      → outside (college_of c r w) (serve c r w).db ≡ outside (college_of c r w) w.db
  serve-outside c r w h = (serve-Confined c r w).kept h

  -- What a request for another college does to the rows of `c`: nothing.
  Step-inside :
      (c : Uuid) {u v : World}
      → Step (foreign c) u v
      → u.env.rls ≡ true
      → (v.env.rls ≡ true) × (inside c v.db ≡ inside c u.db)
  Step-inside c (serves college r w e) h =
      let k = serve-Confined college r w in
      (
        rw k.same_env h,
        inside_of_outside c (college_of college r w) (serve college r w).db w.db
            (not-true (college_of college r w == c) e) (k.kept h),
      )
  Step-inside c (waits env now w r) h = (r ∙ h, refl)

  Reach-rls : (c : Uuid) {w v : World} → w.env.rls ≡ true → Reach (foreign c) w v → v.env.rls ≡ true
  Reach-rls c h here = h
  Reach-rls c h (next p s) = (Step-inside c s (Reach-rls c h p)).0

  -- Where row-level security binds the server's role, the rows of a college stay as they are
  -- through every sequence of requests for other colleges, whatever these ask for and whichever
  -- calls fail on the way.
  pub Reach-inside :
      (c : Uuid) {w v : World}
      → w.env.rls ≡ true
      → Reach (foreign c) w v
      → inside c v.db ≡ inside c w.db
  Reach-inside c h here = refl
  Reach-inside c h (next p s) = (Step-inside c s (Reach-rls c h p)).1 ∙ Reach-inside c h p
