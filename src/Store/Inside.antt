-- ===== src/Store/Inside.antt =====
-- The rows of one college, among those outside another.
use at_app.Base.{
  Bool, true, false, not, List, [], ◌∷◌, ◌==◌, ◌≡◌, refl, sym, ◌∙◌, ap, arith, select,
}
use at_app.Store.{Uuid, Database}
use at_app.Store.Rls.{restrict, outside}

-- The rows of a college.
unfoldable pub inside : Uuid → Database → Database
unfolding restrict
inside c d = restrict (λ college. college == c) d

select-select :
    {A : Type 0} (p q : A → Bool) (xs : List A)
    → ((x : A) → p x ≡ true → q x ≡ true)
    → select p (select q xs) ≡ select p xs
unfolding select
select-select p q [] h = refl
select-select p q (x ∷ xs) h = ground (arith, h x, select-select p q xs h)

restrict-restrict :
    (p q : Uuid → Bool) (d : Database)
    → ((x : Uuid) → p x ≡ true → q x ≡ true)
    → restrict p (restrict q d) ≡ restrict p d
unfolding restrict
restrict-restrict p q d h = λ i. record {
  colleges = select-select (λ r. p r.id) (λ r. q r.id) d.colleges (λ r. h r.id) i;
  users = select-select (λ r. p r.college_id) (λ r. q r.college_id) d.users (λ r. h r.college_id) i;
  departments =
      select-select (λ r. p r.college_id) (λ r. q r.college_id) d.departments (λ r. h r.college_id)
        i;
  courses =
      select-select (λ r. p r.college_id) (λ r. q r.college_id) d.courses (λ r. h r.college_id) i;
  sections =
      select-select (λ r. p r.college_id) (λ r. q r.college_id) d.sections (λ r. h r.college_id) i;
  enrollments =
      select-select (λ r. p r.college_id) (λ r. q r.college_id) d.enrollments (λ r. h r.college_id)
        i;
  class_sessions =
      select-select (λ r. p r.college_id) (λ r. q r.college_id) d.class_sessions
        (λ r. h r.college_id) i;
  verification_attempts =
      select-select (λ r. p r.college_id) (λ r. q r.college_id) d.verification_attempts
        (λ r. h r.college_id) i;
  attendance_records =
      select-select (λ r. p r.college_id) (λ r. q r.college_id) d.attendance_records
        (λ r. h r.college_id) i;
  overrides =
      select-select (λ r. p r.college_id) (λ r. q r.college_id) d.overrides (λ r. h r.college_id) i;
  attendance_aggregates =
      select-select (λ r. p r.college_id) (λ r. q r.college_id) d.attendance_aggregates
        (λ r. h r.college_id) i;
}

inside-outside :
    (c other : Uuid) (d : Database) → (other == c) ≡ false → inside c (outside other d) ≡ inside c d
unfolding inside outside
inside-outside c other d h =
    restrict-restrict (λ x. x == c) (λ x. not (x == other)) d (λ x e. ground arith)

-- If nothing changed outside another college, nothing changed inside this one.
pub inside_of_outside :
    (c other : Uuid) (d d' : Database)
    → (other == c) ≡ false
    → outside other d ≡ outside other d'
    → inside c d ≡ inside c d'
inside_of_outside c other d d' h e =
    sym (inside-outside c other d h) ∙ ap (inside c) e ∙ inside-outside c other d' h
