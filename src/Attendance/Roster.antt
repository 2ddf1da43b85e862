-- ===== src/Attendance/Roster.antt =====
-- Who is on a session's roster (server/internal/attendance/service.go).
use at_app.Base.{
  Bool, some, List, [], ◌∷◌, ◌≡◌, refl, ◌∙◌, arith, ◌==◌, exists_where, ◌||◌, map, ap, select,
  first,
}
use at_app.Store.{Uuid, Text, Database, ClassSession, User, Enrollment}
use at_app.Attendance.Reports.{roster_row, roster_from, roster_of, with_user, insert_by, order_by}

-- Sorting keeps every row.
exists_where-insert_by :
    {A : Type 0} (before : A → A → Bool) (p : A → Bool) (x : A) (xs : List A)
    → exists_where p (insert_by before x xs) ≡ (p x || exists_where p xs)
unfolding exists_where insert_by
exists_where-insert_by before p x [] = refl
exists_where-insert_by before p x (y ∷ ys) = ground (arith, exists_where-insert_by before p x ys)

exists_where-order_by :
    {A : Type 0} (before : A → A → Bool) (p : A → Bool) (xs : List A)
    → exists_where p (order_by before xs) ≡ exists_where p xs
unfolding exists_where order_by
exists_where-order_by before p [] = refl
exists_where-order_by before p (x ∷ xs) =
    exists_where-insert_by before p x (order_by before xs)
    ∙ ap (λ b. p x || b) (exists_where-order_by before p xs)

exists_where-map :
    {A B : Type 0} (f : A → B) (p : B → Bool) (xs : List A)
    → exists_where p (map f xs) ≡ exists_where (λ x. p (f x)) xs
unfolding exists_where
exists_where-map f p [] = refl
exists_where-map f p (x ∷ xs) = ap (λ b. p (f x) || b) (exists_where-map f p xs)

exists_where-same :
    {A : Type 0} (p q : A → Bool) (xs : List A)
    → ((x : A) → p x ≡ q x)
    → exists_where p xs ≡ exists_where q xs
unfolding exists_where
exists_where-same p q [] h = refl
exists_where-same p q (x ∷ xs) h = ground (arith, h x, exists_where-same p q xs h)

roster_row-student :
    (session : Uuid) (d : Database) (student : Uuid) (x : Enrollment × User)
    → ((roster_row session d x).student_id == student) ≡ ((x.1).id == student)
unfolding roster_row
roster_row-student session d student (e, u) = ground arith

-- A student is on the roster of a session exactly when the student is enrolled in its section and
-- the user's row is visible; no record of the session is needed.
pub roster_of-enrolled :
    (collate : Text → Text → Bool) (session student : Uuid) (d : Database) (cs : ClassSession)
    → first (select (λ x. x.id == session) d.class_sessions) ≡ some cs
    → exists_where (λ r. r.student_id == student) (roster_of collate session d)
      ≡ exists_where
          (λ x. (x.1).id == student)
          (with_user (select (λ e. e.section_id == cs.section_id) d.enrollments) d)
unfolding roster_of roster_from
roster_of-enrolled collate session student d cs h =
    let rows = with_user (select (λ e. e.section_id == cs.section_id) d.enrollments) d in
    ap (λ o. exists_where (λ r. r.student_id == student) (roster_from collate session d o)) h
    ∙ (exists_where-order_by _ (λ r. r.student_id == student) (map (roster_row session d) rows)
        ∙ exists_where-map (roster_row session d) (λ r. r.student_id == student) rows
        ∙ exists_where-same _ _ rows (roster_row-student session d student))
