-- ===== src/Store/Upsert.antt =====
-- What ON CONFLICT (session_id, student_id) DO UPDATE leaves in attendance_records.
use at_app.Base.{
  true, Bool, ◌≡◌, ◌∙◌, arith, some, List, [], ◌∷◌, ◌++◌, ◌&&◌, select, first, update_where,
  exists_where, exists_where-append, Option-cases, inl, inr, ==-refl, ◌==◌,
}
use at_app.Store.{Uuid, AttendanceRecord}
use at_app.Store.Attendance.{keyed, upsert_record}

module _ {A : Type 0} where
  pub exists_where-first :
      (a k : A → Bool) (xs : List A) (x : A)
      → first (select k xs) ≡ some x
      → a x ≡ true
      → exists_where (λ y. a y && k y) xs ≡ true
  unfolding first select exists_where
  exists_where-first a k [] x h e = cc
  exists_where-first a k (y ∷ ys) x h e = ground (arith, e, h, exists_where-first a k ys x)

  pub exists_where-updated :
      (q p : A → Bool) (f : A → A) (xs : List A)
      → ((x : A) → p x ≡ true → q (f x) ≡ true)
      → exists_where p xs ≡ true
      → exists_where q (update_where p f xs) ≡ true
  unfolding exists_where update_where
  exists_where-updated q p f [] h e = e
  exists_where-updated q p f (x ∷ xs) h e = ground (arith, h x, e, exists_where-updated q p f xs h)

  -- A row of a stronger test than the one that selects rows for the update.
  exists_where-updated_at :
      (q p stronger : A → Bool) (f : A → A) (xs : List A)
      → ((x : A) → stronger x ≡ true → (p x ≡ true) × (q (f x) ≡ true))
      → exists_where stronger xs ≡ true
      → exists_where q (update_where p f xs) ≡ true
  unfolding exists_where update_where
  exists_where-updated_at q p stronger f [] h e = e
  exists_where-updated_at q p stronger f (x ∷ xs) h e =
      ground (arith, h x, e, exists_where-updated_at q p stronger f xs h)

  pub exists_where-last :
      (q : A → Bool) (xs : List A) (x : A) → q x ≡ true → exists_where q (xs ++ x ∷ []) ≡ true
  unfolding exists_where
  exists_where-last q xs x h = exists_where-append q xs (x ∷ []) ∙ ground (arith, h)

-- A test that the new row passes, and every row of its key once it is set, holds of some row.
pub upsert_record-exists :
    (allowed : Uuid → Bool) (new : AttendanceRecord) (set : AttendanceRecord → AttendanceRecord)
    (rows rows' : List AttendanceRecord) (id : Uuid) (q : AttendanceRecord → Bool)
    → upsert_record allowed new set rows ≡ some (id, rows')
    → q new ≡ true
    → ((r : AttendanceRecord) → keyed new.session_id new.student_id r ≡ true → q (set r) ≡ true)
    → exists_where q rows' ≡ true
unfolding upsert_record
upsert_record-exists allowed new set rows rows' id q h e f =
    elim (Option-cases (first (select (keyed new.session_id new.student_id) rows))) [
      | inl n ↦
          let g : rows' ≡ rows ++ new ∷ [] = ground (arith, h, n) in
          rw g (exists_where-last q rows new e)
      | inr (old, n) ↦
          let a : allowed old.college_id ≡ true = ground (arith, h, n) in
          let p : AttendanceRecord → Bool =
            λ r. allowed r.college_id && keyed new.session_id new.student_id r in
          let g : rows' ≡ update_where p set rows = ground (arith, h, n, a) in
          rw g (
            exists_where-updated q p set rows (λ r k. f r (ground arith))
              (exists_where-first (λ r. allowed r.college_id) _ rows old n a))
    ]

-- The identifier that the statement returns is that of a row of the key which passes the test.
pub upsert_record-returned :
    (allowed : Uuid → Bool) (new : AttendanceRecord) (set : AttendanceRecord → AttendanceRecord)
    (rows rows' : List AttendanceRecord) (id : Uuid) (q : AttendanceRecord → Bool)
    → upsert_record allowed new set rows ≡ some (id, rows')
    → q new ≡ true
    → ((r : AttendanceRecord)
        → keyed new.session_id new.student_id r ≡ true
        → (q (set r) ≡ true) × ((set r).id ≡ r.id))
    → exists_where (λ r. r.id == id && q r) rows' ≡ true
unfolding upsert_record
upsert_record-returned allowed new set rows rows' id q h e f =
    elim (Option-cases (first (select (keyed new.session_id new.student_id) rows))) [
      | inl n ↦
          let g : rows' ≡ rows ++ new ∷ [] = ground (arith, h, n) in
          let i : id ≡ new.id = ground (arith, h, n) in
          rw (g, i)
            (exists_where-last (λ r. r.id == new.id && q r) rows new
              (ground (arith, e, ==-refl new.id)))
      | inr (old, n) ↦
          let a : allowed old.college_id ≡ true = ground (arith, h, n) in
          let k = keyed new.session_id new.student_id in
          let p : AttendanceRecord → Bool = λ r. allowed r.college_id && k r in
          let at : AttendanceRecord → Bool = λ r. allowed r.college_id && r.id == old.id in
          let g : rows' ≡ update_where p set rows = ground (arith, h, n, a) in
          let i : id ≡ old.id = ground (arith, h, n, a) in
          rw (g, i)
            (exists_where-updated_at (λ r. r.id == old.id && q r) p (λ r. at r && k r) set rows
              (λ r t.
                let key : k r ≡ true = ground (arith, t) in
                let same : (r.id == old.id) ≡ true = ground (arith, t) in
                let (x, y) = f r key in (ground (arith, t), ground (arith, x, y, same)))
              (exists_where-first at k rows old n (ground (arith, a, ==-refl old.id))))
    ]
