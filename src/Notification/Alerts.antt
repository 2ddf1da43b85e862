-- ===== src/Notification/Alerts.antt =====
-- The consumers of the topics session.started and threshold.breached
-- (server/internal/notification/consumer.go). `S` is the state of the notifier.
use at_app.Base.{Option, none, some, List, [], ◌∷◌, ◌==◌, select, first, join, map, if◌then◌else◌}
use at_app.Base.Floats.{Float}
use at_app.Store.{Uuid, Text, Database}
use at_app.World.{
  World, SessionStartedEvent, ThresholdBreachedEvent, Result, ok, err, Svc, ◌>>=◌, ◌>>◌, pure,
  query, or_fail, with_tenant, in_tx, never,
}

-- SELECT c.code FROM sections s JOIN courses c ON c.id = s.course_id WHERE s.id = $1
unfoldable pub find_course_code : Uuid → Database → Option Text
find_course_code section d =
    let mine = select (λ s. s.id == section) d.sections in
    elim (first (join (λ s c. c.id == s.course_id) mine d.courses)) [
      | none ↦ none
      | some (s, c) ↦ some c.code
    ]

-- SELECT student_id FROM enrollments WHERE section_id = $1
unfoldable pub enrolled_students : Uuid → Database → List Uuid
enrolled_students section d =
    map (λ e. e.student_id) (select (λ e. e.section_id == section) d.enrollments)

-- The read-only transaction of a session's alert. The messages are sent before it is rolled back, on
-- other connections.
unfoldable pub read_enrolled : SessionStartedEvent → Svc (Text × List Uuid)
unfolding find_course_code enrolled_students
read_enrolled ev = in_tx never (do
  with_tenant ev.college_id
  found ← query (find_course_code ev.section_id)
  code ← or_fail found
  students ← query (enrolled_students ev.section_id)
  pure (code, students))

-- The transaction of a breach's alert, whose errors are passed over.
unfoldable pub read_course : ThresholdBreachedEvent → Svc Text
unfolding find_course_code
read_course ev =
    in_tx never
      (do with_tenant ev.college_id; found ← query (find_course_code ev.section_id); or_fail found)

-- The empty text, also where the transaction failed; `your_course` is the text "your course".
unfoldable pub course_or : Text → Result Text → Text
course_or your_course (err e) = your_course
course_or your_course (ok code) = if code == 0 then your_course else code

-- `send` is SendPushNotification with its error dropped: a college, a user, a title and a body.
module _ {S : Type 0} (send : Uuid → Uuid → Text → Text → S × World → S × World) where
  unfoldable pub send_all : Uuid → Text → Text → List Uuid → S × World → S × World
  send_all college title body [] s = s
  send_all college title body (student ∷ rest) s =
      send_all college title body rest (send college student title body s)

  unfoldable pub notify :
      Uuid → Text → (Text → Text) → Result (Text × List Uuid) → S × World → S × World
  unfolding send_all
  notify college title body (err e) s = s
  notify college title body (ok (code, students)) s = send_all college title (body code) students s

  -- `title` and `body` are the texts of the message, the latter with the course's code in it.
  unfoldable pub notify_enrolled_students :
      Text → (Text → Text) → SessionStartedEvent → S × World → S × World
  unfolding read_enrolled notify
  notify_enrolled_students title body ev (s, w) =
      let (r, w') = read_enrolled ev w in notify ev.college_id title body r (s, w')

  -- `body` has the course's code and the two percentages in it.
  unfoldable pub notify_breach :
      Text → Text → (Text → Float → Float → Text) → ThresholdBreachedEvent → S × World → S × World
  unfolding read_course course_or
  notify_breach your_course title body ev (s, w) =
      let (r, w') = read_course ev w in
      send ev.college_id ev.student_id title
        (body (course_or your_course r) ev.current_pct ev.threshold_pct) (s, w')
