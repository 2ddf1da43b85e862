-- ===== src/Session/Confined.antt =====
-- Each request of the session service stays in its college (server/internal/session/service.go).
use at_app.Base.{Option, List, [], ◌∷◌, arith}
use at_app.Base.Floats.{Float, Floats}
use at_app.Store.{Uuid}
use at_app.World.{always}
use at_app.World.Promises
use at_app.World.Promises.{IsQuiet, Follows, Follows-bind, Follows-quiet, promise_rules}
use at_app.World.Isolation.{Confined, Isolated-IsPromise, Confined-IsPromise, Confined-in_tx}
use at_app.Session.Start.{count_started, open_session, start_session}
use at_app.Session.Rotate.{Rotation, cached, rotated, commits, rotate, show, get_or_rotate_code}
use at_app.Session.End.{close_session, count_ended, publish_one, publish_absent, end_session}
use at_app.Session.Isolation.{
  insert_session-Isolated, generate_code-Isolated, show_or_rotate-Isolated, set_ended-Isolated,
  mark_absent-Isolated, summarize-Isolated,
}

module _ (c : Uuid) where
  count_started-Confined : Follows (Confined c) count_started
  unfolding count_started
  count_started-Confined = Follows-quiet (Confined-IsPromise c) _ (λ w. ground arith)

  count_ended-Confined : Follows (Confined c) count_ended
  unfolding count_ended
  count_ended-Confined = Follows-quiet (Confined-IsPromise c) _ (λ w. ground arith)

  show-Confined : (session : Uuid) (r : Rotation) → Follows (Confined c) (show session r)
  unfolding show
  show-Confined session (cached code ttl) = search (promise_rules, Confined-IsPromise)
  show-Confined session (rotated new old) = search (promise_rules, Confined-IsPromise) depth 8

  publish_one-Confined :
      (college session section record_id student : Uuid)
      → Follows (Confined c) (publish_one college session section record_id student)
  unfolding publish_one
  publish_one-Confined college session section record_id student =
      search (promise_rules, Confined-IsPromise) depth 10

  publish_absent-Confined :
      (college session section : Uuid) (l : List (Uuid × Uuid))
      → Follows (Confined c) (publish_absent college session section l)
  unfolding publish_absent
  publish_absent-Confined college session section [] = search (promise_rules, Confined-IsPromise)
  publish_absent-Confined college session section ((record_id, student) ∷ rest) =
      Follows-bind (Confined-IsPromise c) _ _
        (publish_one-Confined college session section record_id student)
        (λ u. publish_absent-Confined college session section rest)

  pub start_session-Confined :
      (fl : Floats) (teacher section : Uuid) (lat lng radius : Option Float)
      → Follows (Confined c) (start_session fl c teacher section lat lng radius)
  unfolding start_session open_session
  start_session-Confined fl teacher section lat lng radius =
      Follows-bind (Confined-IsPromise c) _ _
        (Confined-in_tx c always _ (λ u.
          search
            (
              promise_rules, Promises.Follows-statement, insert_session-Isolated,
              generate_code-Isolated, Isolated-IsPromise,
            )
            depth 20))
        (λ a. search (promise_rules, count_started-Confined, Confined-IsPromise) depth 20)

  pub get_or_rotate_code-Confined :
      (teacher session : Uuid) → Follows (Confined c) (get_or_rotate_code c teacher session)
  unfolding get_or_rotate_code rotate
  get_or_rotate_code-Confined teacher session =
      Follows-bind (Confined-IsPromise c) _ _
        (Confined-in_tx c commits _
          (λ u. search (promise_rules, show_or_rotate-Isolated, Isolated-IsPromise) depth 20))
        (show-Confined session)

  pub end_session-Confined :
      (teacher session : Uuid) → Follows (Confined c) (end_session c teacher session)
  unfolding end_session close_session
  end_session-Confined teacher session =
      Follows-bind (Confined-IsPromise c) _ _
        (Confined-in_tx c always _ (λ u.
          search
            (
              promise_rules, Promises.Follows-statement, set_ended-Isolated, mark_absent-Isolated,
              summarize-Isolated, Isolated-IsPromise,
            )
            depth 20))
        (λ a.
          search (promise_rules, count_ended-Confined, publish_absent-Confined, Confined-IsPromise)
            depth 20)
