-- ===== src/Atomic.antt =====
-- The requests of the services as transactions: one that fails has not changed the database
-- (server/internal/verification/service.go, session/service.go, attendance/service.go,
-- reporting/updater.go).
use at_app.Base.{◌⊎◌, inl, inr, Option, none, some, List, [], ◌∷◌, ◌≡◌, refl}
use at_app.Base.Floats.{Float, Floats}
use at_app.Store.{Uuid, Text, Code, Status, accepted, rejected}
use at_app.World.{World, Error, Result, ok, err, Message}
use at_app.World.Total.{
  Total, pure-Total, gets-Total, redis_do-Total, publish-Total, bind-Total, in_tx_then-err,
  reject_if_then-err,
}
use at_app.Verification.Signals.{Unmarshal}
use at_app.Verification.Checkin.{Attempt, early, logged, settle, submit_checkin}
use at_app.Session.Rotate.{Rotation, cached, rotated, show, get_or_rotate_code}
use at_app.Session.Summary.{SessionEnded, end_session-Ends}
use at_app.Session.End.{SessionSummary, count_ended, publish_one, publish_absent, end_session}
use at_app.Attendance.Override.{submit_override}
use at_app.Reporting.Aggregates.{publish_alert, alert, update_aggregate}

settle-Total : (c student : Uuid) (a : Attempt) → Total (settle c student a)
unfolding settle
settle-Total c student (early r) = pure-Total _
settle-Total c student (logged accepted reason id cs) =
    bind-Total _ _ (redis_do-Total _)
      λ u. bind-Total _ _ (gets-Total _) λ n. bind-Total _ _ (publish-Total _) λ u. pure-Total _
settle-Total c student (logged rejected reason id cs) =
    bind-Total _ _ (redis_do-Total _) λ u. bind-Total _ _ (redis_do-Total _) λ v. pure-Total _

-- A check-in that fails leaves the database as it was.
pub submit_checkin-atomic :
    (fl : Floats) (unmarshal : Unmarshal) (c student : Uuid) (code : Code) (bssid : Text)
    (lat lng : Float) (w : World) (e : Error)
    → (submit_checkin fl unmarshal c student code bssid lat lng w).0 ≡ err e
    → (submit_checkin fl unmarshal c student code bssid lat lng w).1.db ≡ w.db
unfolding submit_checkin
submit_checkin-atomic fl unmarshal c student code bssid lat lng w e h =
    in_tx_then-err _ _ _ w e (settle-Total c student) h

show-Total : (session : Uuid) (r : Rotation) → Total (show session r)
unfolding show
show-Total session (cached code ttl) = pure-Total _
show-Total session (rotated new old) =
    bind-Total _ _ (redis_do-Total _) λ u. bind-Total _ _ (redis_do-Total _) λ v. pure-Total _

-- A request for the code that fails leaves the database as it was.
pub get_or_rotate_code-atomic :
    (c teacher session : Uuid) (w : World) (e : Error)
    → (get_or_rotate_code c teacher session w).0 ≡ err e
    → (get_or_rotate_code c teacher session w).1.db ≡ w.db
unfolding get_or_rotate_code
get_or_rotate_code-atomic c teacher session w e h = in_tx_then-err _ _ _ w e (show-Total session) h

count_ended-Total : Total count_ended
unfolding count_ended
count_ended-Total = record { returns = λ w. (tt, refl) }

publish_absent-Total :
    (c session section : Uuid) (l : List (Uuid × Uuid)) → Total (publish_absent c session section l)
unfolding publish_absent publish_one
publish_absent-Total c session section [] = pure-Total _
publish_absent-Total c session section (p ∷ l) =
    bind-Total _ _ (bind-Total _ _ (gets-Total _) λ n. publish-Total _)
      λ u. publish_absent-Total c session section l

end_session-err :
    (c teacher session : Uuid) (w : World) (e : Error)
    → (end_session c teacher session w).0 ≡ err e
    → (end_session c teacher session w).1.db ≡ w.db
unfolding end_session
end_session-err c teacher session w e h =
    in_tx_then-err _ _ _ w e
      (λ x. bind-Total _ _ count_ended-Total λ u. bind-Total _ _ (redis_do-Total _) λ u2.
        bind-Total _ _ (publish_absent-Total c session _ _) λ u3.
          bind-Total _ _ (gets-Total _) λ n. bind-Total _ _ (publish-Total _) λ u. pure-Total _)
      h

Result-cases : {A : Type 0} (r : Result A) → ((e : Error) × (r ≡ err e)) ⊎ ((a : A) × (r ≡ ok a))
Result-cases (err e) = inl (e, refl)
Result-cases (ok a) = inr (a, refl)

-- Whatever calls fail, `EndSession` returns an error and has not changed the database, or it returns
-- a summary and has closed the session, in which every student of the section has a record.
pub end_session-atomic :
    (c teacher session : Uuid) (w : World)
    → ((e : Error) × ((end_session c teacher session w).0 ≡ err e)
        × ((end_session c teacher session w).1.db ≡ w.db))
      ⊎ ((s : SessionSummary) × ((end_session c teacher session w).0 ≡ ok s)
          × SessionEnded c teacher session w s (end_session c teacher session w).1)
end_session-atomic c teacher session w = elim (Result-cases (end_session c teacher session w).0) [
  | inl (e, h) ↦ inl (e, h, end_session-err c teacher session w e h)
  | inr (s, h) ↦ inr (s, h, (end_session-Ends c teacher session w).at s h)
]

module _ (fl : Floats) where
  publish_alert-Total : (m : Option Message) → Total (publish_alert fl m)
  unfolding publish_alert
  publish_alert-Total none = pure-Total _
  publish_alert-Total (some m) = publish-Total m

  -- An update of an aggregate that fails leaves the database as it was.
  pub update_aggregate-atomic :
      (c student section : Uuid) (w : World) (e : Error)
      → (update_aggregate fl c student section w).0 ≡ err e
      → (update_aggregate fl c student section w).1.db ≡ w.db
  unfolding update_aggregate
  update_aggregate-atomic c student section w e h =
      in_tx_then-err _ _ _ w e (λ a. publish_alert-Total (alert fl c student section a)) h

-- An override that fails leaves neither the record nor its audit row.
pub submit_override-atomic :
    (c teacher session student : Uuid) (status : Status) (reason : Text) (w : World) (e : Error)
    → (submit_override c teacher session student status reason w).0 ≡ err e
    → (submit_override c teacher session student status reason w).1.db ≡ w.db
unfolding submit_override
submit_override-atomic c teacher session student status reason w e h =
    reject_if_then-err _ _ _ _ w e
      (λ u. in_tx_then-err _ _ _ u e (λ x.
        bind-Total _ _ (gets-Total _) λ n. bind-Total _ _ (publish-Total _) λ u. pure-Total _))
      h
