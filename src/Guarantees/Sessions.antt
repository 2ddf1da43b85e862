-- ===== src/Guarantees/Sessions.antt =====
-- Starting a session, showing its code and ending it (server/internal/session/service.go).
use at_app.Base.{Option, ◌≡◌}
use at_app.Base.Floats.{Float, Floats}
use at_app.Store.{Uuid}
use at_app.World.{World, ok}
use at_app.Session.Start.{StartSessionResult, start_session}
use at_app.Session.Started.{Started, start_session-Ends}

-- When `StartSession` returns a result: the section is the teacher's and had no open session, the
-- one new row of the database is the open session of the result with its code, the code is the six
-- digits of a number from `crypto/rand`, and Redis holds it for the ten seconds that the result says.
pub start_session-Started :
    (fl : Floats) (c teacher section : Uuid) (lat lng radius : Option Float) (w : World)
    (r : StartSessionResult)
    → (start_session fl c teacher section lat lng radius w).0 ≡ ok r
    → Started fl c teacher section lat lng radius w r
        (start_session fl c teacher section lat lng radius w).1
start_session-Started fl c teacher section lat lng radius w r h =
    (start_session-Ends fl c teacher section lat lng radius w).at r h
