-- ===== src/Session/Start.antt =====
-- `StartSession` (server/internal/session/service.go).
use at_app.Base.{
  ℕ, suc, ◌+◌, Bool, not, ◌&&◌, Option, none, some, [], ◌∷◌, ◌++◌, ◌==◌, if◌then◌else◌,
  exists_where,
}
use at_app.Base.Int.{ℤ}
use at_app.Base.Floats.{Float, Floats}
use at_app.Store.{Uuid, Code, Time, Database, ClassSession, is_open}
use at_app.Store.Rls.{admits}
use at_app.World.{
  World, ok, Cache, Message, Svc, ◌>>=◌, ◌>>◌, pure, gets, query, statement, new_id, with_tenant,
  reject_if, in_tx, always, publish, redis_must,
}
use at_app.Session.Codes.{format_code}

pub record StartSessionResult : Type 0 where
  pub session_id : Uuid
  pub current_code : Code
  pub code_expires_in_seconds : ℕ

-- SELECT EXISTS(SELECT 1 FROM sections WHERE id = $1 AND teacher_id = $2)
unfoldable pub teaches : Uuid → Uuid → Database → Bool
teaches section teacher d =
    exists_where (λ s. s.id == section && s.teacher_id == teacher) d.sections

-- SELECT EXISTS(SELECT 1 FROM class_sessions WHERE section_id = $1 AND ended_at IS NULL)
unfoldable pub active_exists : Uuid → Database → Bool
active_exists section d =
    exists_where (λ cs. cs.section_id == section && is_open cs) d.class_sessions

-- One code, and the number used up.
unfoldable pub generate_code : Svc Code
generate_code w = (ok (format_code (w.env.draw w.calls)), record w { calls = suc w.calls })

-- observability.ActiveSessions.Inc()
unfoldable pub count_started : Svc (Unit {0})
count_started w = (ok tt, record w { sessions_started = suc w.sessions_started })

-- rdb.Set of the keys `session:%s:code` and `session:%s:prev`
unfoldable pub set_code : Uuid → Code → Time → Time → Cache → Cache
set_code session code ttl now c = record c {
  code = λ s.
      if s == session then some (record { value = code; expires = some (now + ttl) }) else c.code s;
}

unfoldable pub set_prev : Uuid → Code → Time → Time → Cache → Cache
set_prev session code ttl now c = record c {
  prev = λ s.
      if s == session then some (record { value = code; expires = some (now + ttl) }) else c.prev s;
}

-- INSERT INTO class_sessions … RETURNING id
unfoldable pub insert_session : (Uuid → ClassSession) → World → Option (Uuid × Database)
insert_session row w =
    let new = row (new_id w) in
    if admits w.env.rls w.tenant new.college_id
    then some (new.id, record (w.db) { class_sessions = w.db.class_sessions ++ new ∷ [] })
    else none

module _ (fl : Floats) where
  -- a NUMERIC column from a `*float64`
  abbrev pub numeric : ℕ → Option Float → Option ℤ
  numeric decimals none = none
  numeric decimals (some x) = some (fl.to_numeric decimals x)

  -- the row of VALUES
  abbrev pub session_row :
      Uuid
      → Uuid
      → Uuid
      → Code
      → Time
      → Option Float
      → Option Float
      → Option Float
      → Uuid
      → ClassSession
  session_row college teacher section code now lat lng radius new = record {
    id = new;
    college_id = college;
    section_id = section;
    started_by = teacher;
    started_at = now;
    ended_at = none;
    current_code = code;
    code_updated_at = now;
    geofence_override_lat = numeric 6 lat;
    geofence_override_lng = numeric 6 lng;
    geofence_override_radius_m = numeric 2 radius;
  }

  -- The transaction: the new session and its code.
  unfoldable pub open_session :
      Uuid → Uuid → Uuid → Option Float → Option Float → Option Float → Svc (Uuid × Code)
  open_session college teacher section lat lng radius = do
    with_tenant college
    exists ← query (teaches section teacher)
    reject_if (not exists) 404 "section not found or not assigned to you"
    active ← query (active_exists section)
    reject_if active 409 "a session is already active for this section"
    code ← generate_code
    now ← gets (λ w. w.now)
    id ← statement (insert_session (session_row college teacher section code now lat lng radius))
    pure (id, code)

  unfoldable pub start_session :
      Uuid → Uuid → Uuid → Option Float → Option Float → Option Float → Svc StartSessionResult
  start_session college teacher section lat lng radius = do
    (id, code) ← in_tx always (open_session college teacher section lat lng radius)
    count_started
    redis_must (set_code id code 10)
    now ← gets (λ w. w.now)
    publish (
        Message.session_started (record {
          session_id = id;
          section_id = section;
          college_id = college;
          started_by = teacher;
          started_at = now;
        }))
    pure (record { session_id = id; current_code = code; code_expires_in_seconds = 10 })
