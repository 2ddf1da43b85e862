-- ===== src/Session/Rotate.antt =====
-- `GetOrRotateCode` (server/internal/session/service.go).
use at_app.Base.{
  ℕ, Bool, true, false, ◌&&◌, Option, none, some, ◌==◌, select, first, join, update_where,
}
use at_app.Store.{Uuid, Code, Database, is_open}
use at_app.Store.Rls.{admits}
use at_app.World.{
  World, Result, ok, err, hangs, Svc, ◌>>=◌, ◌>>◌, pure, query, statement, with_tenant, or_reject,
  in_tx, redis_get, redis_ttl, redis_do,
}
use at_app.Session.Codes.{next_code}
use at_app.Session.Start.{set_code, set_prev}

-- The code of an open session whose section the teacher has.
unfoldable pub find_code : Uuid → Uuid → Database → Option Code
find_code session teacher d =
    let mine = select (λ cs. cs.id == session && is_open cs) d.class_sessions in
    elim (first (join (λ cs s. s.id == cs.section_id && s.teacher_id == teacher) mine d.sections)) [
      | none ↦ none
      | some (cs, s) ↦ some cs.current_code
    ]

-- UPDATE class_sessions SET current_code = $1, code_updated_at = NOW() WHERE id = $2
unfoldable pub update_code : Uuid → Code → World → Option (Unit {0} × Database)
update_code session code w = some (
  tt,
  record (w.db) {
    class_sessions =
        update_where (λ cs. admits w.env.rls w.tenant cs.college_id && cs.id == session)
          (λ cs. record cs { current_code = code; code_updated_at = w.now }) w.db.class_sessions;
  },
)

unfoldable pub emit : World → Option (Code × ℕ) → Result Code × World
emit w none = (err hangs, w)
emit w (some (code, i)) = (ok code, record w { calls = i })

-- A code that differs from the old one, and the numbers used up for it.
unfoldable pub generate_other : Code → Svc Code
generate_other old w = emit w (next_code w.env.fuel w.env.draw w.calls old)

-- How the transaction ends: the cached code, or a new one beside the old.
pub data Rotation : Type 0 where
  cached : Code → ℕ → Rotation
  rotated : Code → Code → Rotation

abbrev pub commits : Rotation → Bool
commits (cached code ttl) = false
commits (rotated new old) = true

-- The branches on the Redis key.
unfoldable pub show_or_rotate : Uuid → Code → Option Code → Svc Rotation
show_or_rotate session old (some val) = do
  ttl ← redis_ttl (λ c. c.code session)
  pure (cached val ttl)
show_or_rotate session old none = do
  new ← generate_other old
  statement (update_code session new)
  pure (rotated new old)

unfoldable pub rotate : Uuid → Uuid → Uuid → Svc Rotation
rotate college teacher session = do
  with_tenant college
  found ← query (find_code session teacher)
  old ← or_reject found 404 "active class session not found or not assigned to you"
  val ← redis_get (λ c. c.code session)
  show_or_rotate session old val

-- After the commit: the new code's key, and the old code's for those who are late.
unfoldable pub show : Uuid → Rotation → Svc (Code × ℕ)
show session (cached code ttl) = pure (code, ttl)
show session (rotated new old) = do
  redis_do (set_code session new 10)
  redis_do (set_prev session old 10)
  pure (new, 10)

unfoldable pub get_or_rotate_code : Uuid → Uuid → Uuid → Svc (Code × ℕ)
get_or_rotate_code college teacher session = do
  r ← in_tx commits (rotate college teacher session)
  show session r
