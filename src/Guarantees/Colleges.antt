-- ===== src/Guarantees/Colleges.antt =====
-- New colleges (server/internal/tenant/service.go).
use at_app.World.{World}
