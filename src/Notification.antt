-- ===== src/Notification.antt =====
-- Push notifications and alerts (server/internal/notification).
pub mod Devices
pub mod Push
pub mod Alerts
