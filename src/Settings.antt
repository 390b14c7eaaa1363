-- ===== src/Settings.antt =====
-- The settings module (apps/api/src/modules/settings).
pub mod Numbering
