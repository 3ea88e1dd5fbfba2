-- ===== src/Config.antt =====
-- backend/internal/config/config.go: the settings that the other parts rely on.
pub mod Windows
pub mod Targets
pub mod Platforms
pub mod Defaults
