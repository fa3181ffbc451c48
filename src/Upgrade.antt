-- ===== src/Upgrade.antt =====
-- internal/remediation/upgrade/level.go and config.go.
mod Defs
pub mod Specs
mod Tests
unfoldable pub use Defs.*
