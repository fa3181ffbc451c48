-- ===== src/Severity.antt =====
-- internal/utility/severity/severity.go, and `MaxSeverity` of internal/output/table.go.
mod Defs
pub mod Overall
mod Tests
unfoldable pub use Defs.*
