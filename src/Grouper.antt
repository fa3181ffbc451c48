-- ===== src/Grouper.antt =====
-- internal/grouper/grouper.go and grouper_models.go: vulnerabilities grouped by aliases.
mod Defs
pub mod Merge
pub mod Extract
mod Tests
unfoldable pub use Defs.*
