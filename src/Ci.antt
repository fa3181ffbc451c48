-- ===== src/Ci.antt =====
-- internal/ci/vulnerability_result_diff.go: what is new in one result against another.
mod Defs
pub mod Occurrences
mod Tests
unfoldable pub use Defs.*
