-- ===== src/Filter.antt =====
-- pkg/osvscanner/filter.go: the packages and vulnerabilities that a scan leaves out.
mod Defs
pub mod Groups
pub mod Counts
pub mod Packages
mod Tests
unfoldable pub use Defs.*
