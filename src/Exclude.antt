-- ===== src/Exclude.antt =====
-- pkg/osvscanner/exclude.go: the patterns of paths to leave out of a scan.
mod Defs
pub mod Laws
mod Tests
unfoldable pub use Defs.*
