-- ===== src/Vulns.antt =====
-- internal/utility/vulns: whether a vulnerability affects a package, and its fixed versions.
mod Defs
pub mod Ranges
pub mod Fixed
mod Tests
unfoldable pub use Defs.*
