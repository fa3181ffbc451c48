-- ===== src/Semverlike.antt =====
-- internal/utility/semverlike/version-semver-like.go: versions that are like semantic versions.
mod Defs
pub mod Compare
pub mod Parse
mod Tests
unfoldable pub use Defs.*
