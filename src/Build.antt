-- ===== src/Build.antt =====
-- pkg/osvscanner/vulnerability_result.go: from the packages that were scanned, with their advisories
-- and licenses, to the results.
mod Analysis
mod Package
mod Sources
pub mod Unimportant
pub mod Uncalled
mod Licenses
pub mod Included
mod Places
pub mod Grouped
mod Tests
unfoldable pub use Analysis.*
unfoldable pub use Package.*
unfoldable pub use Sources.*
