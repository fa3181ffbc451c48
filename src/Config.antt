-- ===== src/Config.antt =====
-- internal/config/config.go: which vulnerabilities and packages a configuration ignores, and the
-- manager that loads and caches configurations.
mod Defs
pub mod Ignore
pub mod Cache
mod Tests
unfoldable pub use Defs.*
