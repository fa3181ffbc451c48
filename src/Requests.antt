-- ===== src/Requests.antt =====
-- internal/datasource/cache.go: results of expensive calls, shared between goroutines.
mod Defs
pub mod Once
mod Tests
unfoldable pub use Defs.*
