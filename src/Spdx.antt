-- ===== src/Spdx.antt =====
-- internal/spdx/satisfies.go: tokens, the recursive-descent parser and the evaluation of SPDX
-- license expressions. The definitions are in Node, Lexer, Outcome
-- and Descent; Grammar is the specification, and the other children hold the proofs.
mod Node
mod Lexer
pub mod Outcome
mod Descent
pub mod Tokens
pub mod Grammar
pub mod Parser
pub mod Trailing
pub mod Satisfies
pub mod Allowlist
mod Tests
unfoldable pub use Node.*
unfoldable pub use Lexer.*
unfoldable pub use Outcome.*
unfoldable pub use Descent.*
