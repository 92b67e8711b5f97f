-- ===== src/Citation.antt =====
-- backend/app/citation_runtime.py: the citations in an answer, and what binds them to the chunks that a
-- retrieval has found.
mod Tokens
mod Claims
mod Binding
pub mod Known
mod Reasons
pub mod Grounded
mod Examples
unfoldable pub use Tokens.*
unfoldable pub use Claims.*
unfoldable pub use Binding.*
