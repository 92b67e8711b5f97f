-- ===== src/PathPolicy.antt =====
-- backend/app/path_policy.py: which paths of a workspace may be touched. The paths are those of
-- POSIX: a root and its parts. What a path reaches through links, the working directory and
-- `str.casefold` come from outside the program and are the fields of `System`.
mod Rules
mod Workspace
pub mod Authorize
mod Paths
pub mod Access
pub mod Sensitive
pub mod Denied
pub mod Root
pub mod Ignore
pub mod Examples
unfoldable pub use Rules.*
unfoldable pub use Workspace.*
