-- ===== src/FilePath.antt =====
-- What backend/app uses of Python's `pathlib` and `os.path` on POSIX: text as code points, the
-- parse and the print of `PurePosixPath`, `normpath` on absolute paths, and `relative_to`.

mod Parse
pub mod Laws
pub mod Absolute
pub mod Inside
unfoldable pub use Parse.*
