-- ===== src/FileSystem/Mover.antt =====
-- backend/app/v2_file_mover.py and backend/app/safe_file_mover.py. `shutil.move` is an argument: what it
-- answers, `none` for an OSError, and the file system that it leaves. Between the checks and the move
-- other processes may change the file system.
use file_nest.Base.{
  Bool, true, false, not, ◌&&◌, ◌||◌, Option, none, some, List, [], ◌∷◌, Result, ok, err, ◌>>=◌,
  ◌>>◌, raise_if, is_none, if◌then◌else◌,
}
use file_nest.FilePath.{Text, text_eq, PurePosixPath}
use file_nest.FileSystem.Adapter.{
  FileSystem, FileError, os_error, FileSystemAdapter, or_os_error, parent, authorized_path,
  is_directory, path_exists, get_file_metadata,
}

abbrev pub Move : Type 0
Move = FileSystem → PurePosixPath → PurePosixPath → Option PurePosixPath × FileSystem

abbrev pub are_parts_eq : List Text → List Text → Bool
are_parts_eq [] [] = true
are_parts_eq (a ∷ s) (b ∷ t) = text_eq a b && are_parts_eq s t
are_parts_eq _ _ = false

unfoldable pub path_eq : PurePosixPath → PurePosixPath → Bool
path_eq p q = text_eq p.root q.root && are_parts_eq p.parts q.parts

-- `a() and b()`, where `b` is asked only if `a` holds
abbrev pub and_then : Result FileError Bool → Result FileError Bool → Result FileError Bool
and_then a b = a >>= λ holds. if holds then b else ok false

-- the two tests of `move_file` in front of the move
unfoldable pub can_move : FileSystem → PurePosixPath → PurePosixPath → Result FileError Bool
can_move fs source target = and_then (or_os_error (fs.system.exists source)) (
    and_then (or_os_error (fs.is_file source)) (
      and_then (or_os_error (fs.system.is_dir (parent target)))
        (or_os_error (fs.system.exists target) >>= λ taken. ok (not taken))))

-- `actual.resolve()` after the move
abbrev pub resolve_moved :
    Option PurePosixPath × FileSystem → Result FileError (Option PurePosixPath) × FileSystem
resolve_moved (none, fs) = (ok none, fs)
resolve_moved (some actual, fs) =
    (or_os_error (fs.system.resolve actual) >>= λ path. ok (some path), fs)

module _ (shutil_move : Move) where
  unfoldable pub move_file :
      FileSystem
      → PurePosixPath
      → PurePosixPath
      → Result FileError (Option PurePosixPath) × FileSystem
  move_file fs source target = elim (can_move fs source target) [
    | err raised ↦ (err raised, fs)
    | ok possible ↦ if possible then resolve_moved (shutil_move fs source target) else (ok none, fs)
  ]

pub data MoveError : Type 0 where
  source_unavailable target_directory_unavailable target_conflict : MoveError
  move_failed result_mismatch : MoveError
  raised : FileError → MoveError

abbrev pub or_raised : {A : Type 0} → Result FileError A → Result MoveError A
or_raised (ok value) = ok value
or_raised (err e) = err (raised e)

-- `except OSError`
abbrev pub catch_os_error : {A : Type 0} → MoveError → Result FileError A → Result MoveError A
catch_os_error instead (ok value) = ok value
catch_os_error instead (err os_error) = err instead
catch_os_error instead (err e) = err (raised e)

-- the checks of `SafeFileMover.move` before the move: the authorised source and target
unfoldable pub check_move :
    FileSystem
    → FileSystemAdapter
    → PurePosixPath
    → PurePosixPath
    → Result MoveError (PurePosixPath × PurePosixPath)
check_move fs adapter source_path target_path = do
  authorized_source ← or_raised (authorized_path fs adapter source_path)
  metadata ← catch_os_error source_unavailable (get_file_metadata fs adapter authorized_source)
  raise_if (is_none metadata) source_unavailable
  expected_target ← or_raised (authorized_path fs adapter target_path)
  is_dir ← or_raised (is_directory fs adapter (parent expected_target))
  raise_if (not is_dir) target_directory_unavailable
  taken ← or_raised (path_exists fs adapter expected_target)
  raise_if taken target_conflict
  ok (authorized_source, expected_target)

-- what `SafeFileMover.move` makes of the answer of `move_file`
unfoldable pub check_result :
    FileSystem
    → FileSystemAdapter
    → PurePosixPath
    → Result FileError (Option PurePosixPath)
    → Result MoveError PurePosixPath
check_result fs adapter expected_target (err e) = err (raised e)
check_result fs adapter expected_target (ok none) = do
  taken ← or_raised (path_exists fs adapter expected_target)
  err (if taken then target_conflict else move_failed)
check_result fs adapter expected_target (ok (some moved_path)) = do
  authorized_result ← or_raised (authorized_path fs adapter moved_path)
  metadata ← catch_os_error result_mismatch (get_file_metadata fs adapter authorized_result)
  raise_if (not (path_eq authorized_result expected_target) || is_none metadata) result_mismatch
  ok authorized_result

abbrev pub conclude :
    FileSystemAdapter
    → PurePosixPath
    → Result FileError (Option PurePosixPath) × FileSystem
    → Result MoveError PurePosixPath × FileSystem
conclude adapter target (answer, fs) = (check_result fs adapter target answer, fs)

module _ (shutil_move : Move) (others : FileSystem → FileSystem) where
  -- `SafeFileMover.move`
  unfoldable pub safe_move :
      FileSystem
      → FileSystemAdapter
      → PurePosixPath
      → PurePosixPath
      → Result MoveError PurePosixPath × FileSystem
  safe_move fs adapter source_path target_path =
      elim (check_move fs adapter source_path target_path) [
        | err e ↦ (err e, fs)
        | ok (source, target) ↦
            conclude adapter target (move_file shutil_move (others fs) source target)
      ]
