-- ===== src/FileSystem/Quarantine.antt =====
-- backend/app/quarantine.py: files that leave a workspace go to a directory of their own. A UUID is its
-- canonical text. `Path.mkdir` is an argument: whether it succeeds, and the file system that it leaves.
use file_nest.Base.{
  ℕ, Bool, true, false, not, ◌&&◌, ◌||◌, [], ◌∷◌, ◌++◌, leb, codes, decimal, Result, ok, err, ◌>>=◌,
  ◌>>◌, raise_if, is_none,
}
use file_nest.FilePath.{Text, text_eq, is_blank, PurePosixPath, pure_posix_path}
use file_nest.PathPolicy.{is_within_path, path_name}
use file_nest.FileSystem.Adapter.{
  FileSystem, FileError, os_error, FileSystemAdapter, parent, authorized_path, adapter_root,
  is_directory, path_exists, get_file_metadata,
}
use file_nest.FileSystem.Mover.{
  Move, path_eq, move_file, MoveError, source_unavailable, target_conflict, raised, or_raised,
  catch_os_error, conclude,
}

abbrev pub nil_uuid : Text
nil_uuid = codes "00000000-0000-0000-0000-000000000000"

-- `QuarantineErrorCode`, and what is raised by others; the codes that the movers share are theirs
pub data QuarantineError : Type 0 where
  invalid_roots invalid_identifier directory_unavailable : QuarantineError
  moving : MoveError → QuarantineError

abbrev pub or_moving : {A : Type 0} → Result MoveError A → Result QuarantineError A
or_moving (ok value) = ok value
or_moving (err e) = err (moving e)

abbrev pub are_ids : ℕ → Text → ℕ → Bool
are_ids workspace_id plan_id source_file_id =
    leb 1 workspace_id && leb 1 source_file_id && not (text_eq plan_id nil_uuid)

unfoldable pub build_quarantine_relative_path :
    ℕ → Text → ℕ → Text → Result QuarantineError PurePosixPath
build_quarantine_relative_path workspace_id plan_id source_file_id file_name = do
  raise_if (not (are_ids workspace_id plan_id source_file_id)) invalid_identifier
  raise_if (is_blank file_name || not (text_eq (path_name (pure_posix_path file_name)) file_name))
      invalid_identifier
  ok (record {
    root = [];
    parts =
        (codes "workspace-" ++ decimal workspace_id)
        ∷ plan_id
        ∷ decimal source_file_id
        ∷ (pure_posix_path file_name).parts;
  })

pub record QuarantineManager : Type 0 where
  pub workspace_adapter : FileSystemAdapter
  pub quarantine_adapter : FileSystemAdapter

-- `QuarantineManager(…)`
unfoldable pub quarantine_manager :
    FileSystem → FileSystemAdapter → FileSystemAdapter → Result QuarantineError QuarantineManager
quarantine_manager fs workspace_adapter quarantine_adapter = do
  workspace_root ← or_moving (or_raised (adapter_root fs workspace_adapter))
  quarantine_root ← or_moving (or_raised (adapter_root fs quarantine_adapter))
  raise_if
      (path_eq workspace_root quarantine_root
        || is_within_path workspace_root quarantine_root
        || is_within_path quarantine_root workspace_root)
      invalid_roots
  ok (record { workspace_adapter = workspace_adapter; quarantine_adapter = quarantine_adapter })

-- the authorised source, if it is a regular file
unfoldable pub available_source :
    FileSystem → FileSystemAdapter → PurePosixPath → Result MoveError PurePosixPath
available_source fs adapter source_path = do
  authorized_source ← or_raised (authorized_path fs adapter source_path)
  metadata ← catch_os_error source_unavailable (get_file_metadata fs adapter authorized_source)
  raise_if (is_none metadata) source_unavailable
  ok authorized_source

-- what `quarantine` has found before it creates the directory
pub record Prepared : Type 0 where
  pub source : PurePosixPath
  pub relative : PurePosixPath
  pub target : PurePosixPath

unfoldable pub prepare :
    FileSystem → QuarantineManager → PurePosixPath → ℕ → Text → ℕ → Result QuarantineError Prepared
prepare fs manager source_path workspace_id plan_id source_file_id = do
  raise_if (not (are_ids workspace_id plan_id source_file_id)) invalid_identifier
  source ← or_moving (available_source fs manager.workspace_adapter source_path)
  relative ← build_quarantine_relative_path workspace_id plan_id source_file_id (path_name source)
  target ← or_moving (or_raised (authorized_path fs manager.quarantine_adapter relative))
  taken ← or_moving (or_raised (path_exists fs manager.quarantine_adapter target))
  raise_if taken (moving target_conflict)
  ok (record { source = source; relative = relative; target = target })

-- `except OSError` around the second authorisation
abbrev pub or_unavailable : {A : Type 0} → Result FileError A → Result QuarantineError A
or_unavailable (ok value) = ok value
or_unavailable (err os_error) = err directory_unavailable
or_unavailable (err e) = err (moving (raised e))

-- the checks after the directory has been created: the target, authorised again
unfoldable pub recheck :
    FileSystem → QuarantineManager → PurePosixPath → Result QuarantineError PurePosixPath
recheck fs manager relative = do
  directory ← or_unavailable (authorized_path fs manager.quarantine_adapter (parent relative))
  target ← or_unavailable (authorized_path fs manager.quarantine_adapter relative)
  is_dir ← or_moving (or_raised (is_directory fs manager.quarantine_adapter directory))
  raise_if (not is_dir) (moving target_conflict)
  taken ← or_moving (or_raised (path_exists fs manager.quarantine_adapter target))
  raise_if taken (moving target_conflict)
  ok target

pub record QuarantinedFile : Type 0 where
  pub original_path : PurePosixPath
  pub quarantine_path : PurePosixPath

abbrev pub concluded_move :
    Result MoveError PurePosixPath × FileSystem → Result QuarantineError PurePosixPath × FileSystem
concluded_move (answer, fs) = (or_moving answer, fs)

abbrev pub quarantined :
    PurePosixPath
    → Result QuarantineError PurePosixPath × FileSystem
    → Result QuarantineError QuarantinedFile × FileSystem
quarantined source (answer, fs) =
    (answer >>= λ path. ok (record { original_path = source; quarantine_path = path }), fs)

abbrev pub Mkdir : Type 0
Mkdir = FileSystem → PurePosixPath → Bool × FileSystem

-- the checks of `restore`: the authorised source and target
unfoldable pub check_restore :
    FileSystem
    → QuarantineManager
    → PurePosixPath
    → PurePosixPath
    → Result QuarantineError (PurePosixPath × PurePosixPath)
check_restore fs manager quarantine_path original_path = do
  source ← or_moving (available_source fs manager.quarantine_adapter quarantine_path)
  target ← or_moving (or_raised (authorized_path fs manager.workspace_adapter original_path))
  is_dir ← or_unavailable (is_directory fs manager.workspace_adapter (parent target))
  raise_if (not is_dir) directory_unavailable
  taken ← or_unavailable (path_exists fs manager.workspace_adapter target)
  raise_if taken (moving target_conflict)
  ok (source, target)

module _ (shutil_move : Move) (others : FileSystem → FileSystem) where
  -- from the second check to the end
  unfoldable pub move_into_quarantine :
      FileSystem
      → QuarantineManager
      → PurePosixPath
      → PurePosixPath
      → Result QuarantineError PurePosixPath × FileSystem
  move_into_quarantine fs manager source relative = elim (recheck fs manager relative) [
    | err e ↦ (err e, fs)
    | ok target ↦ concluded_move (
        conclude manager.quarantine_adapter target
          (move_file shutil_move (others fs) source target))
  ]

  -- `mkdir` and what follows it
  abbrev pub after_mkdir :
      QuarantineManager
      → Prepared
      → Bool × FileSystem
      → Result QuarantineError QuarantinedFile × FileSystem
  after_mkdir manager prepared (false, fs) = (err directory_unavailable, fs)
  after_mkdir manager prepared (true, fs) =
      quarantined prepared.source
        (move_into_quarantine fs manager prepared.source prepared.relative)

  unfoldable pub quarantine :
      Mkdir
      → FileSystem
      → QuarantineManager
      → PurePosixPath
      → ℕ
      → Text
      → ℕ
      → Result QuarantineError QuarantinedFile × FileSystem
  quarantine mkdir fs manager source_path workspace_id plan_id source_file_id =
      elim (prepare fs manager source_path workspace_id plan_id source_file_id) [
        | err e ↦ (err e, fs)
        | ok prepared ↦ after_mkdir manager prepared (mkdir fs (parent prepared.target))
      ]

  unfoldable pub restore :
      FileSystem
      → QuarantineManager
      → PurePosixPath
      → PurePosixPath
      → Result QuarantineError PurePosixPath × FileSystem
  restore fs manager quarantine_path original_path =
      elim (check_restore fs manager quarantine_path original_path) [
        | err e ↦ (err e, fs)
        | ok (source, target) ↦ concluded_move (
            conclude manager.workspace_adapter target
              (move_file shutil_move (others fs) source target))
      ]
