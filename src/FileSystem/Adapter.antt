-- ===== src/FileSystem/Adapter.antt =====
-- backend/app/filesystem_adapter.py: the one entry through which files are read. A file system is what
-- the operating system answers at one moment; `none` stands for an OSError.
use file_nest.Base.{
  ℕ, Bool, true, Option, none, some, List, [], ◌∷◌, ◌++◌, any, Result, ok, err, ◌>>=◌, ◌>>◌,
  raise_if, if◌then◌else◌,
}
use file_nest.FilePath.{Text, PurePosixPath, is_absolute}
use file_nest.PathPolicy.{
  System, PathPolicyErrorCode, workspace_ignored, PathPolicyRequest, AuthorizedPath,
  SensitivePathRules, WorkspacePolicy, authorize_path, is_within_path, below, denylisted_paths,
}
use file_nest.PathPolicy.Ignore.{ignores}

pub record FileMetadata : Type 0 where
  pub size_bytes : ℕ
  pub mtime_ns : ℕ

-- `Path.stat` with `none` in place of the metadata of what is no regular file, `Path.is_file`,
-- `Path.is_symlink`, `Path.iterdir`, and the pattern matching of `fnmatch`
pub record FileSystem : Type 0 where
  pub system : System
  pub fnmatchcase : Text → Text → Bool
  pub stat : PurePosixPath → Option (Option FileMetadata)
  pub is_file : PurePosixPath → Option Bool
  pub is_symlink : PurePosixPath → Option Bool
  pub iterdir : PurePosixPath → Option (List PurePosixPath)

-- PathPolicyError and OSError
pub data FileError : Type 0 where
  policy_error : PathPolicyErrorCode → FileError
  os_error : FileError

pub record FileSystemAdapter : Type 0 where
  pub workspace_root : PurePosixPath
  pub workspace_policy : WorkspacePolicy
  pub user_denylist : List PurePosixPath
  pub sensitive_path_rules : SensitivePathRules

-- `FileSystemAdapter(…)`; the rules are the default of `PathPolicyRequest`
unfoldable pub file_system_adapter :
    SensitivePathRules → PurePosixPath → List PurePosixPath → WorkspacePolicy → FileSystemAdapter
file_system_adapter rules root denylist policy = record {
  workspace_root = root;
  workspace_policy = policy;
  user_denylist = denylisted_paths policy ++ denylist;
  sensitive_path_rules = rules;
}

abbrev pub or_policy_error : {A : Type 0} → Result PathPolicyErrorCode A → Result FileError A
or_policy_error (ok value) = ok value
or_policy_error (err code) = err (policy_error code)

abbrev pub or_os_error : {A : Type 0} → Option A → Result FileError A
or_os_error none = err os_error
or_os_error (some value) = ok value

abbrev pub drop_parts : List Text → List Text → List Text
drop_parts [] parts = parts
drop_parts (_ ∷ root) [] = []
drop_parts (_ ∷ root) (_ ∷ parts) = drop_parts root parts

-- `path.relative_to(root)`, no value where it raises
unfoldable pub relative_to : PurePosixPath → PurePosixPath → List PurePosixPath
relative_to path root =
    if is_within_path path root
    then record { root = []; parts = drop_parts root.parts path.parts } ∷ []
    else []

-- `path.parent`
abbrev pub all_but_last : List Text → List Text
all_but_last [] = []
all_but_last (x ∷ xs) = let rest = all_but_last xs in elim xs [ [] ↦ [] | _ ∷ _ ↦ x ∷ rest ]

unfoldable pub parent : PurePosixPath → PurePosixPath
parent path = record path { parts = all_but_last path.parts }

unfoldable pub relative_candidates : PurePosixPath → AuthorizedPath → List PurePosixPath
relative_candidates requested answer =
    relative_to answer.path answer.workspace_root
    ++ (if is_absolute requested
        then relative_to requested answer.workspace_root
        else requested ∷ [])

unfoldable pub request_of : FileSystemAdapter → PurePosixPath → PathPolicyRequest
request_of adapter requested = record {
  workspace_root = adapter.workspace_root;
  requested_path = requested;
  sensitive_path_rules = adapter.sensitive_path_rules;
  user_denylist = adapter.user_denylist;
}

unfoldable pub is_ignored : FileSystem → FileSystemAdapter → PurePosixPath → AuthorizedPath → Bool
is_ignored fs adapter requested answer =
    any (ignores fs.system.casefold fs.fnmatchcase adapter.workspace_policy)
      (relative_candidates requested answer)

unfoldable pub authorize :
    FileSystem → FileSystemAdapter → PurePosixPath → Result FileError AuthorizedPath
authorize fs adapter requested = do
  answer ← or_policy_error (authorize_path fs.system (request_of adapter requested))
  raise_if (is_ignored fs adapter requested answer) (policy_error workspace_ignored)
  ok answer

-- the property `workspace_root`
unfoldable pub adapter_root : FileSystem → FileSystemAdapter → Result FileError PurePosixPath
adapter_root fs adapter = do
  answer ← authorize fs adapter (record { root = []; parts = [] })
  ok answer.workspace_root

-- `authorized_path`, and `authorized_write_path`, which also has a refusal audited
unfoldable pub authorized_path :
    FileSystem → FileSystemAdapter → PurePosixPath → Result FileError PurePosixPath
authorized_path fs adapter requested = do answer ← authorize fs adapter requested; ok answer.path

unfoldable pub is_directory : FileSystem → FileSystemAdapter → PurePosixPath → Result FileError Bool
is_directory fs adapter requested = do
  path ← authorized_path fs adapter requested
  or_os_error (fs.system.is_dir path)

unfoldable pub path_exists : FileSystem → FileSystemAdapter → PurePosixPath → Result FileError Bool
path_exists fs adapter requested = do
  answer ← authorize fs adapter requested
  let candidate = below answer.workspace_root requested
  exists ← or_os_error (fs.system.exists candidate)
  if exists then ok true else or_os_error (fs.is_symlink candidate)

unfoldable pub get_file_metadata :
    FileSystem → FileSystemAdapter → PurePosixPath → Result FileError (Option FileMetadata)
get_file_metadata fs adapter requested = do
  path ← authorized_path fs adapter requested
  or_os_error (fs.stat path)
