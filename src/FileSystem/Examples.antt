-- ===== src/FileSystem/Examples.antt =====
-- A workspace `/work` and a quarantine `/bin`, a move and a quarantine there, and the theorems at them.
use file_nest.Base.{
  ◌≡◌, refl, Bool, true, false, ◌||◌, none, some, List, [], ◌∷◌, ok, err, codes, if◌then◌else◌,
  decimal, decimal_from,
}
use file_nest.FilePath.{
  Text, text_eq, PurePosixPath, posix_text, pure_posix_path, split, split_root, keep_parts, join,
  slash,
}
use file_nest.FilePath.Absolute.{normalize, normalize_onto, normalize_step, is_within}
use file_nest.PathPolicy.{
  SensitivePathRules, WorkspacePolicy, authorize_path, normalize_workspace_root, normalize_path,
  resolve_path, is_within_path, is_sensitive_path, path_parts, path_name, path_suffix, starts_with,
  is_user_denylisted, denylisted_paths, workspace_ignored,
}
use file_nest.PathPolicy.Ignore.{strip_dots, matches, matches_ancestor, ignores}
use file_nest.FileSystem.Adapter.{
  FileMetadata, FileSystem, FileSystemAdapter, file_system_adapter, relative_to, parent,
  relative_candidates, request_of, is_ignored, authorize, adapter_root, authorized_path,
  is_directory, path_exists, get_file_metadata, policy_error,
}
use file_nest.FileSystem.Mover.{
  Move, path_eq, can_move, move_file, target_conflict, raised, check_move, check_result, safe_move,
}
use file_nest.FileSystem.Quarantine.{
  build_quarantine_relative_path, quarantine_manager, available_source, prepare, recheck, Mkdir,
  check_restore, move_into_quarantine, quarantine, restore,
}
use file_nest.FileSystem.Moves.{Moved, safe_move_sound, Effect, safe_move_effect}

-- what a test of a move computes with
unfoldable pub runs : Unit {0}
unfolding text_eq posix_text pure_posix_path split split_root keep_parts join normalize
    normalize_onto normalize_step is_within authorize_path normalize_workspace_root normalize_path
    resolve_path is_within_path is_sensitive_path path_parts path_name path_suffix starts_with
    is_user_denylisted denylisted_paths strip_dots matches matches_ancestor ignores
    file_system_adapter relative_to parent relative_candidates request_of is_ignored authorize
    adapter_root authorized_path is_directory path_exists get_file_metadata path_eq can_move
    move_file check_move check_result safe_move build_quarantine_relative_path quarantine_manager
    available_source prepare recheck check_restore move_into_quarantine quarantine restore decimal
    decimal_from
runs = tt

abbrev pub absolute : List Text → PurePosixPath
absolute parts = record { root = slash ∷ []; parts = parts }

abbrev pub relative : List Text → PurePosixPath
relative parts = record { root = []; parts = parts }

abbrev pub work : PurePosixPath
work = absolute (codes "work" ∷ [])

abbrev pub bin : PurePosixPath
bin = absolute (codes "bin" ∷ [])

abbrev pub docs : PurePosixPath
docs = absolute (codes "work" ∷ codes "docs" ∷ [])

abbrev pub note : PurePosixPath
note = absolute (codes "work" ∷ codes "a.txt" ∷ [])

abbrev filed : PurePosixPath
filed = absolute (codes "work" ∷ codes "docs" ∷ codes "b.txt" ∷ [])

abbrev pub metadata : FileMetadata
metadata = record { size_bytes = 3; mtime_ns = 7 }

abbrev pub is_place : PurePosixPath → Bool
unfolding path_eq
is_place p = path_eq p work || path_eq p bin || path_eq p docs

-- no links, two roots, a directory and a file
abbrev pub disk : FileSystem
unfolding path_eq
disk = record {
  system = record {
    cwd = absolute [];
    resolve = λ p. some p;
    exists = λ p. some (is_place p || path_eq p note);
    is_dir = λ p. some (is_place p);
    casefold = λ text. text;
  };
  fnmatchcase = text_eq;
  stat =
      λ p. if path_eq p note then some (some metadata) else if is_place p then some none else none;
  is_file = λ p. some (path_eq p note);
  is_symlink = λ p. some false;
  iterdir = λ p. none;
}

abbrev pub moved :
    {A : Type 0} → PurePosixPath → PurePosixPath → A → (PurePosixPath → A) → PurePosixPath → A
unfolding path_eq
moved source target gone f p =
    if path_eq p target then f source else if path_eq p source then gone else f p

-- a move that renames
abbrev pub rename : Move
rename fs source target = (
  some target,
  record fs {
    system = record fs.system { exists = moved source target (some false) fs.system.exists };
    stat = moved source target none fs.stat;
    is_file = moved source target (some false) fs.is_file;
  },
)

abbrev pub make : Mkdir
unfolding path_eq
make fs directory = (
  true,
  record fs {
    system = record fs.system {
      exists = λ p. if path_eq p directory then some true else fs.system.exists p;
      is_dir = λ p. if path_eq p directory then some true else fs.system.is_dir p;
    };
  },
)

abbrev pub quiet : FileSystem → FileSystem
quiet fs = fs

abbrev pub rules : SensitivePathRules
rules = record {
  directory_names = codes ".git" ∷ [];
  file_names = [];
  file_name_prefixes = codes ".env" ∷ [];
  file_suffixes = codes ".key" ∷ [];
}

abbrev pub policy : WorkspacePolicy
policy = record {
  policy_revision = 0;
  read_enabled = true;
  proposal_enabled = true;
  safe_execution_enabled = true;
  user_denylist = codes "private" ∷ [];
  ignore_patterns = codes "tmp" ∷ [];
}

abbrev pub workspace : FileSystemAdapter
unfolding file_system_adapter denylisted_paths pure_posix_path split_root split keep_parts text_eq
workspace = file_system_adapter rules work [] policy

abbrev pub bin_adapter : FileSystemAdapter
unfolding file_system_adapter denylisted_paths
bin_adapter =
    file_system_adapter rules bin [] (record policy { user_denylist = []; ignore_patterns = [] })

abbrev pub a_txt : PurePosixPath
a_txt = relative (codes "a.txt" ∷ [])

abbrev b_txt : PurePosixPath
b_txt = relative (codes "docs" ∷ codes "b.txt" ∷ [])

move_runs :
    safe_move rename quiet disk workspace a_txt b_txt ≡ (ok filed, (rename disk note filed).1)
unfolding runs
move_runs = refl

-- an ignored target
ignored_target :
    safe_move rename quiet disk workspace a_txt (relative (codes "tmp" ∷ codes "b.txt" ∷ []))
    ≡ (err (raised (policy_error workspace_ignored)), disk)
unfolding runs
ignored_target = refl

-- a target that is there already
taken_target : safe_move rename quiet disk workspace a_txt a_txt ≡ (err target_conflict, disk)
unfolding runs
taken_target = refl

safe_move_sound_example :
    Moved rename quiet disk workspace a_txt b_txt filed (rename disk note filed).1
safe_move_sound_example =
    safe_move_sound rename quiet disk (rename disk note filed).1 workspace a_txt b_txt filed
      move_runs

safe_move_effect_example :
    Effect rename quiet disk workspace a_txt b_txt
      (safe_move rename quiet disk workspace a_txt b_txt).1
safe_move_effect_example = safe_move_effect rename quiet disk workspace a_txt b_txt
