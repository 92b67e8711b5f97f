-- ===== src/PathPolicy/Rules.antt =====
-- backend/app/path_policy.py: the errors, the sensitive path rules and `authorize_path`.
use mathlib.Core.List.{reverse}
use file_nest.Base.{
  Bool, true, false, not, ◌&&◌, ◌||◌, Option, none, some, List, [], ◌∷◌, ◌++◌, map, Result, ok, err,
  ◌>>=◌, ◌>>◌, raise_if, any, last?, ◌==◌, if◌then◌else◌,
}
use file_nest.FilePath.{Text, text_eq, is_blank, PurePosixPath, is_absolute}
use file_nest.FilePath.Absolute.{normalize, is_within}

pub data PathPolicyErrorCode : Type 0 where
  invalid_path workspace_root_not_found workspace_root_not_directory : PathPolicyErrorCode
  path_outside_workspace path_link_outside_workspace sensitive_path : PathPolicyErrorCode
  path_denylisted workspace_ignored : PathPolicyErrorCode

pub data RuleName : Type 0 where
  directory_names file_names file_name_prefixes file_suffixes : RuleName
  user_denylist ignore_patterns : RuleName

-- the `ValueError`s of the configuration
pub data RuleError : Type 0 where
  empty_value : RuleName → RuleError
  too_many not_normalized has_wildcard repeated : RuleName → RuleError

-- What the operating system and the library answer: `os.getcwd`, `Path.resolve(strict=False)`, with
-- `none` for an exception in this and the next two, `Path.exists`, `Path.is_dir`, and `str.casefold`.
pub record System : Type 0 where
  pub cwd : PurePosixPath
  pub resolve : PurePosixPath → Option PurePosixPath
  pub exists : PurePosixPath → Option Bool
  pub is_dir : PurePosixPath → Option Bool
  pub casefold : Text → Text

-- The sets keep the order of their values.
unfoldable pub normalize_rule_values :
    (Text → Text) → RuleName → List Text → Result RuleError (List Text)
normalize_rule_values casefold name values = do
  raise_if (any is_blank values) (empty_value name)
  ok (map casefold values)

pub record SensitivePathRules : Type 0 where
  pub directory_names : List Text
  pub file_names : List Text
  pub file_name_prefixes : List Text
  pub file_suffixes : List Text

-- `SensitivePathRules(…)`, `__post_init__` included
unfoldable pub sensitive_path_rules :
    (Text → Text)
    → List Text
    → List Text
    → List Text
    → List Text
    → Result RuleError SensitivePathRules
sensitive_path_rules casefold directories files prefixes suffixes = do
  directory_values ← normalize_rule_values casefold directory_names directories
  file_values ← normalize_rule_values casefold file_names files
  prefix_values ← normalize_rule_values casefold file_name_prefixes prefixes
  suffix_values ← normalize_rule_values casefold file_suffixes suffixes
  ok (record {
    directory_names = directory_values;
    file_names = file_values;
    file_name_prefixes = prefix_values;
    file_suffixes = suffix_values;
  })

-- `Path.parts`: the root is the first part
unfoldable pub path_parts : PurePosixPath → List Text
path_parts path = if is_blank path.root then path.parts else path.root ∷ path.parts

-- `Path.name`
unfoldable pub path_name : PurePosixPath → Text
path_name path = elim (last? path.parts) [ none ↦ [] | some name ↦ name ]

-- the text up to and with the first dot, given the text in reverse
abbrev pub through_dot : Text → Option Text
through_dot [] = none
through_dot (c ∷ s) =
    let rest = through_dot s in
    if c == b'.' then some (c ∷ []) else elim rest [ none ↦ none | some t ↦ some (c ∷ t) ]

abbrev pub drop_found : Text → Text → Text
drop_found [] s = s
drop_found (_ ∷ found) [] = []
drop_found (_ ∷ found) (_ ∷ s) = drop_found found s

abbrev pub is_one : Text → Bool
is_one [] = false
is_one (_ ∷ s) = is_blank s

-- `Path.suffix`: the name from its last dot, unless that is its first or its last character
unfoldable pub path_suffix : PurePosixPath → Text
path_suffix path =
    let backwards = reverse (path_name path) in
    elim (through_dot backwards) [
      | none ↦ []
      | some found ↦
          if is_blank (drop_found found backwards) || is_one found then [] else reverse found
    ]

-- `name.startswith(prefix)`
unfoldable pub starts_with : Text → Text → Bool
starts_with [] _ = true
starts_with (c ∷ prefix) [] = false
starts_with (c ∷ prefix) (d ∷ name) = c == d && starts_with prefix name

abbrev pub is_member : Text → List Text → Bool
is_member x xs = any (text_eq x) xs

unfoldable pub is_sensitive_path : (Text → Text) → PurePosixPath → SensitivePathRules → Bool
is_sensitive_path casefold path rules =
    let file_name = casefold (path_name path) in
    any (λ part. is_member (casefold part) rules.directory_names) (path_parts path)
    || is_member file_name rules.file_names
    || any (λ prefix. starts_with prefix file_name) rules.file_name_prefixes
    || is_member (casefold (path_suffix path)) rules.file_suffixes

-- `a / b` for a relative `b`
abbrev pub join_path : PurePosixPath → PurePosixPath → PurePosixPath
join_path a b = record { root = a.root; parts = a.parts ++ b.parts }

abbrev pub below : PurePosixPath → PurePosixPath → PurePosixPath
below root path = if is_absolute path then path else join_path root path

-- `_normalize_path`: `os.path.abspath`
unfoldable pub normalize_path : System → PurePosixPath → PurePosixPath
normalize_path system path =
    let absolute = below system.cwd path in
    record { root = absolute.root; parts = normalize absolute.parts }

unfoldable pub resolve_path : System → PurePosixPath → Result PathPolicyErrorCode PurePosixPath
resolve_path system path = elim (system.resolve path) [
  | none ↦ err invalid_path
  | some resolved ↦ ok resolved
]

unfoldable pub normalize_workspace_root :
    System → PurePosixPath → Result PathPolicyErrorCode PurePosixPath
normalize_workspace_root system root = resolve_path system (normalize_path system root)

-- an answer of the file system, with an OSError as an invalid path
abbrev pub ask : Option Bool → Result PathPolicyErrorCode Bool
ask none = err invalid_path
ask (some answer) = ok answer

unfoldable pub validate_workspace_root :
    System → PurePosixPath → SensitivePathRules → Result PathPolicyErrorCode PurePosixPath
validate_workspace_root system root rules = do
  normalized ← normalize_workspace_root system root
  raise_if (is_sensitive_path system.casefold normalized rules) sensitive_path
  exists ← ask (system.exists normalized)
  raise_if (not exists) workspace_root_not_found
  is_dir ← ask (system.is_dir normalized)
  raise_if (not is_dir) workspace_root_not_directory
  ok normalized

-- `_is_within`: `path.relative_to(workspace_root)` does not raise
unfoldable pub is_within_path : PurePosixPath → PurePosixPath → Bool
is_within_path path root = text_eq path.root root.root && is_within path.parts root.parts

pub record PathPolicyRequest : Type 0 where
  pub workspace_root : PurePosixPath
  pub requested_path : PurePosixPath
  pub sensitive_path_rules : SensitivePathRules
  pub user_denylist : List PurePosixPath

pub record AuthorizedPath : Type 0 where
  pub workspace_root : PurePosixPath
  pub path : PurePosixPath

unfoldable pub is_user_denylisted :
    System → PurePosixPath → PurePosixPath → PurePosixPath → List PurePosixPath → Bool
is_user_denylisted system normalized resolved root [] = false
is_user_denylisted system normalized resolved root (denied ∷ rest) =
    let candidate = normalize_path system (below root denied) in
    is_within_path normalized candidate
    || is_within_path resolved candidate
    || is_user_denylisted system normalized resolved root rest

unfoldable pub authorize_path :
    System → PathPolicyRequest → Result PathPolicyErrorCode AuthorizedPath
authorize_path system request = do
  root ← normalize_workspace_root system request.workspace_root
  let normalized = normalize_path system (below root request.requested_path)
  raise_if (not (is_within_path normalized root)) path_outside_workspace
  resolved ← resolve_path system normalized
  raise_if (not (is_within_path resolved root)) path_link_outside_workspace
  raise_if (is_sensitive_path system.casefold resolved request.sensitive_path_rules) sensitive_path
  raise_if (is_user_denylisted system normalized resolved root request.user_denylist)
      path_denylisted
  ok (record { workspace_root = root; path = resolved })
