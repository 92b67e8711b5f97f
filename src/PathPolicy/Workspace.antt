-- ===== src/PathPolicy/Workspace.antt =====
-- backend/app/path_policy.py: the policy of one workspace, which only narrows the global one.
use file_nest.Base.{
  ℕ, Bool, true, false, not, ◌&&◌, ◌||◌, List, [], ◌∷◌, map, Result, ok, ◌>>=◌, ◌>>◌, raise_if, any,
  length, ltb, ◌==◌,
}
use file_nest.FilePath.{
  Text, text_eq, strip, PurePosixPath, pure_posix_path, posix_text, is_absolute, has_windows_drive,
  has_backslash, is_blank, is_dot, is_dot_dot,
}
use file_nest.PathPolicy.Rules.{
  RuleName, user_denylist, ignore_patterns, RuleError, too_many, not_normalized, has_wildcard,
  repeated, is_member,
}

abbrev pub is_wildcard : ℕ → Bool
is_wildcard c = c == b'*' || c == b'?' || c == b'['

-- the checks of one value, before those against the values already seen
unfoldable pub validate_relative_value : RuleName → Bool → Text → Result RuleError (Unit {0})
validate_relative_value name allow_glob value = do
  raise_if
      (is_blank value
        || not (text_eq value (strip value))
        || has_backslash value
        || ltb 500 (length value))
      (not_normalized name)
  raise_if (not allow_glob && any is_wildcard value) (has_wildcard name)
  let path = pure_posix_path value
  raise_if
      (is_dot value
        || is_absolute path
        || has_windows_drive value
        || any (λ part. is_blank part || is_dot part || is_dot_dot part) path.parts
        || not (text_eq (posix_text path) value))
      (not_normalized name)
  ok tt

-- the loop, over the casefolded values already seen
unfoldable pub normalize_values :
    (Text → Text) → RuleName → Bool → List Text → List Text → Result RuleError (List Text)
normalize_values casefold name allow_glob seen [] = ok []
normalize_values casefold name allow_glob seen (value ∷ rest) = do
  validate_relative_value name allow_glob value
  raise_if (is_member (casefold value) seen) (repeated name)
  normalized ← normalize_values casefold name allow_glob (casefold value ∷ seen) rest
  ok (value ∷ normalized)

unfoldable pub normalize_workspace_relative_values :
    (Text → Text) → RuleName → Bool → List Text → Result RuleError (List Text)
normalize_workspace_relative_values casefold name allow_glob values = do
  raise_if (ltb 200 (length values)) (too_many name)
  normalize_values casefold name allow_glob [] values

pub record WorkspacePolicy : Type 0 where
  pub policy_revision : ℕ
  pub read_enabled : Bool
  pub proposal_enabled : Bool
  pub safe_execution_enabled : Bool
  pub user_denylist : List Text
  pub ignore_patterns : List Text

-- `WorkspacePolicy.__post_init__`
unfoldable pub workspace_policy : (Text → Text) → WorkspacePolicy → Result RuleError WorkspacePolicy
workspace_policy casefold policy = do
  denylist ← normalize_workspace_relative_values casefold user_denylist false policy.user_denylist
  patterns ←
      normalize_workspace_relative_values casefold ignore_patterns true policy.ignore_patterns
  ok (record {
    policy_revision = policy.policy_revision;
    read_enabled = policy.read_enabled;
    proposal_enabled = policy.proposal_enabled;
    safe_execution_enabled = policy.safe_execution_enabled;
    user_denylist = denylist;
    ignore_patterns = patterns;
  })

unfoldable pub denylisted_paths : WorkspacePolicy → List PurePosixPath
denylisted_paths policy = map pure_posix_path policy.user_denylist
