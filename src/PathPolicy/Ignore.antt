-- ===== src/PathPolicy/Ignore.antt =====
-- backend/app/path_policy.py: the ignore patterns of a workspace. `fnmatch.fnmatchcase` is an argument.
use file_nest.Base.{
  Bool, false, not, ◌||◌, List, [], ◌∷◌, ◌++◌, map, any, filter, ◌==◌, if◌then◌else◌,
}
use file_nest.FilePath.{Text, PurePosixPath, posix_text, is_blank, is_dot}
use file_nest.PathPolicy.Rules.{path_name, path_parts}
use file_nest.PathPolicy.Workspace.{WorkspacePolicy}

-- `text.lstrip("./")`
unfoldable pub strip_dots : Text → Text
strip_dots [] = []
strip_dots (c ∷ s) = let rest = strip_dots s in if c == b'.' || c == b'/' then rest else c ∷ s

module _ (casefold : Text → Text) (fnmatchcase : Text → Text → Bool) where
  -- `GlobalIgnorePolicy.matches`, for the casefolded patterns
  unfoldable pub matches : List Text → PurePosixPath → Bool
  matches patterns path =
      let normalized_path = casefold (strip_dots (posix_text path)) in
      let file_name = casefold (path_name path) in
      any (λ pattern. fnmatchcase file_name pattern || fnmatchcase normalized_path pattern) patterns

  -- `any(matches(parts[:index]) for index in range(1, len(parts) + 1))`, after the parts `done`
  unfoldable pub matches_ancestor : List Text → List Text → List Text → Bool
  matches_ancestor patterns done [] = false
  matches_ancestor patterns done (part ∷ rest) =
      matches patterns (record { root = []; parts = done ++ part ∷ [] })
      || matches_ancestor patterns (done ++ part ∷ []) rest

  -- `WorkspacePolicy.ignores`, for a relative path; the constructor of `GlobalIgnorePolicy` casefolds
  -- the patterns
  unfoldable pub ignores : WorkspacePolicy → PurePosixPath → Bool
  ignores policy path =
      matches_ancestor (map casefold policy.ignore_patterns) []
        (filter (λ part. not (is_blank part || is_dot part)) (path_parts path))
