-- ===== src/Document/SourcePath.antt =====
-- The three copies of the check of a relative path: in operation plans, in documents and in workspace
-- policies.
use file_nest.Base.{◌≡◌, ◌↔◌, refl, ◌≤◌, true, false, any, [], ◌∷◌, length, arith, ok}
use file_nest.FilePath.{
  Text, text_eq, is_blank, posix_text, pure_posix_path, split_root, split, keep_parts, join,
}
use file_nest.OperationPlan.{validate_relative_path}
use file_nest.PathPolicy.{RuleName, validate_relative_value, is_wildcard}
use file_nest.Document.Contracts.{validate_source_relative_path}

blank_is_not_normal :
    (value : Text)
    → is_blank value ≡ true
    → text_eq (posix_text (pure_posix_path value)) value ≡ false
blank_is_not_normal [] h =
    unfold posix_text pure_posix_path split_root split keep_parts join text_eq in refl
blank_is_not_normal (c ∷ value) h = absurd (cc h)

-- A document accepts as its source path what an operation plan accepts as a relative path, and a
-- workspace policy accepts of that the texts of at most 500 characters, in a list without globs those
-- that have no `*`, `?` or `[`.
pub relative_paths_agree :
    (name : RuleName) (value : Text)
    → ((validate_source_relative_path value ≡ ok value) ↔ (validate_relative_path value ≡ ok value))
      × ((validate_relative_value name true value ≡ ok tt)
          ↔ ((validate_relative_path value ≡ ok value) × (length value ≤ 500)))
      × ((validate_relative_value name false value ≡ ok tt) ↔ (
          (validate_relative_path value ≡ ok value)
          × (length value ≤ 500)
          × (any is_wildcard value ≡ false)))
unfolding validate_source_relative_path validate_relative_path validate_relative_value
relative_paths_agree name value = ground (arith, blank_is_not_normal value)
