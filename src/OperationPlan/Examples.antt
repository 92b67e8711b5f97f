-- ===== src/OperationPlan/Examples.antt =====
-- A plan of two moves, tests of the validators, and the theorems at these values.
use file_nest.Base.{
  ℕ, ◌≤◌, ◌≡◌, ◌≢◌, refl, true, [], ◌∷◌, ◌++◌, some, none, ok, err, length, codes, All, Distinct,
  arith, has_duplicates,
}
use file_nest.FilePath.{
  Text, text_eq, strip, strip_left, is_space, has_backslash, pure_posix_path, split_root, split,
  keep_parts, posix_text, join, has_windows_drive, slash,
}
use file_nest.FilePath.Laws.{IsName, EachName}
use file_nest.FilePath.Absolute.{normalize, is_within}
use file_nest.OperationPlan.{
  OperationPlan, OperationPlanItem, matched_candidate, move, path_not_relative, path_not_stripped,
  validate_relative_path, validate_plan, validate_operation, validate_precondition, validate_reason,
  validate_description, source_ids, targets, duplicate_target_path,
}
use file_nest.OperationPlan.RelativePath.{
  validate_relative_path_sound, validate_relative_path_complete,
}
use file_nest.OperationPlan.Uniqueness.{IsOperation, validate_plan_sound}

-- what a test of the validators computes with
unfoldable pub tools : Unit {0}
unfolding validate_relative_path text_eq strip strip_left is_space has_backslash pure_posix_path
    split_root split keep_parts posix_text join has_windows_drive validate_plan validate_operation
    validate_precondition validate_reason validate_description has_duplicates
tools = tt

nested_path : validate_relative_path (codes "docs/q3/report.pdf") ≡ ok (codes "docs/q3/report.pdf")
unfolding tools
nested_path = refl

parent_path : validate_relative_path (codes "docs/../secret") ≡ err path_not_relative
unfolding tools
parent_path = refl

trailing_slash : validate_relative_path (codes "docs/") ≡ err path_not_relative
unfolding tools
trailing_slash = refl

drive_path : validate_relative_path (codes "c:docs") ≡ err path_not_relative
unfolding tools
drive_path = refl

padded_path : validate_relative_path (codes " docs") ≡ err path_not_stripped
unfolding tools
padded_path = refl

IsName-docs : IsName (codes "docs")
unfolding text_eq
IsName-docs = record {
  not_blank = refl;
  not_dot = refl;
  not_dot_dot = refl;
  no_slash = omega arith;
}

IsName-a : IsName (codes "a.txt")
unfolding text_eq
IsName-a = record { not_blank = refl; not_dot = refl; not_dot_dot = refl; no_slash = omega arith }

validate_relative_path_sound_example :
    let parts = (pure_posix_path (codes "docs/a.txt")).parts in
    (codes "docs/a.txt" ≡ codes "docs/a.txt")
    × (join slash parts ≡ codes "docs/a.txt")
    × (parts ≢ [])
    × EachName parts
    × (normalize ((codes "docs" ∷ []) ++ parts) ≡ (codes "docs" ∷ []) ++ parts)
    × (is_within (normalize ((codes "docs" ∷ []) ++ parts)) (codes "docs" ∷ []) ≡ true)
unfolding tools
validate_relative_path_sound_example =
    validate_relative_path_sound (codes "docs" ∷ []) (codes "docs/a.txt") (codes "docs/a.txt")
      (IsName-docs, tt) refl

validate_relative_path_complete_example :
    (validate_relative_path (join slash (codes "docs" ∷ codes "a.txt" ∷ []))
      ≡ ok (join slash (codes "docs" ∷ codes "a.txt" ∷ [])))
    × ((pure_posix_path (join slash (codes "docs" ∷ codes "a.txt" ∷ []))).parts
        ≡ codes "docs" ∷ codes "a.txt" ∷ [])
unfolding tools
validate_relative_path_complete_example =
    validate_relative_path_complete (codes "docs") (codes "a.txt" ∷ [])
      (IsName-docs, (IsName-a, tt)) refl refl refl

abbrev pub item : ℕ → Text → Text → OperationPlanItem
item id source target = record {
  operation_type = move;
  source_file_id = id;
  source_relative_path = source;
  target_relative_path = target;
  source_precondition = record { size_bytes = 10; mtime_ns = 5; content_hash = none };
  reason = record {
    kind = matched_candidate;
    description = codes "similar folder";
    match_score = some 90;
  };
  risks = [];
}

abbrev pub two_moves : OperationPlan
two_moves = record {
  plan_id = 7;
  workspace_id = 1;
  created_at = 100;
  operations =
      item 1 (codes "in/a.txt") (codes "docs/a.txt")
      ∷ item 2 (codes "in/b.txt") (codes "docs/b.txt")
      ∷ [];
}

pub two_moves-accepted : validate_plan two_moves ≡ ok tt
unfolding tools
two_moves-accepted = refl

one_target :
    validate_plan (record two_moves {
      operations = item 1 (codes "a") (codes "c") ∷ item 2 (codes "b") (codes "c") ∷ [];
    })
    ≡ err duplicate_target_path
unfolding tools
one_target = refl

validate_plan_sound_example :
    (1 ≤ two_moves.workspace_id)
    × (1 ≤ length two_moves.operations)
    × (length two_moves.operations ≤ 100)
    × All IsOperation two_moves.operations
    × Distinct (source_ids two_moves)
    × Distinct (targets two_moves)
validate_plan_sound_example = validate_plan_sound two_moves two_moves-accepted
