-- ===== src/OperationPlan.antt =====
-- backend/app/operation_plan.py: the immutable plan of file operations and its validation. A value of
-- these records is what pydantic has parsed; the validators are the functions into `Result`. Of
-- several errors in one model the model reports the first.
pub mod RelativePath
pub mod Uniqueness
pub mod Examples
use file_nest.Base.{
  ℕ, String, Bool, true, false, not, ◌&&◌, ◌||◌, Option, none, some, List, [], ◌∷◌, map, Result, ok,
  err, ◌>>=◌, ◌>>◌, raise_if, any, all, length, leb, ltb, ◌==◌, is_some, is_none, has_duplicates,
  if◌then◌else◌,
}
use file_nest.FilePath.{
  Text, text_eq, strip, pure_posix_path, is_absolute, has_windows_drive, has_backslash, posix_text,
  is_blank, is_dot, is_dot_dot,
}

pub data PlanError : Type 0 where
  path_not_stripped path_not_relative : PlanError
  description_length description_not_stripped : PlanError
  score_out_of_range score_missing score_forbidden : PlanError
  bad_risk_code bad_digest : PlanError
  bad_source_file_id same_source_and_target too_many_risks duplicate_risk_code : PlanError
  bad_workspace_id no_operations too_many_operations : PlanError
  duplicate_source_file_id duplicate_target_path : PlanError

unfoldable pub validate_relative_path : Text → Result PlanError Text
validate_relative_path value = do
  raise_if (not (text_eq value (strip value)) || has_backslash value) path_not_stripped
  let path = pure_posix_path value
  raise_if
      (is_dot value
        || is_absolute path
        || has_windows_drive value
        || any (λ part. is_blank part || is_dot part || is_dot_dot part) path.parts
        || not (text_eq (posix_text path) value))
      path_not_relative
  ok value

pub data ReasonKind : Type 0 where
  matched_candidate manual_selection : ReasonKind

pub record OperationReason : Type 0 where
  pub kind : ReasonKind
  pub description : Text
  pub match_score : Option ℕ

-- `Field(min_length=1, max_length=500)` and `validate_description`
unfoldable pub validate_description : Text → Result PlanError (Unit {0})
validate_description value = do
  raise_if (not (leb 1 (length value) && leb (length value) 500)) description_length
  raise_if (not (text_eq value (strip value))) description_not_stripped
  ok tt

abbrev pub score_in_range : Option ℕ → Bool
score_in_range none = true
score_in_range (some n) = leb n 100

abbrev pub is_matched_candidate : ReasonKind → Bool
is_matched_candidate matched_candidate = true
is_matched_candidate manual_selection = false

unfoldable pub validate_reason : OperationReason → Result PlanError (Unit {0})
validate_reason r = do
  validate_description r.description
  raise_if (not (score_in_range r.match_score)) score_out_of_range
  raise_if (is_matched_candidate r.kind && is_none r.match_score) score_missing
  raise_if (not (is_matched_candidate r.kind) && is_some r.match_score) score_forbidden
  ok tt

-- one character of `[a-z]`, `[a-z0-9_]` and `[0-9a-f]`
abbrev pub is_lower : ℕ → Bool
is_lower c = leb b'a' c && leb c b'z'

abbrev pub is_digit : ℕ → Bool
is_digit c = leb b'0' c && leb c b'9'

abbrev pub is_code_char : ℕ → Bool
is_code_char c = is_lower c || is_digit c || c == b'_'

abbrev pub is_hex : ℕ → Bool
is_hex c = is_digit c || (leb b'a' c && leb c b'f')

-- `^[a-z][a-z0-9_]{0,n}$`
unfoldable pub is_code_text : ℕ → Text → Bool
is_code_text n [] = false
is_code_text n (c ∷ rest) = is_lower c && leb (length rest) n && all is_code_char rest

pub data RiskLevel : Type 0 where
  low medium high : RiskLevel

pub record OperationRisk : Type 0 where
  pub code : Text
  pub level : RiskLevel
  pub description : Text

unfoldable pub validate_risk : OperationRisk → Result PlanError (Unit {0})
validate_risk r = do
  raise_if (not (is_code_text 63 r.code)) bad_risk_code
  validate_description r.description

-- `ContentHash`: the algorithm is always sha256
pub record FilePrecondition : Type 0 where
  pub size_bytes : ℕ
  pub mtime_ns : ℕ
  pub content_hash : Option Text

unfoldable pub validate_precondition : FilePrecondition → Result PlanError (Unit {0})
validate_precondition p = elim p.content_hash [
  | none ↦ ok tt
  | some digest ↦ raise_if (not (length digest == 64 && all is_hex digest)) bad_digest
]

pub data OperationType : Type 0 where
  move quarantine rename : OperationType

pub record OperationPlanItem : Type 0 where
  pub operation_type : OperationType
  pub source_file_id : ℕ
  pub source_relative_path : Text
  pub target_relative_path : Text
  pub source_precondition : FilePrecondition
  pub reason : OperationReason
  pub risks : List OperationRisk

abbrev pub validate_each {ℓ} :
    {A : Type ℓ} → (A → Result PlanError (Unit {0})) → List A → Result PlanError (Unit {0})
validate_each check [] = ok tt
validate_each check (x ∷ xs) = check x >> validate_each check xs

unfoldable pub validate_operation : OperationPlanItem → Result PlanError (Unit {0})
validate_operation item = do
  raise_if (not (leb 1 item.source_file_id)) bad_source_file_id
  _ ← validate_relative_path item.source_relative_path
  _ ← validate_relative_path item.target_relative_path
  validate_precondition item.source_precondition
  validate_reason item.reason
  raise_if (not (leb (length item.risks) 20)) too_many_risks
  validate_each validate_risk item.risks
  raise_if (text_eq item.source_relative_path item.target_relative_path) same_source_and_target
  raise_if (has_duplicates text_eq (map (λ (risk : OperationRisk). risk.code) item.risks))
      duplicate_risk_code
  ok tt

pub record OperationPlan : Type 0 where
  pub plan_id : ℕ
  pub workspace_id : ℕ
  pub created_at : ℕ
  pub operations : List OperationPlanItem

abbrev pub source_ids : OperationPlan → List ℕ
source_ids plan = map (λ (operation : OperationPlanItem). operation.source_file_id) plan.operations

abbrev pub targets : OperationPlan → List Text
targets plan =
    map (λ (operation : OperationPlanItem). operation.target_relative_path) plan.operations

unfoldable pub validate_plan : OperationPlan → Result PlanError (Unit {0})
validate_plan plan = do
  raise_if (not (leb 1 plan.workspace_id)) bad_workspace_id
  raise_if (not (leb 1 (length plan.operations))) no_operations
  raise_if (not (leb (length plan.operations) 100)) too_many_operations
  validate_each validate_operation plan.operations
  raise_if (has_duplicates ◌==◌ (source_ids plan)) duplicate_source_file_id
  raise_if (has_duplicates text_eq (targets plan)) duplicate_target_path
  ok tt
