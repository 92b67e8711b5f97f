-- ===== src/OperationPlan/Uniqueness.antt =====
-- What `OperationPlan.validate_operations` makes sure of.
use file_nest.Base.{
  ℕ, ◌≤◌, ◌≡◌, ◌≢◌, true, false, not, ◌&&◌, Option, none, some, is_none, is_some, all, >>=-eq-ok,
  after_guard, Option-cases, inl, inr, List, [], ◌∷◌, map, ok, arith, length, ==_iff, ◌==◌, All,
  Distinct, has_duplicates_iff,
}
use file_nest.FilePath.{Text, text_eq, strip}
use file_nest.FilePath.Laws.{text_eq_iff}
use file_nest.OperationPlan.RelativePath.{validate_relative_path_cases}
use file_nest.OperationPlan.{
  ReasonKind, matched_candidate, manual_selection, OperationReason, FilePrecondition, is_lower,
  is_code_char, is_hex, is_code_text, score_in_range, is_matched_candidate, validate_description,
  validate_reason, validate_risk, validate_precondition, OperationPlan, OperationPlanItem,
  OperationRisk, source_ids, targets, validate_each, validate_operation, validate_plan,
  validate_relative_path,
}

-- a text of 1 to 500 characters without blanks at its ends
abbrev pub IsDescription : Text → Type 0
IsDescription text = (1 ≤ length text) × (length text ≤ 500) × (text ≡ strip text)

-- a match has a score of at most 100, a selection by hand has none
abbrev pub IsScore : ReasonKind → Option ℕ → Type 0
IsScore matched_candidate (some score) = score ≤ 100
IsScore manual_selection none = Unit {0}
IsScore _ _ = ⊥

abbrev pub IsCode : Text → Type 0
IsCode [] = ⊥
IsCode (c ∷ rest) = (is_lower c ≡ true) × (length rest ≤ 63) × (all is_code_char rest ≡ true)

abbrev pub IsRisk : OperationRisk → Type 0
IsRisk risk = IsCode risk.code × IsDescription risk.description

-- a SHA-256 digest, if there is one
abbrev pub IsContentHash : Option Text → Type 0
IsContentHash none = Unit {0}
IsContentHash (some digest) = (length digest ≡ 64) × (all is_hex digest ≡ true)

-- one item of a valid plan
pub record IsOperation (item : OperationPlanItem) : Type 0 where
  pub file : 1 ≤ item.source_file_id
  pub source : validate_relative_path item.source_relative_path ≡ ok item.source_relative_path
  pub target : validate_relative_path item.target_relative_path ≡ ok item.target_relative_path
  pub moves : item.source_relative_path ≢ item.target_relative_path
  pub precondition : IsContentHash item.source_precondition.content_hash
  pub described : IsDescription item.reason.description
  pub scored : IsScore item.reason.kind item.reason.match_score
  pub few_risks : length item.risks ≤ 20
  pub risks : All IsRisk item.risks
  pub distinct_risks : Distinct (map (λ (risk : OperationRisk). risk.code) item.risks)

IsDescription-of_valid : (text : Text) → validate_description text ≡ ok tt → IsDescription text
unfolding validate_description
IsDescription-of_valid text h =
    let same : text_eq text (strip text) ≡ true = ground arith in
    (ground arith, ground arith, (text_eq_iff text (strip text)).0 same)

IsScore-of_tests :
    (kind : ReasonKind) (score : Option ℕ)
    → not (score_in_range score) ≡ false
    → (is_matched_candidate kind && is_none score) ≡ false
    → (not (is_matched_candidate kind) && is_some score) ≡ false
    → IsScore kind score
IsScore-of_tests matched_candidate none a b c = absurd (cc b)
IsScore-of_tests matched_candidate (some score) a b c = ground arith
IsScore-of_tests manual_selection none a b c = tt
IsScore-of_tests manual_selection (some score) a b c = absurd (cc c)

IsReason-of_valid :
    (r : OperationReason)
    → validate_reason r ≡ ok tt
    → IsDescription r.description × IsScore r.kind r.match_score
unfolding validate_reason
IsReason-of_valid r h =
    let (unit, described, rest) = >>=-eq-ok (validate_description r.description) _ h in
    let (range, more) = after_guard _ _ _ rest in
    let (missing, last) = after_guard _ _ _ more in
    let (forbidden, _) = after_guard _ _ _ last in
    (
      IsDescription-of_valid r.description described,
      IsScore-of_tests r.kind r.match_score range missing forbidden,
    )

IsCode-of_test : (code : Text) → is_code_text 63 code ≡ true → IsCode code
unfolding is_code_text
IsCode-of_test [] h = absurd (cc h)
IsCode-of_test (c ∷ rest) h = ground arith

IsRisk-of_valid : (risk : OperationRisk) → validate_risk risk ≡ ok tt → IsRisk risk
unfolding validate_risk
IsRisk-of_valid risk h =
    let code : is_code_text 63 risk.code ≡ true = ground arith in
    (IsCode-of_test risk.code code, IsDescription-of_valid risk.description (ground arith))

risks_of_valid :
    (risks : List OperationRisk) → validate_each validate_risk risks ≡ ok tt → All IsRisk risks
risks_of_valid [] h = tt
risks_of_valid (risk ∷ risks) h =
    (IsRisk-of_valid risk (ground arith), risks_of_valid risks (ground arith))

IsContentHash-of_valid :
    (p : FilePrecondition) → validate_precondition p ≡ ok tt → IsContentHash p.content_hash
unfolding validate_precondition
IsContentHash-of_valid p h = elim (Option-cases p.content_hash) [
  | inl gone ↦ rw gone tt
  | inr (digest, here) ↦ rw here (ground arith, ground arith)
]

IsOperation-of_valid :
    (item : OperationPlanItem) → validate_operation item ≡ ok tt → IsOperation item
unfolding validate_operation
IsOperation-of_valid item h = record {
  file = ground arith;
  source = ground (arith, validate_relative_path_cases item.source_relative_path);
  target = ground (
    arith,
    validate_relative_path_cases item.source_relative_path,
    validate_relative_path_cases item.target_relative_path,
  );
  moves = ground (arith, text_eq_iff item.source_relative_path item.target_relative_path);
  precondition = IsContentHash-of_valid item.source_precondition (ground arith);
  described = (IsReason-of_valid item.reason (ground arith)).0;
  scored = (IsReason-of_valid item.reason (ground arith)).1;
  few_risks = ground arith;
  risks = risks_of_valid item.risks (ground arith);
  distinct_risks =
      (has_duplicates_iff text_eq text_eq_iff
          (map (λ (risk : OperationRisk). risk.code) item.risks)).0
        (ground arith);
}

operations_of_valid :
    (items : List OperationPlanItem)
    → validate_each validate_operation items ≡ ok tt
    → All IsOperation items
operations_of_valid [] h = tt
operations_of_valid (item ∷ items) h =
    (IsOperation-of_valid item (ground arith), operations_of_valid items (ground arith))

-- An accepted plan has from 1 to 100 operations with distinct source files and distinct targets. In each,
-- source and target are two accepted paths, a content hash is 64 hexadecimal digits, the reason has a
-- description, and a score up to 100 exactly if it is a match, and the at most 20 risks have descriptions
-- and distinct codes of the form of a code.
pub validate_plan_sound :
    (plan : OperationPlan)
    → validate_plan plan ≡ ok tt
    → (1 ≤ plan.workspace_id)
      × (1 ≤ length plan.operations)
      × (length plan.operations ≤ 100)
      × All IsOperation plan.operations
      × Distinct (source_ids plan)
      × Distinct (targets plan)
unfolding validate_plan
validate_plan_sound plan h = (
  ground arith,
  ground arith,
  ground arith,
  operations_of_valid plan.operations (ground arith),
  (has_duplicates_iff ◌==◌ ==_iff (source_ids plan)).0 (ground arith),
  (has_duplicates_iff text_eq text_eq_iff (targets plan)).0 (ground arith),
)
