-- ===== src/Job/State.antt =====
-- backend/app/job_system.py: a job with its attempts and `validate_lifecycle`.
use file_nest.Base.{
  ℕ, ◌+◌, Bool, true, false, not, ◌&&◌, ◌||◌, Option, none, some, List, [], ◌∷◌, all, any, length,
  last?, Result, ok, err, ◌==◌, leb, ltb, is_some, is_none, if◌then◌else◌,
}
use file_nest.FilePath.{Text, text_eq, strip}
use file_nest.OperationPlan.{is_lower, is_code_char, is_hex}
use file_nest.Job.Model.{
  AttemptStatus, JobAttempt, JobError, JobKind, JobStatus, JobTaskPayload, is_active, is_attempt,
  is_before, is_broken, is_error_code, validation_error,
}

pub record JobState : Type 0 where
  pub job_id : ℕ
  pub kind : JobKind
  pub task_version : Text
  pub workspace_id : ℕ
  pub payload : JobTaskPayload
  pub payload_hash : Option Text
  pub idempotency_key : Text
  pub status : JobStatus
  pub max_attempts : ℕ
  pub revision : ℕ
  pub created_at : ℕ
  pub cancel_requested_at : Option ℕ
  pub finished_at : Option ℕ
  pub error_code : Option Text
  pub attempts : List JobAttempt

-- `TASK_VERSION_PATTERN`: `^[a-z][a-z0-9_.-]{0,31}$`
unfoldable pub is_task_version : Text → Bool
is_task_version [] = false
is_task_version (c ∷ rest) =
    is_lower c && leb (length rest) 31 && all (λ d. is_code_char d || d == b'.' || d == b'-') rest

abbrev pub is_digest : Option Text → Bool
is_digest none = true
is_digest (some digest) = length digest == 64 && all is_hex digest

-- the constraints of the fields by themselves
unfoldable pub are_fields : JobState → Bool
are_fields s =
    is_task_version s.task_version
    && leb 1 s.workspace_id
    && leb 1 s.payload.workspace_id
    && is_digest s.payload_hash
    && (leb 1 (length s.idempotency_key) && leb (length s.idempotency_key) 128)
    && text_eq s.idempotency_key (strip s.idempotency_key)
    && (leb 1 s.max_attempts && leb s.max_attempts 10)
    && is_error_code s.error_code
    && all is_attempt s.attempts

abbrev pub differs_from : Option Text → Text → Bool
differs_from none digest = false
differs_from (some known) digest = not (text_eq known digest)

-- the loop over `enumerate(self.attempts, start=1)`
unfoldable pub are_attempts : ℕ → ℕ → ℕ → List ℕ → List JobAttempt → Bool
are_attempts job_id created_at expected_no seen [] = true
are_attempts job_id created_at expected_no seen (a ∷ rest) =
    a.job_id == job_id
    && a.attempt_no == expected_no
    && not (any (◌==◌ a.attempt_id) seen)
    && not (ltb a.started_at created_at)
    && are_attempts job_id created_at (expected_no + 1) (a.attempt_id ∷ seen) rest

abbrev pub is_terminal : JobStatus → Bool
is_terminal JobStatus.succeeded = true
is_terminal JobStatus.failed = true
is_terminal JobStatus.cancelled = true
is_terminal _ = false

abbrev pub is_failed : JobStatus → Bool
is_failed JobStatus.failed = true
is_failed _ = false

abbrev pub is_cancel : JobStatus → Bool
is_cancel JobStatus.cancel_requested = true
is_cancel JobStatus.cancelled = true
is_cancel _ = false

abbrev pub same_option : Option Text → Option Text → Bool
same_option none none = true
same_option (some a) (some b) = text_eq a b
same_option _ _ = false

-- the tests on the times and the error code
unfoldable pub is_settled : JobState → Bool
is_settled s =
    (if is_terminal s.status then is_some s.finished_at else is_none s.finished_at)
    && not (is_before s.finished_at s.created_at)
    && (if is_failed s.status then is_some s.error_code else is_none s.error_code)
    && not (is_before s.cancel_requested_at s.created_at)
    && (not (is_cancel s.status) || is_some s.cancel_requested_at)

-- the tests on `latest_attempt`
unfoldable pub fits_latest : JobStatus → Option Text → Option JobAttempt → Bool
fits_latest JobStatus.running code none = false
fits_latest JobStatus.running code (some a) = is_active a.status
fits_latest JobStatus.cancel_requested code none = false
fits_latest JobStatus.cancel_requested code (some a) = is_active a.status
fits_latest JobStatus.succeeded code none = false
fits_latest JobStatus.succeeded code (some a) = elim a.status [
  | AttemptStatus.succeeded ↦ true
  | _ ↦ false
]
fits_latest JobStatus.failed code none = false
fits_latest JobStatus.failed code (some a) = is_broken a.status && same_option a.error_code code
fits_latest JobStatus.cancelled code none = true
fits_latest JobStatus.cancelled code (some a) = elim a.status [
  | AttemptStatus.cancelled ↦ true
  | _ ↦ false
]
fits_latest JobStatus.pending code none = true
fits_latest JobStatus.pending code (some a) = is_broken a.status

module _ (hash_job_payload : JobTaskPayload → Text) where
  -- `validate_lifecycle`
  unfoldable pub is_lifecycle : JobState → Bool
  is_lifecycle s =
      s.payload.workspace_id == s.workspace_id
      && not (differs_from s.payload_hash (hash_job_payload s.payload))
      && leb (length s.attempts) s.max_attempts
      && are_attempts s.job_id s.created_at 1 [] s.attempts
      && is_settled s
      && fits_latest s.status s.error_code (last? s.attempts)

  -- `JobState.model_validate`; the validator stores the digest that it has computed
  unfoldable pub validate_job : JobState → Result JobError JobState
  validate_job s =
      if are_fields s && is_lifecycle s
      then ok (record s { payload_hash = some (hash_job_payload s.payload) })
      else err validation_error
