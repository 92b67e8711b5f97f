-- ===== src/Job/Model.antt =====
-- `JobProgress`, `JobAttempt`, `JobState` and `JobEvent` of backend/app/job_system.py with their
-- validators. Of several errors in one model only one is reported.
use file_nest.Base.{
  ℕ, Bool, true, false, not, ◌&&◌, ◌||◌, Option, none, some, [], ◌∷◌, Result, ok, err, leb, ltb,
  is_some, is_none, if◌then◌else◌,
}
use file_nest.FilePath.{Text}
use file_nest.OperationPlan.{is_code_text}

pub data JobKind : Type 0 where
  workspace_scan document_index : JobKind

pub data JobStatus : Type 0 where
  pending running cancel_requested succeeded failed cancelled : JobStatus

pub data AttemptStatus : Type 0 where
  running succeeded failed cancelled interrupted : AttemptStatus

pub data JobEventKind : Type 0 where
  attempt_started progress_reported cancellation_requested attempt_succeeded : JobEventKind
  attempt_failed attempt_cancelled attempt_interrupted retry_requested : JobEventKind

-- `JobTransitionErrorCode`; pydantic's ValidationError; the IndexError of `attempts[-1]`
pub data JobError : Type 0 where
  job_mismatch event_sequence_mismatch attempt_mismatch : JobError
  invalid_transition progress_regression retry_not_allowed : JobError
  validation_error index_error : JobError

pub record JobProgress : Type 0 where
  pub completed_units : ℕ
  pub total_units : Option ℕ
  pub phase_code : Text

abbrev pub exceeds : ℕ → Option ℕ → Bool
exceeds n none = false
exceeds n (some total) = ltb total n

unfoldable pub is_progress : JobProgress → Bool
is_progress p = is_code_text 63 p.phase_code && not (exceeds p.completed_units p.total_units)

abbrev pub starting : JobProgress
starting = record {
  completed_units = 0;
  total_units = none;
  phase_code = b's' ∷ b't' ∷ b'a' ∷ b'r' ∷ b't' ∷ b'i' ∷ b'n' ∷ b'g' ∷ [];
}

-- `index_scope` is "workspace" or None
pub record JobTaskPayload : Type 0 where
  pub workspace_id : ℕ
  pub index_scope : Option (Unit {0})

pub record JobAttempt : Type 0 where
  pub attempt_id : ℕ
  pub job_id : ℕ
  pub attempt_no : ℕ
  pub status : AttemptStatus
  pub progress : JobProgress
  pub started_at : ℕ
  pub finished_at : Option ℕ
  pub error_code : Option Text
  pub retryable : Bool

-- `str | None = Field(pattern=r"^[a-z][a-z0-9_]{0,99}$")`
unfoldable pub is_error_code : Option Text → Bool
is_error_code none = true
is_error_code (some code) = is_code_text 99 code

abbrev pub is_before : Option ℕ → ℕ → Bool
is_before none t = false
is_before (some at) t = ltb at t

abbrev pub is_active : AttemptStatus → Bool
is_active AttemptStatus.running = true
is_active _ = false

abbrev pub is_broken : AttemptStatus → Bool
is_broken AttemptStatus.failed = true
is_broken AttemptStatus.interrupted = true
is_broken _ = false

-- `validate_outcome`
unfoldable pub is_outcome : AttemptStatus → JobAttempt → Bool
is_outcome AttemptStatus.running a =
    is_none a.finished_at && is_none a.error_code && not a.retryable
is_outcome AttemptStatus.failed a =
    is_some a.finished_at && not (is_before a.finished_at a.started_at) && is_some a.error_code
is_outcome AttemptStatus.interrupted a =
    is_some a.finished_at
    && not (is_before a.finished_at a.started_at)
    && is_some a.error_code
    && a.retryable
is_outcome AttemptStatus.succeeded a =
    is_some a.finished_at
    && not (is_before a.finished_at a.started_at)
    && is_none a.error_code
    && not a.retryable
is_outcome AttemptStatus.cancelled a =
    is_some a.finished_at
    && not (is_before a.finished_at a.started_at)
    && is_none a.error_code
    && not a.retryable

unfoldable pub is_attempt : JobAttempt → Bool
is_attempt a =
    leb 1 a.attempt_no
    && is_progress a.progress
    && is_error_code a.error_code
    && is_outcome a.status a

unfoldable pub validate_attempt : JobAttempt → Result JobError JobAttempt
validate_attempt a = if is_attempt a then ok a else err validation_error

pub record JobEvent : Type 0 where
  pub job_id : ℕ
  pub sequence_no : ℕ
  pub kind : JobEventKind
  pub occurred_at : ℕ
  pub attempt_id : Option ℕ
  pub completed_units : Option ℕ
  pub total_units : Option ℕ
  pub phase_code : Option Text
  pub error_code : Option Text
  pub retryable : Option Bool

-- the set `attempt_events`
abbrev pub is_attempt_event : JobEventKind → Bool
is_attempt_event cancellation_requested = false
is_attempt_event retry_requested = false
is_attempt_event _ = true

abbrev pub is_progress_event : JobEventKind → Bool
is_progress_event progress_reported = true
is_progress_event _ = false

abbrev pub is_failure_event : JobEventKind → Bool
is_failure_event attempt_failed = true
is_failure_event attempt_interrupted = true
is_failure_event _ = false

abbrev pub is_interruption : JobEventKind → Bool
is_interruption attempt_interrupted = true
is_interruption _ = false

abbrev pub or_false : Option Bool → Bool
or_false none = false
or_false (some b) = b

abbrev pub is_phase_code : Option Text → Bool
is_phase_code none = true
is_phase_code (some code) = is_code_text 63 code

-- the patterns of the fields and `validate_details`
unfoldable pub is_event : JobEvent → Bool
is_event e =
    leb 1 e.sequence_no
    && is_phase_code e.phase_code
    && is_error_code e.error_code
    && (if is_attempt_event e.kind then is_some e.attempt_id else is_none e.attempt_id)
    && (if is_progress_event e.kind
        then is_some e.completed_units && is_some e.phase_code
        else is_none e.completed_units && is_none e.total_units && is_none e.phase_code)
    && (if is_failure_event e.kind
        then is_some e.error_code
          && is_some e.retryable
          && (not (is_interruption e.kind) || or_false e.retryable)
        else is_none e.error_code && is_none e.retryable)
