-- ===== src/Job/Events.antt =====
-- `transition_job` of backend/app/job_system.py and the handlers of the events.
use file_nest.Base.{
  ℕ, ◌+◌, Bool, true, false, not, ◌&&◌, ◌||◌, Option, none, some, [], ◌∷◌, ◌++◌, any, length, last?,
  set_last, Result, ok, err, ◌>>=◌, ◌>>◌, raise_if, ◌==◌, leb, ltb, if◌then◌else◌,
}
use file_nest.FilePath.{Text}
use file_nest.Job.Model.{
  JobStatus, AttemptStatus, JobEventKind, attempt_started, progress_reported,
  cancellation_requested, attempt_succeeded, attempt_cancelled, attempt_interrupted,
  retry_requested, JobError, job_mismatch, event_sequence_mismatch, attempt_mismatch,
  invalid_transition, progress_regression, retry_not_allowed, validation_error, index_error,
  JobProgress, is_progress, starting, JobTaskPayload, JobAttempt, validate_attempt, JobEvent,
  or_false,
}
use file_nest.Job.State.{JobState, validate_job}

-- what `_start_attempt` appends
abbrev pub new_attempt : JobState → JobEvent → ℕ → JobAttempt
new_attempt state event attempt_id = record {
  attempt_id = attempt_id;
  job_id = state.job_id;
  attempt_no = length state.attempts + 1;
  status = AttemptStatus.running;
  progress = starting;
  started_at = event.occurred_at;
  finished_at = none;
  error_code = none;
  retryable = false;
}

abbrev pub is_pending : JobStatus → Bool
is_pending JobStatus.pending = true
is_pending _ = false

-- `status in {"running", "cancel_requested"}`
abbrev pub has_worker : JobStatus → Bool
has_worker JobStatus.running = true
has_worker JobStatus.cancel_requested = true
has_worker _ = false

abbrev pub is_attempt_running : AttemptStatus → Bool
is_attempt_running AttemptStatus.running = true
is_attempt_running _ = false

abbrev pub is_id : Option ℕ → ℕ → Bool
is_id none id = false
is_id (some given) id = id == given

unfoldable pub active_of_latest : Option JobAttempt → JobEvent → Result JobError JobAttempt
active_of_latest none event = err index_error
active_of_latest (some attempt) event = do
  raise_if
      (not (is_attempt_running attempt.status) || not (is_id event.attempt_id attempt.attempt_id))
      attempt_mismatch
  ok attempt

unfoldable pub active_attempt : JobState → JobEvent → Result JobError JobAttempt
active_attempt state event = do
  raise_if (not (has_worker state.status)) invalid_transition
  active_of_latest (last? state.attempts) event

-- the total must stay as it was reported first
abbrev pub changes_total : Option ℕ → Option ℕ → Bool
changes_total (some current) (some given) = not (given == current)
changes_total _ _ = false

abbrev pub first_total : Option ℕ → Option ℕ → Option ℕ
first_total (some current) given = some current
first_total none given = given

-- `JobProgress(...)`
unfoldable pub validate_progress : JobProgress → Result JobError JobProgress
validate_progress p = if is_progress p then ok p else err validation_error

unfoldable pub next_progress :
    JobProgress → JobEvent → Option ℕ → Option Text → Result JobError JobProgress
next_progress current event (some completed_units) (some phase_code) = do
  raise_if (ltb completed_units current.completed_units) progress_regression
  raise_if (changes_total current.total_units event.total_units) progress_regression
  validate_progress (record {
    completed_units = completed_units;
    total_units = first_total current.total_units event.total_units;
    phase_code = phase_code;
  })
next_progress current event _ _ = err invalid_transition

-- the tables of `_finish_attempt`, for its four kinds of event
abbrev pub attempt_outcome : JobEventKind → AttemptStatus
attempt_outcome attempt_succeeded = AttemptStatus.succeeded
attempt_outcome attempt_cancelled = AttemptStatus.cancelled
attempt_outcome attempt_interrupted = AttemptStatus.interrupted
attempt_outcome _ = AttemptStatus.failed

abbrev pub job_outcome : JobEventKind → JobStatus
job_outcome attempt_succeeded = JobStatus.succeeded
job_outcome attempt_cancelled = JobStatus.cancelled
job_outcome _ = JobStatus.failed

abbrev pub is_cancellation : JobEventKind → Bool
is_cancellation attempt_cancelled = true
is_cancellation _ = false

abbrev pub is_cancel_requested : JobStatus → Bool
is_cancel_requested JobStatus.cancel_requested = true
is_cancel_requested _ = false

abbrev pub finished_attempt : JobAttempt → JobEvent → JobAttempt
finished_attempt attempt event = record attempt {
  status = attempt_outcome event.kind;
  finished_at = some event.occurred_at;
  error_code = event.error_code;
  retryable = or_false event.retryable;
}

abbrev pub finished_job : JobState → JobEvent → JobAttempt → JobState
finished_job state event updated_attempt = record state {
  status = job_outcome event.kind;
  revision = event.sequence_no;
  attempts = set_last state.attempts updated_attempt;
  finished_at = some event.occurred_at;
  error_code = event.error_code;
}

abbrev pub is_job_failed : JobStatus → Bool
is_job_failed JobStatus.failed = true
is_job_failed _ = false

abbrev pub is_retryable : Option JobAttempt → Bool
is_retryable none = false
is_retryable (some attempt) = attempt.retryable

module _ (hash_job_payload : JobTaskPayload → Text) where
  unfoldable pub started : JobState → JobEvent → Option ℕ → Result JobError JobState
  started state event none = err attempt_mismatch
  started state event (some attempt_id) = do
    raise_if (any (λ (attempt : JobAttempt). attempt.attempt_id == attempt_id) state.attempts)
        attempt_mismatch
    attempt ← validate_attempt (new_attempt state event attempt_id)
    validate_job hash_job_payload (record state {
      status = JobStatus.running;
      revision = event.sequence_no;
      attempts = state.attempts ++ attempt ∷ [];
    })

  unfoldable pub start_attempt : JobState → JobEvent → Result JobError JobState
  start_attempt state event = do
    raise_if (not (is_pending state.status)) invalid_transition
    raise_if (leb state.max_attempts (length state.attempts)) retry_not_allowed
    started state event event.attempt_id

  unfoldable pub report_progress : JobState → JobEvent → Result JobError JobState
  report_progress state event = do
    attempt ← active_attempt state event
    progress ← next_progress attempt.progress event event.completed_units event.phase_code
    updated_attempt ← validate_attempt (record attempt { progress = progress })
    validate_job hash_job_payload (record state {
      revision = event.sequence_no;
      attempts = set_last state.attempts updated_attempt;
    })

  unfoldable pub cancel_by_status : JobStatus → JobState → JobEvent → Result JobError JobState
  cancel_by_status JobStatus.pending state event = validate_job hash_job_payload (record state {
    status = JobStatus.cancelled;
    revision = event.sequence_no;
    cancel_requested_at = some event.occurred_at;
    finished_at = some event.occurred_at;
  })
  cancel_by_status JobStatus.running state event = validate_job hash_job_payload (record state {
    status = JobStatus.cancel_requested;
    revision = event.sequence_no;
    cancel_requested_at = some event.occurred_at;
  })
  cancel_by_status JobStatus.cancel_requested state event =
      validate_job hash_job_payload (record state { revision = event.sequence_no })
  cancel_by_status _ state event = err invalid_transition

  unfoldable pub request_cancellation : JobState → JobEvent → Result JobError JobState
  unfolding cancel_by_status
  request_cancellation state event = cancel_by_status state.status state event

  -- `_finish_attempt` once the active attempt is found
  unfoldable pub finish_active : JobState → JobEvent → JobAttempt → Result JobError JobState
  finish_active state event attempt = do
    raise_if (ltb event.occurred_at attempt.started_at) invalid_transition
    raise_if (is_cancellation event.kind && not (is_cancel_requested state.status))
        invalid_transition
    updated_attempt ← validate_attempt (finished_attempt attempt event)
    validate_job hash_job_payload (finished_job state event updated_attempt)

  unfoldable pub finish_attempt : JobState → JobEvent → Result JobError JobState
  unfolding finish_active
  finish_attempt state event = do
    attempt ← active_attempt state event
    finish_active state event attempt

  unfoldable pub request_retry : JobState → JobEvent → Result JobError JobState
  request_retry state event = do
    raise_if
        (not (is_job_failed state.status)
          || not (is_retryable (last? state.attempts))
          || leb state.max_attempts (length state.attempts))
        retry_not_allowed
    validate_job hash_job_payload (record state {
      status = JobStatus.pending;
      revision = event.sequence_no;
      cancel_requested_at = none;
      finished_at = none;
      error_code = none;
    })

  unfoldable pub handle : JobEventKind → JobState → JobEvent → Result JobError JobState
  handle attempt_started state event = start_attempt state event
  handle progress_reported state event = report_progress state event
  handle cancellation_requested state event = request_cancellation state event
  handle retry_requested state event = request_retry state event
  handle _ state event = finish_attempt state event

  unfoldable pub transition_job : JobState → JobEvent → Result JobError JobState
  transition_job state event = do
    raise_if (not (event.job_id == state.job_id)) job_mismatch
    raise_if (not (event.sequence_no == state.revision + 1)) event_sequence_mismatch
    raise_if (ltb event.occurred_at state.created_at) invalid_transition
    handle event.kind state event
