-- ===== src/JobRunner/Runner.antt =====
-- `_apply_event_to_state`, `_recover_persisted_state` and `_fail_recovery` of
-- backend/app/job_runner.py, for a runner with a store. The readings of the clock and the new
-- identifiers are arguments.
use file_nest.Base.{
  ℕ, ◌+◌, Bool, true, false, not, ◌&&◌, Option, none, some, codes, length, last?, ltb, Result, ok,
  err, ◌>>◌, raise_if, if◌then◌else◌,
}
use file_nest.FilePath.{Text}
use file_nest.Job.{
  JobStatus, AttemptStatus, JobEventKind, attempt_started, attempt_failed, attempt_cancelled,
  attempt_interrupted, retry_requested, JobError, validation_error, index_error, JobTaskPayload,
  JobAttempt, JobEvent, JobState, is_event, is_job_failed, transition_job,
}
use file_nest.JobStore.{StoreError, Database, save_transition}

-- what the handlers of the runner let through
pub data RunnerError : Type 0 where
  transition_error : JobError → RunnerError
  store_error : StoreError → RunnerError
  not_active : RunnerError

-- the keyword arguments `details`
pub record Details : Type 0 where
  pub attempt_id : Option ℕ
  pub error_code : Option Text
  pub retryable : Option Bool

-- `JobEvent(…)` for the next revision of the job
unfoldable pub next_event : JobState → JobEventKind → ℕ → Details → JobEvent
next_event state kind now details = record {
  job_id = state.job_id;
  sequence_no = state.revision + 1;
  kind = kind;
  occurred_at = now;
  attempt_id = details.attempt_id;
  completed_units = none;
  total_units = none;
  phase_code = none;
  error_code = details.error_code;
  retryable = details.retryable;
}

abbrev pub or_transition_error : {A : Type 0} → Result JobError A → Result RunnerError A
or_transition_error (ok value) = ok value
or_transition_error (err e) = err (transition_error e)

abbrev pub or_store_error :
    Result StoreError JobState × Database → Result RunnerError JobState × Database
or_store_error (ok state, db) = (ok state, db)
or_store_error (err e, db) = (err (store_error e), db)

-- the next statement, if this one has not raised
abbrev pub and_then :
    Result RunnerError JobState × Database
    → (JobState → Database → Result RunnerError JobState × Database)
    → Result RunnerError JobState × Database
and_then (ok state, db) next = next state db
and_then (err e, db) next = (err e, db)

abbrev pub interruption : ℕ → Details
interruption id = record {
  attempt_id = some id;
  error_code = some (codes "worker_interrupted");
  retryable = some true;
}

abbrev pub cancellation_details : ℕ → Details
cancellation_details id = record { attempt_id = some id; error_code = none; retryable = none }

abbrev pub recovery_failure : ℕ → Details
recovery_failure id = record {
  attempt_id = some id;
  error_code = some (codes "recovery_required");
  retryable = some false;
}

abbrev pub no_details : Details
no_details = record { attempt_id = none; error_code = none; retryable = none }

abbrev pub is_interrupted : Option JobAttempt → Bool
is_interrupted none = false
is_interrupted (some a) =
    (elim a.status [ AttemptStatus.interrupted ↦ true | _ ↦ false ]) && a.retryable

module _ (hash_job_payload : JobTaskPayload → Text) (parse : Text → Option JobTaskPayload) where
  -- the event, checked and applied
  unfoldable pub next_state : JobState → JobEventKind → ℕ → Details → Result RunnerError JobState
  next_state state kind now details = do
    raise_if (not (is_event (next_event state kind now details)))
        (transition_error validation_error)
    or_transition_error (transition_job hash_job_payload state (next_event state kind now details))

  unfoldable pub apply_event_to_state :
      ℕ → Database → JobState → JobEventKind → Details → Result RunnerError JobState × Database
  apply_event_to_state now db state kind details = elim (next_state state kind now details) [
    | err e ↦ (err e, db)
    | ok next ↦ or_store_error (save_transition hash_job_payload parse state.revision db db next)
  ]

  -- an event for `state.attempts[-1]`
  unfoldable pub apply_to_latest :
      ℕ
      → Database
      → JobState
      → JobEventKind
      → (ℕ → Details)
      → Option JobAttempt
      → Result RunnerError JobState × Database
  apply_to_latest now db state kind details none = (err (transition_error index_error), db)
  apply_to_latest now db state kind details (some a) =
      apply_event_to_state now db state kind (details a.attempt_id)

  unfoldable pub retry_interrupted :
      ℕ → Database → JobState → Result RunnerError JobState × Database
  retry_interrupted now db state =
      if is_job_failed state.status
        && is_interrupted (last? state.attempts)
        && ltb (length state.attempts) state.max_attempts
      then apply_event_to_state now db state retry_requested no_details
      else (ok state, db)

  unfoldable pub recover_by_status :
      JobStatus → ℕ → ℕ → Database → JobState → Result RunnerError JobState × Database
  recover_by_status JobStatus.running now later db state =
      and_then
        (apply_to_latest now db state attempt_interrupted interruption (last? state.attempts))
        (λ next written. retry_interrupted later written next)
  recover_by_status JobStatus.cancel_requested now later db state =
      apply_to_latest now db state attempt_cancelled cancellation_details (last? state.attempts)
  recover_by_status _ now later db state = retry_interrupted later db state

  -- `_recover_persisted_state`, with the clock read at `now` and at `later`
  unfoldable pub recover_persisted_state :
      ℕ → ℕ → Database → JobState → Result RunnerError JobState × Database
  recover_persisted_state now later db state = recover_by_status state.status now later db state

  unfoldable pub fail_by_status :
      JobStatus → ℕ → ℕ → ℕ → Database → JobState → Result RunnerError JobState × Database
  fail_by_status JobStatus.running now later id db state =
      apply_to_latest now db state attempt_failed recovery_failure (last? state.attempts)
  fail_by_status JobStatus.pending now later id db state =
      and_then
        (apply_event_to_state now db state attempt_started
          (record no_details { attempt_id = some id }))
        (λ next written.
          apply_event_to_state later written next attempt_failed (recovery_failure id))
  fail_by_status _ now later id db state = (err not_active, db)

  -- `_fail_recovery`, with `uuid4` answering `id`
  unfoldable pub fail_recovery :
      ℕ → ℕ → ℕ → Database → JobState → Result RunnerError JobState × Database
  fail_recovery now later id db state = fail_by_status state.status now later id db state
