-- ===== src/Job/Examples.antt =====
-- A job with a failed attempt that is retried, and the theorems at it.
use file_nest.Base.{
  ◌<◌, ◌≡◌, ◌≢◌, refl, true, false, [], ◌∷◌, some, none, ok, err, length, last?, codes, arith,
}
use file_nest.FilePath.{Text, text_eq, strip, strip_left, is_space}
use file_nest.OperationPlan.{is_code_text}
use file_nest.Job.{
  JobStatus, AttemptStatus, workspace_scan, attempt_started, progress_reported,
  cancellation_requested, retry_requested, JobState, JobAttempt, JobEvent, JobTaskPayload,
  validation_error, validate_job, are_fields, is_lifecycle, is_settled, fits_latest, are_attempts,
  is_attempt, is_outcome, is_progress, is_error_code, is_task_version, is_event, starting,
  transition_job, handle, start_attempt, started, report_progress, request_cancellation,
  finish_attempt, request_retry, validate_attempt, validate_progress, active_attempt,
  active_of_latest, next_progress, is_retryable,
}
use file_nest.Job.Outcome.{Outcome}
use file_nest.Job.Worker.{transition_job-Outcome, cancel_pending_retry}
use file_nest.Job.History.{KeepsHistory, transition_job-KeepsHistory}
use file_nest.Job.Progress.{Advances, progress_advances, ended_refuses}

-- what a test of a transition computes with
runs : Unit {0}
unfolding text_eq strip strip_left is_space is_code_text validate_job are_fields is_lifecycle
    is_settled fits_latest are_attempts is_attempt is_outcome is_progress is_error_code
    is_task_version is_event transition_job handle start_attempt started report_progress
    request_cancellation finish_attempt request_retry validate_attempt validate_progress
    active_attempt active_of_latest next_progress
runs = tt

abbrev digest : Text
digest = codes "0123456789abcdef0123456789abcdef0123456789abcdef0123456789abcdef"

-- a digest for the tests
abbrev hash : JobTaskPayload → Text
hash payload = digest

abbrev failed_attempt : JobAttempt
failed_attempt = record {
  attempt_id = 31;
  job_id = 3;
  attempt_no = 1;
  status = AttemptStatus.failed;
  progress = starting;
  started_at = 20;
  finished_at = some 25;
  error_code = some (codes "io_error");
  retryable = true;
}

abbrev failed_job : JobState
failed_job = record {
  job_id = 3;
  kind = workspace_scan;
  task_version = codes "v1";
  workspace_id = 1;
  payload = record { workspace_id = 1; index_scope = none };
  payload_hash = some digest;
  idempotency_key = codes "scan-1";
  status = JobStatus.failed;
  max_attempts = 3;
  revision = 2;
  created_at = 10;
  cancel_requested_at = none;
  finished_at = some 25;
  error_code = some (codes "io_error");
  attempts = failed_attempt ∷ [];
}

abbrev retry : JobEvent
retry = record {
  job_id = 3;
  sequence_no = 3;
  kind = retry_requested;
  occurred_at = 30;
  attempt_id = none;
  completed_units = none;
  total_units = none;
  phase_code = none;
  error_code = none;
  retryable = none;
}

abbrev pending_job : JobState
pending_job = record failed_job {
  status = JobStatus.pending;
  revision = 3;
  finished_at = none;
  error_code = none;
}

abbrev cancellation : JobEvent
cancellation = record retry { sequence_no = 4; kind = cancellation_requested }

abbrev second_attempt : JobAttempt
second_attempt = record failed_attempt {
  attempt_id = 32;
  attempt_no = 2;
  status = AttemptStatus.running;
  started_at = 40;
  finished_at = none;
  error_code = none;
  retryable = false;
}

abbrev start_second : JobEvent
start_second = record retry {
  sequence_no = 4;
  kind = attempt_started;
  occurred_at = 40;
  attempt_id = some 32;
}

abbrev running_job : JobState
running_job = record pending_job {
  status = JobStatus.running;
  revision = 4;
  attempts = failed_attempt ∷ second_attempt ∷ [];
}

abbrev report : JobEvent
report = record retry {
  sequence_no = 5;
  kind = progress_reported;
  occurred_at = 41;
  attempt_id = some 32;
  completed_units = some 2;
  total_units = some 9;
  phase_code = some (codes "scan");
}

abbrev reported_attempt : JobAttempt
reported_attempt = record second_attempt {
  progress = record { completed_units = 2; total_units = some 9; phase_code = codes "scan" };
}

abbrev reported_job : JobState
reported_job = record running_job {
  revision = 5;
  attempts = failed_attempt ∷ reported_attempt ∷ [];
}

retried : transition_job hash failed_job retry ≡ ok pending_job
unfolding runs
retried = refl

restarted : transition_job hash pending_job start_second ≡ ok running_job
unfolding runs
restarted = refl

moved_on : transition_job hash running_job report ≡ ok reported_job
unfolding runs
moved_on = refl

over_the_total :
    transition_job hash running_job (record report { total_units = some 1 }) ≡ err validation_error
unfolding runs
over_the_total = refl

transition_job-Outcome_example :
    Outcome hash pending_job cancellation (transition_job hash pending_job cancellation)
unfolding runs
transition_job-Outcome_example = transition_job-Outcome hash pending_job cancellation refl refl

cancel_pending_retry_example : transition_job hash pending_job cancellation ≡ err validation_error
unfolding runs
cancel_pending_retry_example =
    cancel_pending_retry hash pending_job cancellation refl refl has_attempt refl refl (omega arith)
      (omega arith)
  where
    has_attempt : pending_job.attempts ≢ []
    has_attempt e = cc

transition_job-KeepsHistory_example : KeepsHistory hash pending_job running_job
transition_job-KeepsHistory_example =
    transition_job-KeepsHistory hash pending_job running_job start_second restarted

progress_advances_example :
    (a : JobAttempt) × (b : JobAttempt) × (last? running_job.attempts ≡ some b)
    × (last? reported_job.attempts ≡ some a)
    × (a.attempt_id ≡ b.attempt_id)
    × Advances b.progress a.progress
progress_advances_example = progress_advances hash running_job reported_job report moved_on refl

ended_refuses_example :
    (retry.kind ≡ retry_requested)
    × (failed_job.status ≡ JobStatus.failed)
    × (is_retryable (last? failed_job.attempts) ≡ true)
    × (length failed_job.attempts < failed_job.max_attempts)
    × (pending_job.status ≡ JobStatus.pending)
ended_refuses_example = ended_refuses hash failed_job pending_job retry retried refl
