-- ===== src/JobRunner/Examples.antt =====
-- A job that ran when its process ended, taken over by the next one.
use file_nest.Base.{
  ◌≡◌, refl, true, false, none, some, [], ◌∷◌, ok, err, codes, map, decimal, decimal_from,
  read_number,
}
use file_nest.FilePath.{Text, text_eq, strip, strip_left, is_space}
use file_nest.OperationPlan.{is_code_text}
use file_nest.Job.{
  JobStatus, AttemptStatus, document_index, invalid_transition, JobState, JobAttempt,
  JobTaskPayload, validate_job, are_fields, is_lifecycle, is_settled, fits_latest, are_attempts,
  is_attempt, is_outcome, is_progress, is_error_code, is_task_version, is_event, starting,
  transition_job, handle, finish_attempt, finish_active, active_attempt, active_of_latest,
  request_retry, validate_attempt, start_attempt, started,
}
use file_nest.JobStore.{
  Database, serialize_job_payload, find_job, get_attempts, sort_by_no, insert_by_no,
  new_attempt_record, new_job_record, attempt_from_record, validate_attempts, state_of,
  parse_job_payload, state_from_records, save_transition, write_transition, load_job, is_row_of,
  are_rows_of, require_compatible_attempts, overwrite, update_row, insert_row, save_attempts,
  advance, advance_at, update_job, require_same_identity, require_same_definition,
}
use file_nest.JobStore.Reading.{read_payload, read_payload-ReadsBack}
use file_nest.JobStore.Updates.{are_own_ids}
use file_nest.JobStore.Jobs.{are_unique_jobs}
use file_nest.JobRunner.Runner.{
  transition_error, next_event, next_state, apply_event_to_state, apply_to_latest,
  retry_interrupted, recover_by_status, recover_persisted_state, fail_by_status, fail_recovery,
}
use file_nest.JobRunner.Stored.{Stored}
use file_nest.JobRunner.Recovered.{Settled, recover_persisted_state_settles}

-- what a test of the runner computes with
runs : Unit {0}
unfolding text_eq strip strip_left is_space is_code_text validate_job are_fields is_lifecycle
    is_settled fits_latest are_attempts is_attempt is_outcome is_progress is_error_code
    is_task_version is_event transition_job handle finish_attempt finish_active active_attempt
    active_of_latest request_retry validate_attempt start_attempt started serialize_job_payload
    decimal decimal_from find_job get_attempts sort_by_no insert_by_no new_attempt_record
    new_job_record attempt_from_record validate_attempts state_of parse_job_payload
    state_from_records save_transition write_transition load_job is_row_of are_rows_of
    require_compatible_attempts overwrite update_row insert_row save_attempts advance advance_at
    update_job require_same_identity require_same_definition read_number read_payload are_own_ids
    are_unique_jobs next_event next_state apply_event_to_state apply_to_latest retry_interrupted
    recover_by_status recover_persisted_state fail_by_status fail_recovery
runs = tt

abbrev digest : Text
digest = codes "0123456789abcdef0123456789abcdef0123456789abcdef0123456789abcdef"

-- a digest for the tests
abbrev hash : JobTaskPayload → Text
hash payload = digest

abbrev new_job : JobState
new_job = record {
  job_id = 3;
  kind = document_index;
  task_version = codes "v1";
  workspace_id = 12;
  payload = record { workspace_id = 12; index_scope = some tt };
  payload_hash = some digest;
  idempotency_key = codes "index-12";
  status = JobStatus.pending;
  max_attempts = 3;
  revision = 0;
  created_at = 10;
  cancel_requested_at = none;
  finished_at = none;
  error_code = none;
  attempts = [];
}

abbrev attempt : JobAttempt
attempt = record {
  attempt_id = 31;
  job_id = 3;
  attempt_no = 1;
  status = AttemptStatus.running;
  progress = starting;
  started_at = 20;
  finished_at = none;
  error_code = none;
  retryable = false;
}

abbrev running_job : JobState
running_job = record new_job { status = JobStatus.running; revision = 1; attempts = attempt ∷ [] }

abbrev db : Database
unfolding new_job_record new_attempt_record
db = record {
  jobs = new_job_record hash running_job ∷ [];
  attempts = map new_attempt_record running_job.attempts;
}

abbrev interrupted : JobAttempt
interrupted = record attempt {
  status = AttemptStatus.interrupted;
  finished_at = some 50;
  error_code = some (codes "worker_interrupted");
  retryable = true;
}

-- interrupted and to be retried
abbrev requeued_job : JobState
requeued_job = record running_job {
  status = JobStatus.pending;
  revision = 3;
  attempts = interrupted ∷ [];
}

requeued : (recover_persisted_state hash read_payload 50 51 db running_job).0 ≡ ok requeued_job
unfolding runs
requeued = refl

-- a clock that has gone back behind the start of the attempt
clock_behind :
    recover_persisted_state hash read_payload 15 51 db running_job
    ≡ (err (transition_error invalid_transition), db)
unfolding runs
clock_behind = refl

abbrev failed_attempt : JobAttempt
failed_attempt = record attempt {
  status = AttemptStatus.failed;
  finished_at = some 50;
  error_code = some (codes "recovery_required");
}

abbrev abandoned_job : JobState
abandoned_job = record running_job {
  status = JobStatus.failed;
  revision = 2;
  finished_at = some 50;
  error_code = some (codes "recovery_required");
  attempts = failed_attempt ∷ [];
}

abandoned : (fail_recovery hash read_payload 50 51 32 db running_job).0 ≡ ok abandoned_job
unfolding runs
abandoned = refl

stored : Stored hash db running_job
unfolding runs
stored = record {
  valid = refl;
  unique = refl;
  holds = record { row = refl; history = refl };
  own = refl;
}

recover_persisted_state_settles_example :
    Settled hash read_payload read_payload-ReadsBack
      (recover_persisted_state hash read_payload 50 51 db running_job)
recover_persisted_state_settles_example =
    recover_persisted_state_settles hash read_payload read_payload-ReadsBack 50 51 db running_job
      stored refl refl refl
