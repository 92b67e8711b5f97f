-- ===== src/JobStore/Examples.antt =====
-- A database with two jobs whose first attempt two sessions start or cancel at the same time, and the
-- theorems at it.
use file_nest.Base.{
  decimal, decimal_from, read_number, ◌≡◌, refl, true, false, none, some, [], ◌∷◌, ok, err, codes,
  inr, ◌⊎◌, map,
}
use file_nest.FilePath.{Text, text_eq, strip, strip_left, is_space}
use file_nest.OperationPlan.{is_code_text}
use file_nest.Job.{
  JobStatus, AttemptStatus, workspace_scan, document_index, attempt_started, cancellation_requested,
  JobState, JobAttempt, JobEvent, JobTaskPayload, validate_job, are_fields, is_lifecycle,
  is_settled, fits_latest, are_attempts, is_attempt, is_outcome, is_progress, is_error_code,
  is_task_version, is_event, starting, transition_job, handle, start_attempt, started,
  request_cancellation, validate_attempt,
}
use file_nest.JobStore.Payload.{serialize_job_payload}
use file_nest.JobStore.Records.{
  revision_conflict, identity_conflict, Database, find_job, get_by_idempotency_key, get_attempts,
  sort_by_no, insert_by_no, new_attempt_record, new_job_record, attempt_from_record,
  validate_attempts, state_of, parse_job_payload, state_from_records,
}
use file_nest.JobStore.Store.{
  is_new, create_or_get, save_transition, write_transition, load_job, is_row_of, are_rows_of,
  require_compatible_attempts, overwrite, update_row, insert_row, save_attempts, advance,
  advance_at, update_job, insert_job, require_same_identity, require_same_definition, load_same,
  after_conflict, add_job,
}
use file_nest.JobStore.Reading.{read_payload, read_payload-ReadsBack}
use file_nest.JobStore.Updates.{are_own_ids}
use file_nest.JobStore.Jobs.{are_unique_jobs}
use file_nest.JobStore.RoundTrip.{Represents, load_job-Represents}
use file_nest.JobStore.Refinement.{Moves, Ready, save_transition_refines}
use file_nest.JobStore.Conflicts.{no_lost_update, save_transition_keeps_others}
use file_nest.JobStore.Creation.{
  SameSubmission, Holds, Unused, create_or_get_resubmitted, create_or_get_new,
}

-- what a test of the store computes with
runs : Unit {0}
unfolding text_eq strip strip_left is_space is_code_text validate_job are_fields is_lifecycle
    is_settled fits_latest are_attempts is_attempt is_outcome is_progress is_error_code
    is_task_version is_event transition_job handle start_attempt started request_cancellation
    validate_attempt serialize_job_payload decimal decimal_from find_job get_by_idempotency_key
    get_attempts sort_by_no insert_by_no new_attempt_record new_job_record attempt_from_record
    validate_attempts state_of parse_job_payload state_from_records is_new create_or_get
    save_transition write_transition load_job is_row_of are_rows_of require_compatible_attempts
    overwrite update_row insert_row save_attempts advance advance_at update_job insert_job
    require_same_identity require_same_definition load_same after_conflict add_job read_number
    read_payload are_own_ids are_unique_jobs
runs = tt

abbrev digest : Text
digest = codes "0123456789abcdef0123456789abcdef0123456789abcdef0123456789abcdef"

-- a digest for the tests
abbrev hash : JobTaskPayload → Text
hash payload = digest

abbrev new_job : JobState
new_job = record {
  job_id = 3;
  kind = document_index;
  task_version = codes "v1";
  workspace_id = 12;
  payload = record { workspace_id = 12; index_scope = some tt };
  payload_hash = some digest;
  idempotency_key = codes "index-12";
  status = JobStatus.pending;
  max_attempts = 3;
  revision = 0;
  created_at = 10;
  cancel_requested_at = none;
  finished_at = none;
  error_code = none;
  attempts = [];
}

abbrev attempt : JobAttempt
attempt = record {
  attempt_id = 31;
  job_id = 3;
  attempt_no = 1;
  status = AttemptStatus.running;
  progress = starting;
  started_at = 20;
  finished_at = none;
  error_code = none;
  retryable = false;
}

abbrev running_job : JobState
running_job = record new_job { status = JobStatus.running; revision = 1; attempts = attempt ∷ [] }

abbrev cancelled_job : JobState
cancelled_job = record new_job {
  status = JobStatus.cancelled;
  revision = 1;
  cancel_requested_at = some 21;
  finished_at = some 21;
}

abbrev start : JobEvent
start = record {
  job_id = 3;
  sequence_no = 1;
  kind = attempt_started;
  occurred_at = 20;
  attempt_id = some 31;
  completed_units = none;
  total_units = none;
  phase_code = none;
  error_code = none;
  retryable = none;
}

abbrev cancel : JobEvent
cancel = record start { kind = cancellation_requested; occurred_at = 21; attempt_id = none }

-- a second job, which runs
abbrev other_job : JobState
other_job = record running_job {
  job_id = 4;
  kind = workspace_scan;
  payload = record { workspace_id = 12; index_scope = none };
  idempotency_key = codes "scan-12";
  attempts = record attempt { attempt_id = 41; job_id = 4 } ∷ [];
}

abbrev db : Database
unfolding new_job_record new_attempt_record
db = record {
  jobs = new_job_record hash other_job ∷ new_job_record hash new_job ∷ [];
  attempts = map new_attempt_record other_job.attempts;
}

starting_move : Moves hash new_job start running_job
unfolding runs
starting_move = record { before = refl; event = refl; step = refl }

cancelling_move : Moves hash new_job cancel cancelled_job
unfolding runs
cancelling_move = record { before = refl; event = refl; step = refl }

Holds-new_job : Holds hash db new_job
unfolding runs
Holds-new_job = record { rows = record { row = refl; history = refl }; keyed = refl }

ready : Ready hash db new_job running_job
unfolding runs
ready = record { unique = refl; holds = Holds-new_job.rows; own = refl }

holds_other_job : Represents hash db other_job
unfolding runs
holds_other_job = record { row = refl; history = refl }

new_job_valid : validate_job hash new_job ≡ ok new_job
unfolding runs
new_job_valid = refl

load_job-Represents_example : load_job hash read_payload db 3 ≡ ok new_job
load_job-Represents_example =
    load_job-Represents hash read_payload read_payload-ReadsBack db new_job new_job_valid
      Holds-new_job.rows

save_transition_refines_example :
    (db' : Database) × (save_transition hash read_payload 0 db db running_job
      ≡ (ok running_job, db'))
    × Represents hash db' running_job
    × (are_unique_jobs db'.jobs ≡ true)
save_transition_refines_example =
    save_transition_refines hash read_payload read_payload-ReadsBack db new_job running_job start
      starting_move ready

no_lost_update_example :
    (db' : Database) × (save_transition hash read_payload 0 db db running_job
      ≡ (ok running_job, db'))
    × (save_transition hash read_payload 0 db db' cancelled_job ≡ (err revision_conflict, db'))
no_lost_update_example =
    no_lost_update hash read_payload read_payload-ReadsBack db new_job running_job cancelled_job
      start cancel starting_move cancelling_move ready

save_transition_keeps_others_example :
    Represents hash (save_transition hash read_payload 0 db db running_job).1 other_job
save_transition_keeps_others_example =
    save_transition_keeps_others hash read_payload read_payload-ReadsBack db new_job running_job
      other_job start starting_move ready holds_other_job (λ e. cc)

-- the database before the job was created
abbrev earlier : Database
earlier = record { jobs = []; attempts = [] }

key_unseen : get_by_idempotency_key new_job.idempotency_key earlier.jobs ≡ none
unfolding runs
key_unseen = refl

is_new_job : is_new new_job ≡ true
unfolding runs
is_new_job = refl

-- a second submission under the key, with an identifier of its own
abbrev resubmitted : JobState
resubmitted = record new_job { job_id = 5; created_at = 11 }

resubmitted_valid : validate_job hash resubmitted ≡ ok resubmitted
unfolding runs
resubmitted_valid = refl

resubmitted_new : is_new resubmitted ≡ true
unfolding runs
resubmitted_new = refl

create_or_get_resubmitted_example :
    (SameSubmission new_job resubmitted
      × (create_or_get hash read_payload earlier db resubmitted ≡ (ok new_job, db)))
    ⊎ ((¬ SameSubmission new_job resubmitted)
        × (create_or_get hash read_payload earlier db resubmitted ≡ (err identity_conflict, db)))
create_or_get_resubmitted_example =
    create_or_get_resubmitted hash read_payload read_payload-ReadsBack earlier db new_job
      resubmitted new_job_valid resubmitted_valid Holds-new_job (inr key_unseen) resubmitted_new
      refl

abbrev other_scope : JobState
other_scope = record resubmitted { payload = record { workspace_id = 12; index_scope = none } }

other_scope_refused :
    create_or_get hash read_payload db db other_scope ≡ (err identity_conflict, db)
unfolding runs
other_scope_refused = refl

-- the other session was faster
resubmitted_late : create_or_get hash read_payload earlier db resubmitted ≡ (ok new_job, db)
unfolding runs
resubmitted_late = refl

unused : Unused hash earlier new_job
unfolding runs
unused = record { key = refl; id = refl; attempts = refl }

create_or_get_new_example :
    (db' : Database) × (create_or_get hash read_payload earlier earlier new_job ≡ (ok new_job, db'))
    × Holds hash db' new_job
create_or_get_new_example =
    create_or_get_new hash read_payload read_payload-ReadsBack earlier earlier new_job new_job_valid
      is_new_job unused key_unseen
