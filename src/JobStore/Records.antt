-- ===== src/JobStore/Records.antt =====
-- `JobRecord` and `JobAttemptRecord` of backend/app/models.py, their queries, and the maps between rows
-- and states of backend/app/job_store.py. Identifiers are numbers, times are instants, so that
-- `_as_utc` changes nothing, and every schema version is 1. The CHECK constraints of the tables repeat
-- what the validators of the states test.
use file_nest.Base.{
  ℕ, Bool, Option, none, some, List, [], ◌∷◌, map, filter, ◌==◌, leb, Result, ok, err, ◌>>=◌,
  if◌then◌else◌,
}
use file_nest.FilePath.{Text, text_eq}
use file_nest.Job.{
  JobKind, JobStatus, AttemptStatus, JobTaskPayload, JobAttempt, JobState, JobError,
  validate_attempt, validate_job,
}
use file_nest.JobStore.Payload.{serialize_job_payload}

-- the exceptions of job_store.py, `ValueError`, and SQLAlchemy's `IntegrityError`
pub data StoreError : Type 0 where
  value_error job_store_error identity_conflict revision_conflict : StoreError
  attempt_conflict not_found payload_error integrity_error : StoreError

pub record JobRecord : Type 0 where
  pub job_id : ℕ
  pub kind : JobKind
  pub task_version : Text
  pub workspace_id : ℕ
  pub payload_json : Text
  pub payload_hash : Text
  pub idempotency_key : Text
  pub status : JobStatus
  pub max_attempts : ℕ
  pub revision : ℕ
  pub created_at : ℕ
  pub cancel_requested_at : Option ℕ
  pub finished_at : Option ℕ
  pub error_code : Option Text

pub record JobAttemptRecord : Type 0 where
  pub attempt_id : ℕ
  pub job_id : ℕ
  pub attempt_no : ℕ
  pub status : AttemptStatus
  pub completed_units : ℕ
  pub total_units : Option ℕ
  pub phase_code : Text
  pub started_at : ℕ
  pub finished_at : Option ℕ
  pub error_code : Option Text
  pub retryable : Bool

pub record Database : Type 0 where
  pub jobs : List JobRecord
  pub attempts : List JobAttemptRecord

-- `session.get(JobRecord, str(job_id))`
unfoldable pub find_job : ℕ → List JobRecord → Option JobRecord
find_job id [] = none
find_job id (r ∷ rest) = let found = find_job id rest in if r.job_id == id then some r else found

unfoldable pub get_by_idempotency_key : Text → List JobRecord → Option JobRecord
get_by_idempotency_key key [] = none
get_by_idempotency_key key (r ∷ rest) =
    let found = get_by_idempotency_key key rest in
    if text_eq r.idempotency_key key then some r else found

-- `order_by(JobAttemptRecord.attempt_no.asc())`
unfoldable pub insert_by_no : JobAttemptRecord → List JobAttemptRecord → List JobAttemptRecord
insert_by_no r [] = r ∷ []
insert_by_no r (x ∷ rest) =
    let deeper = insert_by_no r rest in
    if leb r.attempt_no x.attempt_no then r ∷ x ∷ rest else x ∷ deeper

unfoldable pub sort_by_no : List JobAttemptRecord → List JobAttemptRecord
sort_by_no [] = []
sort_by_no (r ∷ rest) = insert_by_no r (sort_by_no rest)

abbrev pub belongs_to : ℕ → JobAttemptRecord → Bool
belongs_to id r = r.job_id == id

unfoldable pub get_attempts : List JobAttemptRecord → ℕ → List JobAttemptRecord
get_attempts rows id = sort_by_no (filter (belongs_to id) rows)

unfoldable pub new_attempt_record : JobAttempt → JobAttemptRecord
new_attempt_record a = record {
  attempt_id = a.attempt_id;
  job_id = a.job_id;
  attempt_no = a.attempt_no;
  status = a.status;
  completed_units = a.progress.completed_units;
  total_units = a.progress.total_units;
  phase_code = a.progress.phase_code;
  started_at = a.started_at;
  finished_at = a.finished_at;
  error_code = a.error_code;
  retryable = a.retryable;
}

unfoldable pub attempt_from_record : JobAttemptRecord → JobAttempt
attempt_from_record r = record {
  attempt_id = r.attempt_id;
  job_id = r.job_id;
  attempt_no = r.attempt_no;
  status = r.status;
  progress = record {
    completed_units = r.completed_units;
    total_units = r.total_units;
    phase_code = r.phase_code;
  };
  started_at = r.started_at;
  finished_at = r.finished_at;
  error_code = r.error_code;
  retryable = r.retryable;
}

-- `payload_hash or hash_job_payload(payload)`: the empty text counts as missing
abbrev pub or_hash : Option Text → Text → Text
or_hash none computed = computed
or_hash (some []) computed = computed
or_hash (some (c ∷ known)) computed = c ∷ known

-- the attempts of the tuple, each validated as it is built
unfoldable pub validate_attempts : List JobAttempt → Result JobError (List JobAttempt)
validate_attempts [] = ok []
validate_attempts (a ∷ rest) =
    validate_attempt a >>= λ x. validate_attempts rest >>= λ xs. ok (x ∷ xs)

-- `except ValidationError`: validation raises nothing else
abbrev pub or_payload_error : {A : Type 0} → Result JobError A → Result StoreError A
or_payload_error (ok value) = ok value
or_payload_error (err raised) = err payload_error

abbrev pub or_raise : {A : Type 0} → Option A → StoreError → Result StoreError A
or_raise none raised = err raised
or_raise (some value) raised = ok value

module _ (hash_job_payload : JobTaskPayload → Text) where
  unfoldable pub new_job_record : JobState → JobRecord
  new_job_record state = record {
    job_id = state.job_id;
    kind = state.kind;
    task_version = state.task_version;
    workspace_id = state.workspace_id;
    payload_json = serialize_job_payload state.payload;
    payload_hash = or_hash state.payload_hash (hash_job_payload state.payload);
    idempotency_key = state.idempotency_key;
    status = state.status;
    max_attempts = state.max_attempts;
    revision = state.revision;
    created_at = state.created_at;
    cancel_requested_at = state.cancel_requested_at;
    finished_at = state.finished_at;
    error_code = state.error_code;
  }

  -- the arguments of `JobState` in `_state_from_records`
  unfoldable pub state_of : JobRecord → JobTaskPayload → List JobAttempt → JobState
  state_of r payload attempts = record {
    job_id = r.job_id;
    kind = r.kind;
    task_version = r.task_version;
    workspace_id = r.workspace_id;
    payload = payload;
    payload_hash = some r.payload_hash;
    idempotency_key = r.idempotency_key;
    status = r.status;
    max_attempts = r.max_attempts;
    revision = r.revision;
    created_at = r.created_at;
    cancel_requested_at = r.cancel_requested_at;
    finished_at = r.finished_at;
    error_code = r.error_code;
    attempts = attempts;
  }

  module _ (parse : Text → Option JobTaskPayload) where
    unfoldable pub parse_job_payload : Text → Result StoreError JobTaskPayload
    parse_job_payload text = or_raise (parse text) payload_error

    unfoldable pub state_from_records :
        JobRecord → List JobAttemptRecord → Result StoreError JobState
    state_from_records r rows = do
      payload ← parse_job_payload r.payload_json
      or_payload_error (
          validate_attempts (map attempt_from_record rows) >>= λ attempts.
          validate_job hash_job_payload (state_of r payload attempts))
