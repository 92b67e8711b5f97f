-- ===== src/JobStore/Store.antt =====
-- `SqlAlchemyJobStore` of backend/app/job_store.py. A method reads the database `seen` in the
-- transaction of its queries, and writes to the database `db` that it finds at its commit, which other
-- sessions may have changed in between; it answers with its result and the database that it leaves.
use file_nest.Base.{
  ℕ, ◌+◌, Bool, true, false, not, ◌&&◌, ◌||◌, Option, none, some, List, [], ◌∷◌, ◌++◌, map, filter,
  any, length, ◌==◌, leb, Result, ok, err, ◌>>=◌, ◌>>◌, raise_if, if◌then◌else◌,
}
use file_nest.FilePath.{Text, text_eq}
use file_nest.Job.{JobKind, JobStatus, JobTaskPayload, JobAttempt, JobState}
use file_nest.JobStore.Payload.{serialize_job_payload}
use file_nest.JobStore.Records.{
  StoreError, value_error, job_store_error, identity_conflict, revision_conflict, attempt_conflict,
  not_found, integrity_error, JobRecord, JobAttemptRecord, Database, find_job,
  get_by_idempotency_key, get_attempts, new_attempt_record, or_raise, new_job_record,
  state_from_records, parse_job_payload,
}

abbrev pub kind_eq : JobKind → JobKind → Bool
kind_eq JobKind.workspace_scan JobKind.workspace_scan = true
kind_eq JobKind.document_index JobKind.document_index = true
kind_eq _ _ = false

abbrev pub status_eq : JobStatus → JobStatus → Bool
status_eq JobStatus.pending JobStatus.pending = true
status_eq JobStatus.running JobStatus.running = true
status_eq JobStatus.cancel_requested JobStatus.cancel_requested = true
status_eq JobStatus.succeeded JobStatus.succeeded = true
status_eq JobStatus.failed JobStatus.failed = true
status_eq JobStatus.cancelled JobStatus.cancelled = true
status_eq _ _ = false

abbrev pub is_digest_of : Option Text → Text → Bool
is_digest_of none digest = false
is_digest_of (some known) digest = text_eq digest known

-- `candidate.status != "pending" or candidate.revision != 0 or candidate.attempts`, negated
unfoldable pub is_new : JobState → Bool
is_new s =
    status_eq s.status JobStatus.pending
    && s.revision == 0
    && elim s.attempts [ [] ↦ true | a ∷ rest ↦ false ]

-- the columns by which `zip(persisted, incoming)` compares
unfoldable pub is_row_of : JobAttemptRecord → JobAttempt → Bool
is_row_of r a =
    r.attempt_no == a.attempt_no
    && r.attempt_id == a.attempt_id
    && r.job_id == a.job_id
    && r.started_at == a.started_at

unfoldable pub are_rows_of : List JobAttemptRecord → List JobAttempt → Bool
are_rows_of [] incoming = true
are_rows_of (r ∷ rows) [] = true
are_rows_of (r ∷ rows) (a ∷ incoming) = is_row_of r a && are_rows_of rows incoming

unfoldable pub require_compatible_attempts :
    List JobAttemptRecord → List JobAttempt → Result StoreError (Unit {0})
require_compatible_attempts persisted incoming = do
  raise_if
      (not
        (leb (length persisted) (length incoming) && leb (length incoming) (length persisted + 1)))
      attempt_conflict
  raise_if (not (are_rows_of persisted incoming)) attempt_conflict

-- the assignments of `_save_attempts` to a row
unfoldable pub overwrite : JobAttempt → JobAttemptRecord → JobAttemptRecord
overwrite a r = record r {
  status = a.status;
  completed_units = a.progress.completed_units;
  total_units = a.progress.total_units;
  phase_code = a.progress.phase_code;
  finished_at = a.finished_at;
  error_code = a.error_code;
  retryable = a.retryable;
}

-- the UPDATE of one row by its primary key
unfoldable pub update_row : ℕ → JobAttempt → JobAttemptRecord → JobAttemptRecord
update_row id a r = if r.attempt_id == id then overwrite a r else r

-- the INSERT of a row, under the primary key and `uq_background_job_attempts_job_number`
unfoldable pub insert_row :
    JobAttempt → List JobAttemptRecord → Result StoreError (List JobAttemptRecord)
insert_row a rows = do
  raise_if (any (λ (r : JobAttemptRecord). r.attempt_id == a.attempt_id) rows) integrity_error
  raise_if
      (any (λ (r : JobAttemptRecord). r.job_id == a.job_id && r.attempt_no == a.attempt_no) rows)
      integrity_error
  ok (rows ++ new_attempt_record a ∷ [])

unfoldable pub save_attempts :
    List JobAttemptRecord
    → List JobAttempt
    → List JobAttemptRecord
    → Result StoreError (List JobAttemptRecord)
save_attempts persisted [] rows = ok rows
save_attempts [] (a ∷ incoming) rows = insert_row a rows >>= λ more. save_attempts [] incoming more
save_attempts (p ∷ persisted) (a ∷ incoming) rows =
    save_attempts persisted incoming (map (update_row p.attempt_id a) rows)

-- the row that the UPDATE of a job leaves
unfoldable pub advance : JobState → JobRecord → JobRecord
advance s r = record r {
  status = s.status;
  revision = s.revision;
  cancel_requested_at = s.cancel_requested_at;
  finished_at = s.finished_at;
  error_code = s.error_code;
}

-- `JobRecord.job_id == job_id, JobRecord.revision == expected_revision`
abbrev pub is_at : ℕ → ℕ → JobRecord → Bool
is_at id revision r = r.job_id == id && r.revision == revision

unfoldable pub advance_at : ℕ → JobState → JobRecord → JobRecord
advance_at expected s r = if is_at s.job_id expected r then advance s r else r

unfoldable pub update_job : ℕ → JobState → List JobRecord → Result StoreError (List JobRecord)
update_job expected s jobs = do
  raise_if (not (length (filter (is_at s.job_id expected) jobs) == 1)) revision_conflict
  ok (map (advance_at expected s) jobs)

-- the INSERT of a job, under the primary key and `uq_background_jobs_idempotency_key`
unfoldable pub insert_job : JobRecord → List JobRecord → Result StoreError (List JobRecord)
insert_job r jobs = do
  raise_if (any (λ (x : JobRecord). x.job_id == r.job_id) jobs) integrity_error
  raise_if (any (λ (x : JobRecord). text_eq x.idempotency_key r.idempotency_key) jobs)
      integrity_error
  ok (jobs ++ r ∷ [])

-- `except Exception: session.rollback()`; what has been committed is then loaded
abbrev pub commit :
    {A : Type 0}
    → Database
    → Result StoreError Database
    → (Database → Result StoreError A)
    → Result StoreError A × Database
commit db (err raised) load = (err raised, db)
commit db (ok written) load = (load written, written)

module _ (hash_job_payload : JobTaskPayload → Text) (parse : Text → Option JobTaskPayload) where
  unfoldable pub load_job : Database → ℕ → Result StoreError JobState
  load_job db id = do
    r ← or_raise (find_job id db.jobs) not_found
    state_from_records hash_job_payload parse r (get_attempts db.attempts id)

  unfoldable pub get : Database → ℕ → Result StoreError (Option JobState)
  get db id = elim (find_job id db.jobs) [
    | none ↦ ok none
    | some r ↦ state_from_records hash_job_payload parse r (get_attempts db.attempts id) >>= λ s.
        ok (some s)
  ]

  unfoldable pub require_same_identity : JobRecord → JobState → Result StoreError (Unit {0})
  require_same_identity r s = do
    persisted ← parse_job_payload hash_job_payload parse r.payload_json
    raise_if
        (not (kind_eq r.kind s.kind)
          || not (text_eq r.task_version s.task_version)
          || not (r.workspace_id == s.workspace_id)
          || not (is_digest_of s.payload_hash r.payload_hash)
          || not (text_eq (serialize_job_payload persisted) (serialize_job_payload s.payload))
          || not (text_eq r.idempotency_key s.idempotency_key))
        identity_conflict

  unfoldable pub require_same_definition : JobRecord → JobState → Result StoreError (Unit {0})
  require_same_definition r s = do
    require_same_identity r s
    raise_if (not (r.max_attempts == s.max_attempts) || not (r.created_at == s.created_at))
        identity_conflict

  -- the stored job of the key, if it is the same submission
  unfoldable pub load_same : Database → JobRecord → JobState → Result StoreError JobState
  load_same db existing candidate =
      require_same_identity existing candidate >> load_job db existing.job_id

  -- after `IntegrityError`: who has taken the key?
  unfoldable pub after_conflict : Database → JobState → Result StoreError JobState
  after_conflict db candidate = do
    existing ← or_raise (get_by_idempotency_key candidate.idempotency_key db.jobs) job_store_error
    load_same db existing candidate

  unfoldable pub add_job : Database → JobState → Result StoreError JobState × Database
  add_job db candidate = elim (insert_job (new_job_record hash_job_payload candidate) db.jobs) [
    | err raised ↦ (after_conflict db candidate, db)
    | ok jobs ↦
        let db' : Database = record db { jobs = jobs } in (load_job db' candidate.job_id, db')
  ]

  unfoldable pub create_or_get :
      Database → Database → JobState → Result StoreError JobState × Database
  create_or_get seen db candidate =
      if not (is_new candidate)
      then (err value_error, db)
      else elim (get_by_idempotency_key candidate.idempotency_key seen.jobs) [
        | some existing ↦ (load_same seen existing candidate, db)
        | none ↦ add_job db candidate
      ]

  -- the body of the `try` up to `session.commit()`
  unfoldable pub write_transition : ℕ → Database → Database → JobState → Result StoreError Database
  write_transition expected seen db s = do
    r ← or_raise (find_job s.job_id seen.jobs) not_found
    require_same_definition r s
    require_compatible_attempts (get_attempts seen.attempts s.job_id) s.attempts
    jobs ← update_job expected s db.jobs
    attempts ← save_attempts (get_attempts seen.attempts s.job_id) s.attempts db.attempts
    ok (record { jobs = jobs; attempts = attempts })

  unfoldable pub save_transition :
      ℕ → Database → Database → JobState → Result StoreError JobState × Database
  save_transition expected seen db s =
      if not (s.revision == expected + 1)
      then (err value_error, db)
      else commit db (write_transition expected seen db s) (λ written. load_job written s.job_id)
