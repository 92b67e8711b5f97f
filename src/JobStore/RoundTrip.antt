-- ===== src/JobStore/RoundTrip.antt =====
-- What backend/app/job_store.py writes for a job it reads back: `_new_job_record` and the rows of the
-- attempts against `_state_from_records`.
use file_nest.Base.{
  ◌≡◌, refl, ap, true, Option, none, some, List, [], ◌∷◌, arith, map, all, leb, ok,
}
use file_nest.FilePath.{Text}
use file_nest.Job.{JobTaskPayload, JobAttempt, is_attempt, JobState, are_fields}
use file_nest.Job.Validity.{IsValid, Tests-of_valid}
use file_nest.Job.Outcome.{validate_attempt-ok}
use file_nest.JobStore.Payload.{ReadsBack}
use file_nest.JobStore.Records.{
  Database, find_job, get_attempts, new_attempt_record, attempt_from_record, or_hash,
  validate_attempts, new_job_record, state_of, parse_job_payload, state_from_records,
}
use file_nest.JobStore.Store.{load_job}

attempts_from_records :
    (attempts : List JobAttempt)
    → map attempt_from_record (map new_attempt_record attempts) ≡ attempts
unfolding attempt_from_record new_attempt_record
attempts_from_records [] = refl
attempts_from_records (a ∷ rest) = ap (◌∷◌ a) (attempts_from_records rest)

validate_attempts-ok :
    (attempts : List JobAttempt)
    → all is_attempt attempts ≡ true
    → validate_attempts attempts ≡ ok attempts
unfolding validate_attempts
validate_attempts-ok [] h = refl
validate_attempts-ok (a ∷ rest) h =
    rw (validate_attempt-ok a (ground arith), validate_attempts-ok rest (ground arith)) refl

or_hash-same :
    (known : Option Text) (computed : Text)
    → known ≡ some computed
    → some (or_hash known computed) ≡ known
or_hash-same none computed h = absurd (cc h)
or_hash-same (some []) computed h = ground arith
or_hash-same (some (c ∷ known)) computed h = refl

module _ (hash : JobTaskPayload → Text) where
  -- the rows of the job are those of the state
  pub record Represents (db : Database) (s : JobState) : Type 0 where
    pub row : find_job s.job_id db.jobs ≡ some (new_job_record hash s)
    pub history : get_attempts db.attempts s.job_id ≡ map new_attempt_record s.attempts

  valid_attempts : (s : JobState) → IsValid hash s → all is_attempt s.attempts ≡ true
  unfolding are_fields
  valid_attempts s v = ground (arith, (Tests-of_valid hash s v).fields)

  pub valid_payload : (s : JobState) → IsValid hash s → leb 1 s.payload.workspace_id ≡ true
  unfolding are_fields
  valid_payload s v = ground (arith, (Tests-of_valid hash s v).fields)

  state_of-new_job_record :
      (s : JobState)
      → IsValid hash s
      → state_of hash (new_job_record hash s) s.payload s.attempts ≡ s
  unfolding state_of new_job_record
  state_of-new_job_record s v =
      ground (arith, or_hash-same s.payload_hash (hash s.payload) (Tests-of_valid hash s v).digest)

  module _ (parse : Text → Option JobTaskPayload) (codec : ReadsBack parse) where
    pub new_job_record-payload :
        (s : JobState)
        → IsValid hash s
        → parse_job_payload hash parse (new_job_record hash s).payload_json ≡ ok s.payload
    unfolding parse_job_payload new_job_record
    new_job_record-payload s v = rw (codec.reads s.payload (valid_payload s v)) refl

    -- The state of a valid job, read back from the rows that the store writes for it, is that state.
    pub state_from_records-new_records :
        (s : JobState)
        → IsValid hash s
        → state_from_records hash parse (new_job_record hash s) (map new_attempt_record s.attempts)
          ≡ ok s
    unfolding state_from_records
    state_from_records-new_records s v =
        rw
          (
            new_job_record-payload s v,
            attempts_from_records s.attempts,
            validate_attempts-ok s.attempts (valid_attempts s v),
            state_of-new_job_record s v,
            v,
          )
          refl

    -- A job whose rows are those of a valid state is loaded as that state.
    pub load_job-Represents :
        (db : Database) (s : JobState)
        → IsValid hash s
        → Represents db s
        → load_job hash parse db s.job_id ≡ ok s
    unfolding load_job
    load_job-Represents db s v rep = rw (rep.row, rep.history) (state_from_records-new_records s v)
