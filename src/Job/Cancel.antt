-- ===== src/Job/Cancel.antt =====
-- `_request_cancellation` of backend/app/job_system.py against the validators of the state.
use file_nest.Base.{◌≡◌, false, none, some, arith, last?, ltb, err}
use file_nest.FilePath.{Text}
use file_nest.Job.Model.{JobStatus, validation_error, JobTaskPayload, JobAttempt, JobEvent}
use file_nest.Job.State.{JobState, are_fields, is_settled, fits_latest, is_lifecycle, validate_job}
use file_nest.Job.Validity.{Tests}

module _ (hash : JobTaskPayload → Text) (s : JobState) (e : JobEvent) (t : Tests hash s)
    (late : ltb e.occurred_at s.created_at ≡ false) where
  -- the state that the branch for a pending job builds
  abbrev pub cancelled_job : JobState
  cancelled_job = record s {
    status = JobStatus.cancelled;
    revision = e.sequence_no;
    cancel_requested_at = some e.occurred_at;
    finished_at = some e.occurred_at;
  }

  pub cancelled_job-Tests :
      s.status ≡ JobStatus.pending → last? s.attempts ≡ none → Tests hash cancelled_job
  unfolding are_fields is_lifecycle is_settled fits_latest
  cancelled_job-Tests p l = record {
    fields = ground (arith, t.fields);
    lifecycle = ground (arith, t.lifecycle);
    digest = t.digest;
  }

  -- after a failed attempt the pending job has an attempt that is not cancelled
  pub cancelled_job-refused :
      (a : JobAttempt)
      → s.status ≡ JobStatus.pending
      → last? s.attempts ≡ some a
      → validate_job hash cancelled_job ≡ err validation_error
  unfolding validate_job is_lifecycle fits_latest
  cancelled_job-refused a p l = ground (arith, t.lifecycle)

  pub cancelling_job-Tests :
      s.status ≡ JobStatus.running
      → Tests hash (record s {
        status = JobStatus.cancel_requested;
        revision = e.sequence_no;
        cancel_requested_at = some e.occurred_at;
      })
  unfolding are_fields is_lifecycle is_settled fits_latest
  cancelling_job-Tests p = record {
    fields = ground (arith, t.fields);
    lifecycle = ground (arith, t.lifecycle);
    digest = t.digest;
  }

  pub counted_job-Tests : Tests hash (record s { revision = e.sequence_no })
  unfolding are_fields is_lifecycle is_settled
  counted_job-Tests = record { fields = t.fields; lifecycle = t.lifecycle; digest = t.digest }
