-- ===== src/JobRunner/Finishing.antt =====
-- The events with which backend/app/job_runner.py ends or retries the latest attempt of a job are
-- accepted by the state machine of backend/app/job_system.py.
use file_nest.Base.{
  ℕ, ◌+◌, ◌≡◌, refl, ap, ◌∙◌, true, false, not, ◌&&◌, none, some, arith, length, last?, ltb, leb,
  ◌==◌, ok,
}
use file_nest.FilePath.{Text}
use file_nest.Job.{
  JobStatus, AttemptStatus, JobEventKind, attempt_succeeded, attempt_failed, attempt_cancelled,
  attempt_interrupted, retry_requested, JobTaskPayload, JobAttempt, JobEvent, JobState, is_event,
  has_worker, is_cancellation, is_cancel_requested, is_job_failed, is_retryable, active_of_latest,
  active_attempt, finished_attempt, finished_job, finish_active, finish_attempt, request_retry,
  handle, transition_job,
}
use file_nest.Job.Validity.{
  IsValid, Tests-of_valid, IsValid-of_Tests, is_finish, latest_attempt, finished_job-Tests,
  finished_attempt-is_attempt, retried_job-Tests,
}
use file_nest.Job.Outcome.{validate_attempt-ok}

-- an event of the next revision, not before the job was created
pub record Next (s : JobState) (e : JobEvent) : Type 0 where
  pub job : e.job_id ≡ s.job_id
  pub sequence : e.sequence_no ≡ s.revision + 1
  pub time : ltb e.occurred_at s.created_at ≡ false
  pub event : is_event e ≡ true

module _ (hash : JobTaskPayload → Text) where
  handle-finish :
      (s : JobState) (e : JobEvent) (kind : JobEventKind)
      → is_finish kind ≡ true
      → handle hash kind s e ≡ finish_attempt hash s e
  unfolding handle
  handle-finish s e attempt_succeeded h = refl
  handle-finish s e attempt_failed h = refl
  handle-finish s e attempt_cancelled h = refl
  handle-finish s e attempt_interrupted h = refl
  handle-finish s e _ h = absurd (cc h)

  handled_next :
      (s : JobState) (e : JobEvent) → Next s e → transition_job hash s e ≡ handle hash e.kind s e
  unfolding transition_job
  handled_next s e n =
      let job : (e.job_id == s.job_id) ≡ true = ground (arith, n.job) in
      let sequence : (e.sequence_no == s.revision + 1) ≡ true = ground (arith, n.sequence) in
      rw (job, sequence, n.time) refl

  active_found :
      (s : JobState) (e : JobEvent) (a : JobAttempt)
      → has_worker s.status ≡ true
      → last? s.attempts ≡ some a
      → a.status ≡ AttemptStatus.running
      → e.attempt_id ≡ some a.attempt_id
      → active_attempt s e ≡ ok a
  unfolding active_attempt active_of_latest
  active_found s e a worker l running id = ground arith

  -- the latest attempt of a job with a worker can be ended
  pub finish_accepted :
      (s : JobState) (e : JobEvent) (a : JobAttempt)
      → IsValid hash s
      → Next s e
      → is_finish e.kind ≡ true
      → has_worker s.status ≡ true
      → last? s.attempts ≡ some a
      → a.status ≡ AttemptStatus.running
      → e.attempt_id ≡ some a.attempt_id
      → ltb e.occurred_at a.started_at ≡ false
      → (is_cancellation e.kind && not (is_cancel_requested s.status)) ≡ false
      → transition_job hash s e ≡ ok (finished_job s e (finished_attempt a e))
  unfolding finish_attempt finish_active
  finish_accepted s e a v n kind worker l running id late asked =
      let t = Tests-of_valid hash s v in
      let good =
        finished_attempt-is_attempt hash e a n.event kind (latest_attempt hash s a t l) late in
      let tests = finished_job-Tests hash s e a t n.event l kind good n.time asked in
      handled_next s e n
      ∙ handle-finish s e e.kind kind
      ∙ rw
          (
            active_found s e a worker l running id,
            late,
            asked,
            validate_attempt-ok (finished_attempt a e) good,
            IsValid-of_Tests hash (finished_job s e (finished_attempt a e)) tests,
          )
          refl

  abbrev pub retried_job : JobState → ℕ → JobState
  retried_job s n = record s {
    status = JobStatus.pending;
    revision = n;
    cancel_requested_at = none;
    finished_at = none;
    error_code = none;
  }

  -- a retryable failure can be retried
  pub retry_accepted :
      (s : JobState) (e : JobEvent)
      → IsValid hash s
      → Next s e
      → e.kind ≡ retry_requested
      → is_job_failed s.status ≡ true
      → is_retryable (last? s.attempts) ≡ true
      → leb s.max_attempts (length s.attempts) ≡ false
      → transition_job hash s e ≡ ok (retried_job s e.sequence_no)
  unfolding handle request_retry
  retry_accepted s e v n kind failed retryable room =
      handled_next s e n
      ∙ ap (λ k. handle hash k s e) kind
      ∙ rw
          (
            failed,
            retryable,
            room,
            IsValid-of_Tests hash (retried_job s e.sequence_no)
                (retried_job-Tests hash s e.sequence_no (Tests-of_valid hash s v) failed retryable),
          )
          refl
