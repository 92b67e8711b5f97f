-- ===== src/Job/Outcome.antt =====
-- What `transition_job` of backend/app/job_system.py returns or raises on valid input.
use file_nest.Base.{
  ℕ, ◌≡◌, ◌≢◌, refl, ap, ◌∙◌, Bool, true, false, Option, none, some, List, [], any, length, last?,
  ltb, leb, ◌==◌, Result, ok, err, Bool-cases, inl, inr, Option-cases,
}
use file_nest.FilePath.{Text}
use file_nest.Job.Model.{
  JobStatus, progress_reported, cancellation_requested, JobError, attempt_mismatch,
  invalid_transition, retry_not_allowed, validation_error, index_error, JobTaskPayload, JobAttempt,
  is_attempt, validate_attempt, JobEvent,
}
use file_nest.Job.State.{JobState, validate_job}
use file_nest.Job.Events.{
  new_attempt, started, start_attempt, cancel_by_status, request_retry, is_pending, is_job_failed,
  is_retryable,
}
use file_nest.Job.Cancel.{
  cancelled_job-Tests, cancelled_job-refused, cancelling_job-Tests, counted_job-Tests,
}
use file_nest.Job.Validity.{
  IsValid, Tests, IsValid-of_Tests, new_attempt-is_attempt, started_job-Tests, retried_job-Tests,
}

-- the six codes of `JobTransitionErrorCode`
abbrev pub is_transition_error : JobError → Bool
is_transition_error validation_error = false
is_transition_error index_error = false
is_transition_error _ = true

pub validate_attempt-ok : (a : JobAttempt) → is_attempt a ≡ true → validate_attempt a ≡ ok a
unfolding validate_attempt
validate_attempt-ok a h = rw h refl

module _ (hash : JobTaskPayload → Text) where
  -- how a handler ends: a valid job, one of the transition errors, or pydantic's ValidationError in the
  -- two cases in which the state that the handler builds is refused
  pub data Outcome (s : JobState) (e : JobEvent) (r : Result JobError JobState) : Type 0 where
    moved : (t : JobState) → r ≡ ok t → IsValid hash t → Outcome s e r
    refused : (x : JobError) → r ≡ err x → is_transition_error x ≡ true → Outcome s e r
    bad_progress : e.kind ≡ progress_reported → r ≡ err validation_error → Outcome s e r
    pending_retry :
        e.kind ≡ cancellation_requested
        → s.status ≡ JobStatus.pending
        → s.attempts ≢ []
        → r ≡ err validation_error
        → Outcome s e r

  pub moved-Tests :
      (s t : JobState) (e : JobEvent) (r : Result JobError JobState)
      → r ≡ validate_job hash t
      → Tests hash t
      → Outcome s e r
  moved-Tests s t e r h k = moved t (h ∙ IsValid-of_Tests hash t k) (IsValid-of_Tests hash t k)

  pub started-Outcome :
      (s : JobState) (e : JobEvent) (id : Option ℕ)
      → Tests hash s
      → s.status ≡ JobStatus.pending
      → leb s.max_attempts (length s.attempts) ≡ false
      → ltb e.occurred_at s.created_at ≡ false
      → Outcome s e (started hash s e id)
  unfolding started
  started-Outcome s e none t p room late = refused attempt_mismatch refl refl
  started-Outcome s e (some id) t p room late =
      elim (Bool-cases (any (λ (attempt : JobAttempt). attempt.attempt_id == id) s.attempts)) [
        | inl h ↦ refused attempt_mismatch (rw h refl) refl
        | inr h ↦
            moved-Tests s _ e _
              (rw (h, validate_attempt-ok (new_attempt s e id) (new_attempt-is_attempt hash s e id))
                refl)
              (started_job-Tests hash s e id t p room (rw h refl) late)
      ]

  pending_status : (st : JobStatus) → is_pending st ≡ true → st ≡ JobStatus.pending
  pending_status JobStatus.pending h = refl
  pending_status _ h = cc

  pub start_attempt-Outcome :
      (s : JobState) (e : JobEvent)
      → Tests hash s
      → ltb e.occurred_at s.created_at ≡ false
      → Outcome s e (start_attempt hash s e)
  unfolding start_attempt
  start_attempt-Outcome s e t late = elim (Bool-cases (is_pending s.status)) [
    | inr h ↦ refused invalid_transition (rw h refl) refl
    | inl h ↦ elim (Bool-cases (leb s.max_attempts (length s.attempts))) [
      | inl full ↦ refused retry_not_allowed (rw (h, full) refl) refl
      | inr room ↦
          rw (h, room) (started-Outcome s e e.attempt_id t (pending_status s.status h) room late)
    ]
  ]

  pub request_retry-Outcome :
      (s : JobState) (e : JobEvent) → Tests hash s → Outcome s e (request_retry hash s e)
  unfolding request_retry
  request_retry-Outcome s e t = elim (Bool-cases (is_job_failed s.status)) [
    | inr h ↦ refused retry_not_allowed (rw h refl) refl
    | inl h ↦ elim (Bool-cases (is_retryable (last? s.attempts))) [
      | inr k ↦ refused retry_not_allowed (rw (h, k) refl) refl
      | inl k ↦ elim (Bool-cases (leb s.max_attempts (length s.attempts))) [
        | inl full ↦ refused retry_not_allowed (rw (h, k, full) refl) refl
        | inr room ↦
            moved-Tests s _ e _ (rw (h, k, room) refl)
              (retried_job-Tests hash s e.sequence_no t h k)
      ]
    ]
  ]

  pub cancel_by_status-Outcome :
      (s : JobState) (e : JobEvent) (status : JobStatus)
      → Tests hash s
      → ltb e.occurred_at s.created_at ≡ false
      → e.kind ≡ cancellation_requested
      → s.status ≡ status
      → Outcome s e (cancel_by_status hash status s e)
  unfolding cancel_by_status
  cancel_by_status-Outcome s e JobStatus.pending t late kind st =
      elim (Option-cases (last? s.attempts)) [
        | inl l ↦ moved-Tests s _ e _ refl (cancelled_job-Tests hash s e t late st l)
        | inr (a, l) ↦
            pending_retry kind st (λ p. cc (ap (λ (xs : List JobAttempt). last? xs) p, l))
              (cancelled_job-refused hash s e t late a st l)
      ]
  cancel_by_status-Outcome s e JobStatus.running t late kind st =
      moved-Tests s _ e _ refl (cancelling_job-Tests hash s e t late st)
  cancel_by_status-Outcome s e JobStatus.cancel_requested t late kind st =
      moved-Tests s _ e _ refl (counted_job-Tests hash s e t late)
  cancel_by_status-Outcome s e _ t late kind st = refused invalid_transition refl refl
