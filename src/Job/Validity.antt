-- ===== src/Job/Validity.antt =====
-- Whether the states that the handlers of backend/app/job_system.py build pass the validators.
use file_nest.Base.{
  ℕ, ◌≡◌, refl, Bool, true, false, not, ◌&&◌, ◌||◌, Option, none, some, List, [], ◌∷◌, ◌++◌, arith,
  length, last?, set_last, ltb, leb, ok, is_some, is_none, if◌then◌else◌, length-append,
  last?-append, last?-set_last, length-set_last, all-append_one, all-set_last, all-last?,
}
use file_nest.FilePath.{Text}
use file_nest.FilePath.Laws.{text_eq_refl}
use file_nest.OperationPlan.{is_code_text}
use file_nest.Job.Model.{
  JobStatus, JobEventKind, attempt_succeeded, attempt_failed, attempt_cancelled,
  attempt_interrupted, is_failure_event, is_interruption, or_false, JobTaskPayload, JobAttempt,
  JobEvent, is_attempt, is_outcome, is_progress, starting, is_event, is_error_code,
}
use file_nest.Job.State.{
  same_option, JobState, are_fields, is_settled, fits_latest, is_lifecycle, validate_job,
}
use file_nest.Job.Events.{
  attempt_outcome, job_outcome, is_cancellation, is_cancel_requested, is_job_failed, is_retryable,
  new_attempt, finished_attempt, finished_job,
}
use file_nest.Job.Attempts.{are_attempts-append, are_attempts-set_last, SameAttempt, is_new_id}

same_option_refl : (code : Option Text) → same_option code code ≡ true
same_option_refl none = refl
same_option_refl (some text) = text_eq_refl text

-- the four kinds of event that `_finish_attempt` handles
abbrev pub is_finish : JobEventKind → Bool
is_finish attempt_succeeded = true
is_finish attempt_failed = true
is_finish attempt_cancelled = true
is_finish attempt_interrupted = true
is_finish _ = false

-- what an event says of a failure
abbrev failure_fits : JobEventKind → Option Text → Option Bool → Bool
failure_fits kind code retry =
    if is_failure_event kind
    then is_some code && is_some retry && (not (is_interruption kind) || or_false retry)
    else is_none code && is_none retry

event_failure :
    (e : JobEvent) → is_event e ≡ true → failure_fits e.kind e.error_code e.retryable ≡ true
unfolding is_event
event_failure e w = ground arith

event_error_code : (e : JobEvent) → is_event e ≡ true → is_error_code e.error_code ≡ true
unfolding is_event
event_error_code e w = ground arith

finished-is_outcome :
    (kind : JobEventKind) (b : JobAttempt) (at : ℕ) (code : Option Text) (retry : Option Bool)
    → is_finish kind ≡ true
    → failure_fits kind code retry ≡ true
    → ltb at b.started_at ≡ false
    → is_outcome (attempt_outcome kind) (record b {
      status = attempt_outcome kind;
      finished_at = some at;
      error_code = code;
      retryable = or_false retry;
    })
      ≡ true
unfolding is_outcome
finished-is_outcome attempt_succeeded b at code retry k f late = ground arith
finished-is_outcome attempt_failed b at code retry k f late = ground arith
finished-is_outcome attempt_cancelled b at code retry k f late = ground arith
finished-is_outcome attempt_interrupted b at code retry k f late = ground arith
finished-is_outcome _ b at code retry k f late = cc

finished-is_settled :
    (kind : JobEventKind) (s : JobState) (n : ℕ) (attempts : List JobAttempt) (at : ℕ)
    (code : Option Text) (retry : Option Bool)
    → is_finish kind ≡ true
    → failure_fits kind code retry ≡ true
    → ltb at s.created_at ≡ false
    → (is_cancellation kind && not (is_cancel_requested s.status)) ≡ false
    → is_settled s ≡ true
    → is_settled (record s {
      status = job_outcome kind;
      revision = n;
      attempts = attempts;
      finished_at = some at;
      error_code = code;
    })
      ≡ true
unfolding is_settled
finished-is_settled attempt_succeeded s n attempts at code retry k f late guard h = ground arith
finished-is_settled attempt_failed s n attempts at code retry k f late guard h = ground arith
finished-is_settled attempt_cancelled s n attempts at code retry k f late guard h = ground arith
finished-is_settled attempt_interrupted s n attempts at code retry k f late guard h = ground arith
finished-is_settled _ s n attempts at code retry k f late guard h = cc

finished-fits_latest :
    (kind : JobEventKind) (a : JobAttempt)
    → is_finish kind ≡ true
    → a.status ≡ attempt_outcome kind
    → fits_latest (job_outcome kind) a.error_code (some a) ≡ true
unfolding fits_latest
finished-fits_latest attempt_succeeded a k st = ground arith
finished-fits_latest attempt_failed a k st = ground (arith, same_option_refl a.error_code)
finished-fits_latest attempt_cancelled a k st = ground arith
finished-fits_latest attempt_interrupted a k st = ground (arith, same_option_refl a.error_code)
finished-fits_latest _ a k st = cc

module _ (hash : JobTaskPayload → Text) where
  abbrev pub IsValid : JobState → Type 0
  IsValid s = validate_job hash s ≡ ok s

  -- the tests of a valid state, one by one
  pub record Tests (s : JobState) : Type 0 where
    pub fields : are_fields s ≡ true
    pub lifecycle : is_lifecycle hash s ≡ true
    pub digest : s.payload_hash ≡ some (hash s.payload)

  pub Tests-of_valid : (s : JobState) → IsValid s → Tests s
  unfolding validate_job
  Tests-of_valid s v = record {
    fields = ground arith;
    lifecycle = ground arith;
    digest = ground arith;
  }

  pub IsValid-of_Tests : (s : JobState) → Tests s → IsValid s
  unfolding validate_job
  IsValid-of_Tests s t = ground (arith, t.fields, t.lifecycle, t.digest)

  starting-is_progress : is_progress starting ≡ true
  unfolding is_progress is_code_text
  starting-is_progress = refl

  pub new_attempt-is_attempt :
      (s : JobState) (e : JobEvent) (id : ℕ) → is_attempt (new_attempt s e id) ≡ true
  unfolding is_attempt is_outcome is_error_code
  new_attempt-is_attempt s e id = ground (arith, starting-is_progress)

  abbrev pub started_job : JobState → JobEvent → ℕ → JobState
  started_job s e id = record s {
    status = JobStatus.running;
    revision = e.sequence_no;
    attempts = s.attempts ++ new_attempt s e id ∷ [];
  }

  pub started_job-Tests :
      (s : JobState) (e : JobEvent) (id : ℕ)
      → Tests s
      → s.status ≡ JobStatus.pending
      → leb s.max_attempts (length s.attempts) ≡ false
      → is_new_id id s.attempts ≡ true
      → ltb e.occurred_at s.created_at ≡ false
      → Tests (started_job s e id)
  unfolding are_fields is_lifecycle is_settled fits_latest
  started_job-Tests s e id t p room fresh late = record {
    fields = ground (
      arith,
      t.fields,
      all-append_one is_attempt s.attempts (new_attempt s e id),
      new_attempt-is_attempt s e id,
    );
    lifecycle = ground (
      arith,
      t.lifecycle,
      length-append s.attempts (new_attempt s e id ∷ []),
      last?-append s.attempts (new_attempt s e id),
      are_attempts-append s.job_id s.created_at 1 [] s.attempts (new_attempt s e id),
    );
    digest = t.digest;
  }

  lifecycle-is_settled : (s : JobState) → Tests s → is_settled s ≡ true
  unfolding is_lifecycle
  lifecycle-is_settled s t = ground (arith, t.lifecycle)

  -- the latest attempt of a job that runs is itself valid and running
  pub latest_attempt :
      (s : JobState) (a : JobAttempt) → Tests s → last? s.attempts ≡ some a → is_attempt a ≡ true
  unfolding are_fields
  latest_attempt s a t l = all-last? is_attempt s.attempts a (ground (arith, t.fields)) l

  pub replaced_job-Tests :
      (s : JobState) (a b : JobAttempt) (n : ℕ)
      → Tests s
      → last? s.attempts ≡ some b
      → SameAttempt a b
      → a.status ≡ b.status
      → a.error_code ≡ b.error_code
      → is_attempt a ≡ true
      → Tests (record s { revision = n; attempts = set_last s.attempts a })
  unfolding are_fields is_lifecycle is_settled fits_latest
  replaced_job-Tests s a b n t l same st code good = record {
    fields = ground (arith, t.fields, all-set_last is_attempt s.attempts a);
    lifecycle = ground (
      arith,
      t.lifecycle,
      length-set_last s.attempts a b,
      last?-set_last s.attempts a,
      are_attempts-set_last s.job_id s.created_at 1 [] s.attempts a b,
    );
    digest = t.digest;
  }

  pub finished_job-Tests :
      (s : JobState) (e : JobEvent) (b : JobAttempt)
      → Tests s
      → is_event e ≡ true
      → last? s.attempts ≡ some b
      → is_finish e.kind ≡ true
      → is_attempt (finished_attempt b e) ≡ true
      → ltb e.occurred_at s.created_at ≡ false
      → (is_cancellation e.kind && not (is_cancel_requested s.status)) ≡ false
      → Tests (finished_job s e (finished_attempt b e))
  unfolding are_fields is_lifecycle
  finished_job-Tests s e b t w l kind good late guard =
      let settled : is_settled (finished_job s e (finished_attempt b e)) ≡ true =
        finished-is_settled e.kind s e.sequence_no (set_last s.attempts (finished_attempt b e))
          e.occurred_at e.error_code e.retryable kind (event_failure e w) late guard
          (lifecycle-is_settled s t) in
      let latest = finished-fits_latest e.kind (finished_attempt b e) kind refl in
      record {
        fields = ground (
          arith,
          t.fields,
          all-set_last is_attempt s.attempts (finished_attempt b e),
          event_error_code e w,
        );
        lifecycle = ground (
          arith,
          t.lifecycle,
          length-set_last s.attempts (finished_attempt b e) b,
          last?-set_last s.attempts (finished_attempt b e),
          are_attempts-set_last s.job_id s.created_at 1 [] s.attempts (finished_attempt b e) b,
          settled,
          latest,
        );
        digest = t.digest;
      }

  pub finished_attempt-is_attempt :
      (e : JobEvent) (b : JobAttempt)
      → is_event e ≡ true
      → is_finish e.kind ≡ true
      → is_attempt b ≡ true
      → ltb e.occurred_at b.started_at ≡ false
      → is_attempt (finished_attempt b e) ≡ true
  unfolding is_attempt
  finished_attempt-is_attempt e b w kind good late = ground (
    arith,
    event_error_code e w,
    finished-is_outcome e.kind b e.occurred_at e.error_code e.retryable kind (event_failure e w)
        late,
  )

  pub retried_job-Tests :
      (s : JobState) (n : ℕ)
      → Tests s
      → is_job_failed s.status ≡ true
      → is_retryable (last? s.attempts) ≡ true
      → Tests (record s {
        status = JobStatus.pending;
        revision = n;
        cancel_requested_at = none;
        finished_at = none;
        error_code = none;
      })
  unfolding are_fields is_lifecycle is_settled fits_latest is_error_code
  retried_job-Tests s n t f r = record {
    fields = ground (arith, t.fields);
    lifecycle = ground (arith, t.lifecycle);
    digest = t.digest;
  }
