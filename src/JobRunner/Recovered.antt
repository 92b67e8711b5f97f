-- ===== src/JobRunner/Recovered.antt =====
-- What the recovery of backend/app/job_runner.py makes of a job that an earlier process has left.
use file_nest.Base.{
  ℕ, ◌≡◌, refl, ◌∙◌, true, false, not, ◌&&◌, Option, none, some, arith, all, all-last?, length,
  last?, ltb, leb, Result, ok, Bool-cases, inl, inr,
}
use file_nest.FilePath.{Text}
use file_nest.Job.{
  JobStatus, AttemptStatus, JobEventKind, attempt_cancelled, attempt_interrupted, retry_requested,
  JobTaskPayload, JobAttempt, JobState, is_event, has_worker, is_cancellation, is_cancel_requested,
  is_job_failed, is_retryable, job_outcome, finished_attempt, finished_job, transition_job,
}
use file_nest.Job.Validity.{Tests-of_valid, is_finish}
use file_nest.Job.Worker.{has_latest}
use file_nest.JobStore.{ReadsBack, Database}
use file_nest.JobRunner.Runner.{
  RunnerError, Details, next_event, apply_event_to_state, interruption, cancellation_details,
  no_details, apply_to_latest, is_interrupted, retry_interrupted, recover_by_status,
  recover_persisted_state,
}
use file_nest.JobRunner.Stored.{Stored, are_own_ids-set_last}
use file_nest.JobRunner.Finishing.{finish_accepted, retried_job, retry_accepted}
use file_nest.JobRunner.Applied.{
  next_event-Next, next_event-kind, retry_event, interruption_event, cancellation_event,
  apply-Stored,
}

module _ (hash : JobTaskPayload → Text) (parse : Text → Option JobTaskPayload)
    (codec : ReadsBack parse) where
  -- the call has returned a job that no worker holds, and has stored it
  pub record Settled (r : Result RunnerError JobState × Database) : Type 0 where
    pub state : JobState
    pub written : Database
    pub answer : r ≡ (ok state, written)
    pub stored : Stored hash written state
    pub idle : has_worker state.status ≡ false

  retryable_if : (last : Option JobAttempt) → is_interrupted last ≡ true → is_retryable last ≡ true
  retryable_if none h = absurd (cc h)
  retryable_if (some a) h = ground arith

  retry_chosen :
      (later : ℕ) (db : Database) (s : JobState)
      → (is_job_failed s.status
          && is_interrupted (last? s.attempts)
          && ltb (length s.attempts) s.max_attempts)
        ≡ true
      → retry_interrupted hash parse later db s
        ≡ apply_event_to_state hash parse later db s retry_requested no_details
  unfolding retry_interrupted
  retry_chosen later db s h = rw h refl

  retry_left :
      (later : ℕ) (db : Database) (s : JobState)
      → (is_job_failed s.status
          && is_interrupted (last? s.attempts)
          && ltb (length s.attempts) s.max_attempts)
        ≡ false
      → retry_interrupted hash parse later db s ≡ (ok s, db)
  unfolding retry_interrupted
  retry_left later db s h = rw h refl

  retry_settles :
      (later : ℕ) (db : Database) (s : JobState)
      → Stored hash db s
      → has_worker s.status ≡ false
      → ltb later s.created_at ≡ false
      → Settled (retry_interrupted hash parse later db s)
  retry_settles later db s stored idle late =
      elim (Bool-cases (
        is_job_failed s.status
        && is_interrupted (last? s.attempts)
        && ltb (length s.attempts) s.max_attempts)) [
          | inr h ↦ record {
            state = s;
            written = db;
            answer = retry_left later db s h;
            stored = stored;
            idle = idle;
          }
          | inl h ↦
              let e = next_event s retry_requested later no_details in
              let event = retry_event s later in
              let t =
                retried_job hash s (next_event s retry_requested later no_details).sequence_no in
              let step : transition_job hash s e ≡ ok t =
                retry_accepted hash s e stored.valid
                  (next_event-Next s retry_requested later no_details late event)
                  (next_event-kind s retry_requested later no_details) (ground arith)
                  (retryable_if (last? s.attempts) (ground arith)) (ground arith) in
              let (db', done, stored') =
                apply-Stored hash parse codec db s t retry_requested later no_details stored event
                  step stored.own in
              record {
                state = t;
                written = db';
                answer = retry_chosen later db s h ∙ done;
                stored = stored';
                idle = refl;
              }
        ]

  -- the clock has not gone back behind the start of an attempt
  started_before :
      (now : ℕ) (s : JobState) (a : JobAttempt)
      → all (λ (x : JobAttempt). leb x.started_at now) s.attempts ≡ true
      → last? s.attempts ≡ some a
      → ltb now a.started_at ≡ false
  started_before now s a h l =
      ground (arith, all-last? (λ (x : JobAttempt). leb x.started_at now) s.attempts a h l)

  -- the end of the latest attempt, whose details name it
  finish-Stored :
      (now : ℕ) (db : Database) (s : JobState) (a : JobAttempt) (kind : JobEventKind)
      (details : Details)
      → Stored hash db s
      → ltb now s.created_at ≡ false
      → ltb now a.started_at ≡ false
      → has_worker s.status ≡ true
      → last? s.attempts ≡ some a
      → a.status ≡ AttemptStatus.running
      → is_finish kind ≡ true
      → details.attempt_id ≡ some a.attempt_id
      → is_event (next_event s kind now details) ≡ true
      → (is_cancellation kind && not (is_cancel_requested s.status)) ≡ false
      → (t : JobState) × (db' : Database) × (apply_event_to_state hash parse now db s kind details
          ≡ (ok t, db'))
        × Stored hash db' t
        × (t.created_at ≡ s.created_at)
        × (t.status ≡ job_outcome kind)
  unfolding next_event
  finish-Stored now db s a kind details stored late after worker l running finish id event asked =
      let e = next_event s kind now details in
      let t = finished_job s e (finished_attempt a e) in
      let step =
        finish_accepted hash s e a stored.valid (next_event-Next s kind now details late event)
          finish worker l running id after asked in
      let own =
        are_own_ids-set_last s.job_id s.attempts (finished_attempt a e) a db.attempts l refl
        ∙ stored.own in
      let (db', done, stored') =
        apply-Stored hash parse codec db s t kind now details stored event step own in
      (t, db', done, stored', refl, refl)

  latest_applied :
      (now : ℕ) (db : Database) (s : JobState) (kind : JobEventKind) (details : ℕ → Details)
      (last : Option JobAttempt) (a : JobAttempt)
      → last ≡ some a
      → apply_to_latest hash parse now db s kind details last
        ≡ apply_event_to_state hash parse now db s kind (details a.attempt_id)
  unfolding apply_to_latest
  latest_applied now db s kind details last a h = rw h refl

  recover_settles :
      (now later : ℕ) (db : Database) (s : JobState) (status : JobStatus)
      → Stored hash db s
      → ltb now s.created_at ≡ false
      → ltb later s.created_at ≡ false
      → all (λ (x : JobAttempt). leb x.started_at now) s.attempts ≡ true
      → s.status ≡ status
      → Settled (recover_by_status hash parse status now later db s)
  unfolding recover_by_status
  recover_settles now later db s JobStatus.running stored late late' clock st =
      let worker : has_worker s.status ≡ true = rw st refl in
      let (a, l, running) = has_latest hash s (Tests-of_valid hash s stored.valid) worker in
      let (t, db', done, stored', born, ended) =
        finish-Stored now db s a attempt_interrupted (interruption a.attempt_id) stored late
          (started_before now s a clock l) worker l running refl refl
          (interruption_event s now a.attempt_id) refl in
      let settled = retry_settles later db' t stored' (rw ended refl) (rw born late') in
      rw (latest_applied now db s attempt_interrupted interruption (last? s.attempts) a l, done)
        settled
  recover_settles now later db s JobStatus.cancel_requested stored late late' clock st =
      let worker : has_worker s.status ≡ true = rw st refl in
      let (a, l, running) = has_latest hash s (Tests-of_valid hash s stored.valid) worker in
      let (t, db', done, stored', born, ended) =
        finish-Stored now db s a attempt_cancelled (cancellation_details a.attempt_id) stored late
          (started_before now s a clock l) worker l running refl refl
          (cancellation_event s now a.attempt_id) (rw st refl) in
      record {
        state = t;
        written = db';
        answer =
            latest_applied now db s attempt_cancelled cancellation_details (last? s.attempts) a l
            ∙ done;
        stored = stored';
        idle = rw ended refl;
      }
  recover_settles now later db s JobStatus.pending stored late late' clock st =
      retry_settles later db s stored (rw st refl) late'
  recover_settles now later db s JobStatus.succeeded stored late late' clock st =
      retry_settles later db s stored (rw st refl) late'
  recover_settles now later db s JobStatus.failed stored late late' clock st =
      retry_settles later db s stored (rw st refl) late'
  recover_settles now later db s JobStatus.cancelled stored late late' clock st =
      retry_settles later db s stored (rw st refl) late'

  -- The recovery of a stored job always returns a job: one that no worker holds, so neither running nor
  -- waiting to be cancelled, and the database then holds it. The clock must not have gone back behind the
  -- creation of the job or the start of an attempt.
  pub recover_persisted_state_settles :
      (now later : ℕ) (db : Database) (s : JobState)
      → Stored hash db s
      → ltb now s.created_at ≡ false
      → ltb later s.created_at ≡ false
      → all (λ (x : JobAttempt). leb x.started_at now) s.attempts ≡ true
      → Settled (recover_persisted_state hash parse now later db s)
  unfolding recover_persisted_state
  recover_persisted_state_settles now later db s stored late late' clock =
      recover_settles now later db s s.status stored late late' clock refl
